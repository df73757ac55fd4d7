-- ===== src/Prelude/Bits.antt =====
-- The laws of `|` on natural numbers at variables: idempotence, commutativity, associativity.
-- Each goes by strong induction on a bound for the numbers, one binary digit at a time.
use Prim.Native.Nat.{ℕ, zero, suc, ◌+◌, ◌*◌, ◌/◌, ◌%◌, ◌≤◌, max, bit_or, digits, bit_or-bitwise}
use mathlib.Core.Path.{◌≡◌, refl, sym, ◌∙◌, ap}
use native.Mathlib.Omega.{arith}

abbrev or_digits : ℕ → ℕ → ℕ → ℕ
or_digits n a b = digits (λ y. y) max n a b

-- Any count of digits that covers the first number gives the same result.
or_digits_enough : (n m a b : ℕ) → a ≤ n → a ≤ m → or_digits n a b ≡ or_digits m a b
or_digits_enough n m zero b p q = at_zero n ∙ sym (at_zero m)
  where
    at_zero : (k : ℕ) → or_digits k 0 b ≡ b
    at_zero zero = refl
    at_zero (suc k) = refl
or_digits_enough (suc n) (suc m) (suc a) b p q =
    omega (arith, or_digits_enough n m (suc a / 2) (b / 2) (omega arith) (omega arith))
or_digits_enough _ _ (suc a) b p q = absurd (omega arith)

zero-bit_or : (b : ℕ) → bit_or 0 b ≡ b
zero-bit_or b = bit_or-bitwise 0 b

pub bit_or_low : (a b : ℕ) → bit_or a b ≡ bit_or (a / 2) (b / 2) * 2 + max (a % 2) (b % 2)
bit_or_low zero b = omega (arith, zero-bit_or b, zero-bit_or (b / 2))
bit_or_low (suc a) b =
    let half = suc a / 2 in
    omega (
      arith,
      bit_or-bitwise (suc a) b,
      bit_or-bitwise half (b / 2),
      or_digits_enough a half half (b / 2) (omega arith) (omega arith),
    )

bit_or_high : (a b : ℕ) → bit_or a b / 2 ≡ bit_or (a / 2) (b / 2)
bit_or_high a b = omega (arith, bit_or_low a b)

bit_or_last : (a b : ℕ) → bit_or a b % 2 ≡ max (a % 2) (b % 2)
bit_or_last a b = omega (arith, bit_or_low a b)

idem_upto : (n a : ℕ) → a ≤ n → bit_or a a ≡ a
idem_upto n zero h = zero-bit_or 0
idem_upto (suc n) (suc a) h =
    omega (arith, bit_or_low (suc a) (suc a), idem_upto n (suc a / 2) (omega arith))
idem_upto _ (suc a) h = absurd (omega arith)

comm_upto : (n a b : ℕ) → a + b ≤ n → bit_or a b ≡ bit_or b a
comm_upto zero a b h = let p : a ≡ 0 = omega arith in let q : b ≡ 0 = omega arith in rw (p, q)
comm_upto (suc n) zero zero h = refl
comm_upto (suc n) a b h =
    omega (arith, bit_or_low a b, bit_or_low b a, comm_upto n (a / 2) (b / 2) (omega arith))

assoc_upto : (n a b c : ℕ) → a + b + c ≤ n → bit_or (bit_or a b) c ≡ bit_or a (bit_or b c)
assoc_upto zero a b c h =
    let p : a ≡ 0 = omega arith in
    let q : b ≡ 0 = omega arith in let r : c ≡ 0 = omega arith in rw (p, q, r) refl
assoc_upto (suc n) zero zero zero h = refl
assoc_upto (suc n) a b c h = omega (
  arith,
  bit_or_low (bit_or a b) c
      ∙ ap (λ (t : ℕ). bit_or t (c / 2) * 2 + max (bit_or a b % 2) (c % 2)) (bit_or_high a b),
  bit_or_low a (bit_or b c)
      ∙ ap (λ (t : ℕ). bit_or (a / 2) t * 2 + max (a % 2) (bit_or b c % 2)) (bit_or_high b c),
  bit_or_last a b,
  bit_or_last b c,
  assoc_upto n (a / 2) (b / 2) (c / 2) (omega arith),
)

pub bit_or_idem : (a : ℕ) → bit_or a a ≡ a
bit_or_idem a = idem_upto a a (omega arith)

pub bit_or_comm : (a b : ℕ) → bit_or a b ≡ bit_or b a
bit_or_comm a b = comm_upto (a + b) a b (omega arith)

pub bit_or_assoc : (a b c : ℕ) → bit_or (bit_or a b) c ≡ bit_or a (bit_or b c)
bit_or_assoc a b c = assoc_upto (a + b + c) a b c (omega arith)

-- A mask that was added stays in, whatever is added later.
pub bit_or_absorbs_added : (a m : ℕ) → bit_or (bit_or a m) m ≡ bit_or a m
bit_or_absorbs_added a m = bit_or_assoc a m m ∙ ap (bit_or a) (bit_or_idem m)

pub bit_or_keeps : (a m n : ℕ) → bit_or a m ≡ a → bit_or (bit_or a n) m ≡ bit_or a n
bit_or_keeps a m n h =
    bit_or_assoc a n m
    ∙ (ap (bit_or a) (bit_or_comm n m) ∙ (sym (bit_or_assoc a m n) ∙ ap (λ t. bit_or t n) h))
