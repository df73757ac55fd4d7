-- ===== src/Prelude/Words.antt =====
-- Big-endian bytes of a number: `setBigInt64` and `getBigUint64` of a `DataView`.
use native.Mathlib.Nat.{pow-suc}
use Prim.Native.Nat.{ℕ, zero, suc, ◌+◌, ◌*◌, ◌/◌, ◌%◌, ◌^◌, ◌<◌}
use mathlib.Core.Path.{◌≡◌, refl, ap}
use mathlib.Core.List.{List, [], ◌∷◌, ◌++◌}
use native.Mathlib.Omega.{arith}
use logos_messaging_js.Prelude.Lists.{length, length-append, take, drop}

-- The lowest `n` bytes, the highest of them first.
unfoldable pub be_bytes : ℕ → ℕ → List ℕ
be_bytes zero w = []
be_bytes (suc n) w = be_bytes n (w / 256) ++ (w % 256 ∷ [])

unfoldable pub be_read : ℕ → List ℕ → ℕ
be_read acc [] = acc
be_read acc (b ∷ bs) = be_read (acc * 256 + b) bs

pub length-be_bytes : (n w : ℕ) → length (be_bytes n w) ≡ n
unfolding be_bytes
length-be_bytes zero w = refl
length-be_bytes (suc n) w =
    omega (arith, length-append (be_bytes n (w / 256)) (w % 256 ∷ []), length-be_bytes n (w / 256))

be_read-append :
    (acc : ℕ) (bs : List ℕ) (b : ℕ) → be_read acc (bs ++ b ∷ []) ≡ be_read acc bs * 256 + b
unfolding be_read
be_read-append acc [] b = refl
be_read-append acc (c ∷ bs) b = be_read-append (acc * 256 + c) bs b

-- Reading the bytes of a number that fits them gives the number.
pub be_read-be_bytes : (n w : ℕ) → w < 256 ^ n → be_read 0 (be_bytes n w) ≡ w
unfolding be_bytes be_read
be_read-be_bytes zero w h = omega arith
be_read-be_bytes (suc n) w h = omega (
  arith,
  be_read-append 0 (be_bytes n (w / 256)) (w % 256),
  be_read-be_bytes n (w / 256) (omega (arith, pow-suc 256 n)),
)

pub take-append_length {ℓ} : {A : Type ℓ} (xs ys : List A) → take (length xs) (xs ++ ys) ≡ xs
take-append_length [] ys = refl
take-append_length (x ∷ xs) ys = ap (◌∷◌ x) (take-append_length xs ys)

pub drop-append_length {ℓ} : {A : Type ℓ} (xs ys : List A) → drop (length xs) (xs ++ ys) ≡ ys
drop-append_length [] ys = refl
drop-append_length (x ∷ xs) ys = drop-append_length xs ys
