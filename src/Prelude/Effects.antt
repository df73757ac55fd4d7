-- ===== src/Prelude/Effects.antt =====
-- Methods that change an object and may throw: what was changed before the throw stays changed.
use mathlib.Core.Path.{◌≡◌, refl}
use mathlib.Core.Bool.{Bool, true, false}
use native.Mathlib.Omega.{arith}

-- What the methods throw: the language's errors, an `Error` of the library, and what a callback
-- of the caller rejects with.
pub data JsError : Type 0 where
  type_error range_error library_error callback_error : JsError

pub data Outcome (S A : Type 0) : Type 0 where
  ok : A → S → Outcome S A
  throw : JsError → S → Outcome S A

abbrev pub state_of : {S A : Type 0} → Outcome S A → S
state_of (ok a s) = s
state_of (throw e s) = s

-- The call returned.
abbrev pub returned : {S A : Type 0} → Outcome S A → Bool
returned (ok a s) = true
returned (throw e s) = false

abbrev pub Eff : Type 0 → Type 0 → Type 0
Eff S A = S → Outcome S A

infixl 5 ◌>>=◌ ◌>>◌
abbrev pub ◌>>=◌ : {S A B : Type 0} → Eff S A → (A → Eff S B) → Eff S B
◌>>=◌ m f s = elim (m s) [ ok a s' ↦ f a s' | throw e s' ↦ throw e s' ]

abbrev pub ◌>>◌ : {S B : Type 0} → Eff S (Unit {0}) → Eff S B → Eff S B
◌>>◌ m k s = elim (m s) [ ok a s' ↦ k s' | throw e s' ↦ throw e s' ]

abbrev pub pure : {S A : Type 0} → A → Eff S A
pure a s = ok a s

-- A change of the state that cannot fail.
abbrev pub modify : {S : Type 0} → (S → S) → Eff S (Unit {0})
modify f s = ok tt (f s)

-- A call that returns leaves a state with the first property, one that throws with the second.
abbrev pub Ensures : {S A : Type 0} → (S → Type 0) → (S → Type 0) → Outcome S A → Type 0
Ensures P R (ok a s) = P s
Ensures P R (throw e s) = R s

pub Ensures-state :
    {S A : Type 0} (P : S → Type 0) (o : Outcome S A) → P (state_of o) → Ensures P P o
Ensures-state P (ok a s) h = h
Ensures-state P (throw e s) h = h

-- The rule for one call after another.
pub state-bind :
    {S A B : Type 0} (P R : S → Type 0) (m : Eff S A) (f : A → Eff S B) (s : S)
    → Ensures P R (m s)
    → ((a : A) (s' : S) → P s' → R (state_of (f a s')))
    → R (state_of ((m >>= f) s))
state-bind {S} {A} {B} P R m f s h k = go (m s) h
  where
    go :
        (o : Outcome S A)
        → Ensures P R o
        → R (state_of {A = B} (elim o [ ok a s' ↦ f a s' | throw e s' ↦ throw e s' ]))
    go (ok a s') p = k a s' p
    go (throw e s') r = r

pub state-then :
    {S B : Type 0} (P R : S → Type 0) (m : Eff S (Unit {0})) (k : Eff S B) (s : S)
    → Ensures P R (m s)
    → ((s' : S) → P s' → R (state_of (k s')))
    → R (state_of ((m >> k) s))
state-then {S} {B} P R m k s h f = go (m s) h
  where
    go :
        (o : Outcome S (Unit {0}))
        → Ensures P R o
        → R (state_of {A = B} (elim o [ ok a s' ↦ k s' | throw e s' ↦ throw e s' ]))
    go (ok a s') p = f s' p
    go (throw e s') r = r

pub then-Ensures :
    {S B : Type 0} (P Q R : S → Type 0) (m : Eff S (Unit {0})) (k : Eff S B) (s : S)
    → Ensures P R (m s)
    → ((s' : S) → P s' → Ensures Q R (k s'))
    → Ensures Q R ((m >> k) s)
then-Ensures {S} {B} P Q R m k s h f = go (m s) h
  where
    go :
        (o : Outcome S (Unit {0}))
        → Ensures P R o
        → Ensures {A = B} Q R (elim o [ ok a s' ↦ k s' | throw e s' ↦ throw e s' ])
    go (ok a s') p = f s' p
    go (throw e s') r = r

-- A call that returned did so with some value.
pub ok_cases :
    {S A : Type 0} (o : Outcome S A) → returned o ≡ true → (a : A) × (o ≡ ok a (state_of o))
ok_cases (ok a s) h = (a, refl)
ok_cases (throw e s) h = absurd (ground arith)
