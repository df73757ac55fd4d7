-- ===== src/Prelude/Texts.antt =====
-- Whole-text comparison `===` on identifiers.
use Prim.Native.String.{String}
use mathlib.Core.Path.{◌≡◌}
use mathlib.Core.Logic.{◌↔◌, ◌≢◌}
use mathlib.Core.Bool.{Bool, true, false}
use native.Mathlib.Omega.{arith}
use text.Mathlib.Text.{◌==◌ as text_eq}
use text.Mathlib.TextEquality.{eq_iff}

infix 50 ◌===◌
unfoldable pub ◌===◌ : String → String → Bool
a === b = text_eq a b

pub ===_iff : (a b : String) → ((a === b) ≡ true) ↔ (a ≡ b)
unfolding ◌===◌
===_iff a b = eq_iff a b

pub ===_refl : (a : String) → (a === a) ≡ true
===_refl a = (===_iff a a).1 (λ i. a)

pub ===_ne : (a b : String) → a ≢ b → (a === b) ≡ false
===_ne a b h = ground (arith, ===_iff a b)
