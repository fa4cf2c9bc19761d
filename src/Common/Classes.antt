-- ===== src/Common/Classes.antt =====
-- Equality tests of keys as an interface, with the instances that the program uses.
use infra_scope.Common.Tests.{==_iff, ◌==◌ as nat_eq_test}
use mathlib.Core.Path.{◌≡◌, refl}
use mathlib.Core.Logic.{◌↔◌}
use mathlib.Core.Bool.{true, Bool}
use text.Mathlib.TextEquality.{eq_iff as text_iff}
use text.Mathlib.Text.{◌==◌ as text_eq}
use Prim.Native.String.{String}
use Prim.Native.Nat.{ℕ}

-- A key type: the test that a dict makes, which holds of equal keys only.
pub record Eq {ℓ} (Key : Type ℓ) : Type ℓ where
  pub beq : Key → Key → Bool
  pub beq_iff : (x y : Key) → (beq x y ≡ true) ↔ (x ≡ y)

instance abbrev pub string_eq : Eq String
string_eq = record { beq = text_eq; beq_iff = text_iff }

module _ {ℓ} {Key : Type ℓ} ⦃keys : Eq Key⦄ where
  infix 50 ◌==◌
  abbrev pub ◌==◌ : Key → Key → Bool
  x == y = keys.beq x y

  pub ==_refl : (x : Key) → (x == x) ≡ true
  ==_refl x = let (_, holds) = keys.beq_iff x x in holds refl

  pub ==_sound : (x y : Key) → (x == y) ≡ true → x ≡ y
  ==_sound x y = let (sound, _) = keys.beq_iff x y in sound

instance abbrev pub nat_eq : Eq ℕ
nat_eq = record { beq = nat_eq_test; beq_iff = ==_iff }
