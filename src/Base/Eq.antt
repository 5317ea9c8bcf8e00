-- ===== src/Base/Eq.antt =====
-- Keys that can be compared, as instances: numbers and texts.
use text.Mathlib.Text.{◌==◌ as str_eq}
use text.Mathlib.TextEquality.{eq_iff}
use jean_fourche.Base.Tests.{◌==◌ as nat_beq, ==_iff}
use Prim.Native.Nat.{ℕ}
use Prim.Native.String.{String}
use mathlib.Core.Path.{◌≡◌, refl, sym, ◌∙◌, subst}
use mathlib.Core.Logic.{◌↔◌}
use mathlib.Core.Bool.{Bool, true}

pub record Eq (A : Type 0) : Type 0 where
  pub beq : A → A → Bool
  pub beq_iff : (a b : A) → (beq a b ≡ true) ↔ (a ≡ b)

instance abbrev pub nat_eq : Eq ℕ
nat_eq = record { beq = nat_beq; beq_iff = ==_iff }

instance abbrev pub string_eq : Eq String
string_eq = record { beq = str_eq; beq_iff = eq_iff }

module _ {A : Type 0} ⦃e : Eq A⦄ where
  pub beq_refl : (a : A) → e.beq a a ≡ true
  beq_refl a = (e.beq_iff a a).1 refl

  -- Two keys that a third one tells apart are not the same key.
  pub beq_apart : (a b c : A) → e.beq a b ≡ true → e.beq a c ≡ e.beq b c
  beq_apart a b c h = subst (λ z. e.beq a c ≡ e.beq z c) ((e.beq_iff a b).0 h) refl

  -- Two keys that are the same as a third one are the same.
  pub beq_join : (a b c : A) → e.beq a c ≡ true → e.beq b c ≡ true → e.beq a b ≡ true
  beq_join a b c p q = (e.beq_iff a b).1 ((e.beq_iff a c).0 p ∙ sym ((e.beq_iff b c).0 q))
