-- ===== src/Prelude/Equality.antt =====
-- Equality tests as an interface: `===` of the source on texts, numbers and enumerations.
use Prim.Native.Nat.{ℕ}
use Prim.Native.String.{String}
use mathlib.Core.Path.{◌≡◌, refl, sym}
use mathlib.Core.Logic.{◌↔◌}
use mathlib.Core.Bool.{Bool, true, false}
use mathlib.Core.Option.{Option, none, some}
use native.Mathlib.Omega.{arith}
use text.Mathlib.Text.{◌==◌ as str_beq}
use text.Mathlib.TextEquality.{eq_iff}
use grid_story.Prelude.Tests.{nat_beq}

pub record Eq {ℓ} (A : Type ℓ) : Type ℓ where
  pub test : A → A → Bool
  pub test_iff : (a b : A) → (test a b ≡ true) ↔ (a ≡ b)

pub nat_beq_iff : (a b : ℕ) → (nat_beq a b ≡ true) ↔ (a ≡ b)
nat_beq_iff a b = ground arith

instance abbrev pub nat_eq : Eq ℕ
nat_eq = record { test = nat_beq; test_iff = nat_beq_iff }

instance abbrev pub string_eq : Eq String
string_eq = record { test = str_beq; test_iff = eq_iff }

abbrev pub bool_beq : Bool → Bool → Bool
bool_beq true b = b
bool_beq false true = false
bool_beq false false = true

pub bool_beq_iff : (a b : Bool) → (bool_beq a b ≡ true) ↔ (a ≡ b)
bool_beq_iff a b = (λ h. ground arith, λ h. ground arith)

instance abbrev pub bool_eq : Eq Bool
bool_eq = record { test = bool_beq; test_iff = bool_beq_iff }

infix 50 ◌==◌
abbrev pub ◌==◌ {ℓ} : {A : Type ℓ} ⦃e : Eq A⦄ → A → A → Bool
◌==◌ ⦃e⦄ = e.test

module _ {ℓ} {A : Type ℓ} ⦃e : Eq A⦄ where
  abbrev pub option_beq : Option A → Option A → Bool
  option_beq none none = true
  option_beq (some a) (some b) = a == b
  option_beq none (some b) = false
  option_beq (some a) none = false

  pub option_beq_iff : (a b : Option A) → (option_beq a b ≡ true) ↔ (a ≡ b)
  option_beq_iff none none = (λ h. refl, λ h. refl)
  option_beq_iff (some a) (some b) = (λ h. cc ((e.test_iff a b).0 h), λ h. (e.test_iff a b).1 (cc))
  option_beq_iff none (some b) = (λ h. cc, λ h. cc)
  option_beq_iff (some a) none = (λ h. cc, λ h. cc)

  instance abbrev pub option_eq : Eq (Option A)
  option_eq = record { test = option_beq; test_iff = option_beq_iff }

  pub ==-eq : {a b : A} → (a == b) ≡ true → a ≡ b
  ==-eq {a} {b} h = (e.test_iff a b).0 h

  pub ==_refl : (a : A) → (a == a) ≡ true
  ==_refl a = (e.test_iff a a).1 refl

  pub ==_comm : (a b : A) → (a == b) ≡ (b == a)
  ==_comm a b =
      go (a == b) (b == a) (λ h. (e.test_iff b a).1 (sym ((e.test_iff a b).0 h)))
        (λ h. (e.test_iff a b).1 (sym ((e.test_iff b a).0 h)))
    where
      go : (s t : Bool) → (s ≡ true → t ≡ true) → (t ≡ true → s ≡ true) → s ≡ t
      go true t to from = sym (to refl)
      go false true to from = from refl
      go false false to from = refl
