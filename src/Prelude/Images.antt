-- ===== src/Prelude/Images.antt =====
-- The images of a list under `map`.
use mathlib.Core.Path.{◌≡◌, refl, sym, ap, ◌∙◌, subst}
use mathlib.Core.Logic.{inl, inr}
use mathlib.Core.List.{List, [], ◌∷◌, map}
use grid_story.Prelude.Lists.{Member, here, there, Member-cons, not-Member-nil, Distinct}

pub Member-map {ℓ κ} :
    {A : Type ℓ} {B : Type κ} (f : A → B) (xs : List A) {b : B}
    → Member b (map f xs)
    → (a : A) × Member a xs × (b ≡ f a)
Member-map f [] m = absurd (not-Member-nil m)
Member-map f (x ∷ xs) m = elim (Member-cons m) [
  | inl e ↦ (x, here refl, e)
  | inr n ↦ let (a, k, e) = Member-map f xs n in (a, there k, e)
]

pub map-Member {ℓ κ} :
    {A : Type ℓ} {B : Type κ} (f : A → B) (xs : List A) {a : A}
    → Member a xs
    → Member (f a) (map f xs)
map-Member f (x ∷ xs) (here e) = here (ap f e)
map-Member f (x ∷ xs) (there m) = there (map-Member f xs m)
map-Member f [] m = absurd (not-Member-nil m)

-- Rows with distinct keys and one key are one row.
pub Distinct-map {ℓ κ} :
    {A : Type ℓ} {B : Type κ} (f : A → B) (xs : List A) {a b : A}
    → Distinct (map f xs)
    → Member a xs
    → Member b xs
    → f a ≡ f b
    → a ≡ b
Distinct-map f [] d m n e = absurd (not-Member-nil m)
Distinct-map {A} f (x ∷ xs) {a} {b} (new, d) m n e = elim (Member-cons m) [
  | inl p ↦ elim (Member-cons n) [
    | inl q ↦ p ∙ sym q
    | inr q ↦
        let lies : Member (f b) (map f xs) = map-Member f xs q in
        absurd (new (subst (λ y. Member y (map f xs)) (sym e ∙ ap f p) lies))
  ]
  | inr p ↦ elim (Member-cons n) [
    | inl q ↦
        let lies : Member (f a) (map f xs) = map-Member f xs p in
        absurd (new (subst (λ y. Member y (map f xs)) (e ∙ ap f q) lies))
    | inr q ↦ Distinct-map f xs d p q e
  ]
]
