-- ===== src/Prelude/Loops.antt =====
-- Loops that push onto an array, sort it, or count its elements.
use mathlib.Core.List.{Permᴰ}
use mathlib.Core.List.Permᴰ
use Prim.Native.Nat.{suc}
use mathlib.Core.Path.{◌≡◌, refl, ap, ◌∙◌, subst}
use mathlib.Core.Logic.{◌↔◌, ◌⊎◌, inl, inr}
use mathlib.Core.Bool.{Bool, true, false, ◌&&◌, ◌||◌}
use mathlib.Core.List.{List, [], ◌∷◌, ◌++◌}
use native.Mathlib.Omega.{arith}
use grid_story.Prelude.Tests.{if◌then◌else◌, Bool-cases}
use grid_story.Prelude.Lists.{Member, here, there, not-Member-nil, Member-cons, any, length}

module _ {ℓ} {A : Type ℓ} where
  -- `if (test) values.push(value);`
  abbrev pub push_if : Bool → A → List A
  push_if true a = a ∷ []
  push_if false a = []

  pub any-append : (p : A → Bool) (xs ys : List A) → any p (xs ++ ys) ≡ (any p xs || any p ys)
  any-append p [] ys = refl
  any-append p (x ∷ xs) ys = ground (arith, any-append p xs ys)

  pub any-push_if : (p : A → Bool) (b : Bool) (a : A) → any p (push_if b a) ≡ (b && p a)
  any-push_if p true a = ground arith
  any-push_if p false a = refl

  -- `values.sort((left, right) => …)`, stable; `before left right` says that the comparison is
  -- negative.
  pub insert_sorted : (A → A → Bool) → A → List A → List A
  insert_sorted before x [] = x ∷ []
  insert_sorted before x (y ∷ ys) =
      if before y x then y ∷ insert_sorted before x ys else x ∷ (y ∷ ys)

  unfoldable pub sort : (A → A → Bool) → List A → List A
  unfolding insert_sorted
  sort before [] = []
  sort before (x ∷ xs) = insert_sorted before x (sort before xs)

  any-insert_sorted :
      (before : A → A → Bool) (p : A → Bool) (x : A) (xs : List A)
      → any p (insert_sorted before x xs) ≡ (p x || any p xs)
  unfolding insert_sorted
  any-insert_sorted before p x [] = refl
  any-insert_sorted before p x (y ∷ ys) = ground (arith, any-insert_sorted before p x ys)

  pub any-sort :
      (before : A → A → Bool) (p : A → Bool) (xs : List A) → any p (sort before xs) ≡ any p xs
  unfolding sort
  any-sort before p [] = refl
  any-sort before p (x ∷ xs) =
      any-insert_sorted before p x (sort before xs) ∙ ap (λ b. p x || b) (any-sort before p xs)

  insert_sorted-Permᴰ :
      (before : A → A → Bool) (x : A) (xs : List A) → Permᴰ (insert_sorted before x xs) (x ∷ xs)
  unfolding insert_sorted
  insert_sorted-Permᴰ before x [] = Permᴰ.refl (x ∷ [])
  insert_sorted-Permᴰ before x (y ∷ ys) = elim (Bool-cases (before y x)) [
    | inl e ↦
        rw e
          (Permᴰ.trans (Permᴰ.cons refl (insert_sorted-Permᴰ before x ys)) (Permᴰ.swap refl refl))
    | inr e ↦ rw e (Permᴰ.refl (x ∷ (y ∷ ys)))
  ]

  -- Sorting only changes the order.
  pub sort-Permᴰ : (before : A → A → Bool) (xs : List A) → Permᴰ (sort before xs) xs
  unfolding sort
  sort-Permᴰ before [] = Permᴰ.nil
  sort-Permᴰ before (x ∷ xs) =
      Permᴰ.trans (insert_sorted-Permᴰ before x (sort before xs))
        (Permᴰ.cons refl (sort-Permᴰ before xs))

  length-insert_sorted :
      (before : A → A → Bool) (x : A) (xs : List A)
      → length (insert_sorted before x xs) ≡ suc (length xs)
  unfolding insert_sorted
  length-insert_sorted before x [] = refl
  length-insert_sorted before x (y ∷ ys) = ground (arith, length-insert_sorted before x ys)

  pub length-sort : (before : A → A → Bool) (xs : List A) → length (sort before xs) ≡ length xs
  unfolding sort
  length-sort before [] = refl
  length-sort before (x ∷ xs) =
      length-insert_sorted before x (sort before xs) ∙ ap suc (length-sort before xs)

module _ {ℓ} {A : Type ℓ} where
  insert_sorted-Member :
      (before : A → A → Bool) (x : A) (xs : List A) {a : A}
      → Member a (insert_sorted before x xs)
      → (a ≡ x) ⊎ Member a xs
  unfolding insert_sorted
  insert_sorted-Member before x [] m = Member-cons m
  insert_sorted-Member before x (y ∷ ys) {a} m = elim (Bool-cases (before y x)) [
    | inl t ↦ elim (Member-cons (subst (λ zs. Member a zs) (rw t refl) m)) [
      | inl e ↦ inr (here e)
      | inr n ↦ elim (insert_sorted-Member before x ys n) [ inl e ↦ inl e | inr k ↦ inr (there k) ]
    ]
    | inr t ↦ Member-cons (subst (λ zs. Member a zs) (rw t refl) m)
  ]

  -- What a sorted list holds, the list held.
  pub sort-Member :
      (before : A → A → Bool) (xs : List A) {a : A} → Member a (sort before xs) → Member a xs
  unfolding sort
  sort-Member before [] m = m
  sort-Member before (x ∷ xs) m = elim (insert_sorted-Member before x (sort before xs) m) [
    | inl e ↦ here e
    | inr n ↦ there (sort-Member before xs n)
  ]

module _ {ℓ κ} {A : Type ℓ} {B : Type κ} where
  -- A loop over `xs` that pushes what `f` gives for each element.
  abbrev pub gather : (A → List B) → List A → List B
  gather f [] = []
  gather f (x ∷ xs) = f x ++ gather f xs

  pub any-gather :
      (p : B → Bool) (f : A → List B) (xs : List A)
      → any p (gather f xs) ≡ any (λ x. any p (f x)) xs
  any-gather p f [] = refl
  any-gather p f (x ∷ xs) =
      any-append p (f x) (gather f xs) ∙ ap (λ b. any p (f x) || b) (any-gather p f xs)

-- A test that fails everywhere.
pub any-false_iff {ℓ} :
    {A : Type ℓ} (p : A → Bool) (xs : List A)
    → (any p xs ≡ false) ↔ ((a : A) → Member a xs → p a ≡ false)
any-false_iff {A} p xs = (to xs, from xs)
  where
    to : (ys : List A) → any p ys ≡ false → (a : A) → Member a ys → p a ≡ false
    to [] h a m = absurd (not-Member-nil m)
    to (y ∷ ys) h a (here e) = ap p e ∙ ground arith
    to (y ∷ ys) h a (there m) = to ys (ground arith) a m

    from : (ys : List A) → ((a : A) → Member a ys → p a ≡ false) → any p ys ≡ false
    from [] h = refl
    from (y ∷ ys) h =
        let first = h y (here refl) in let rest = from ys (λ a m. h a (there m)) in rw (first, rest)
