-- ===== src/Prelude/Lists.antt =====
-- Arrays of the source as lists: `length`, `includes`, `find`, `some`, `every`, `filter`.
use Prim.Native.Nat.{ℕ, zero, suc, ◌+◌, ◌≤◌}
use mathlib.Core.Path.{◌≡◌, refl, ap, sym, ◌∙◌, subst}
use mathlib.Core.Logic.{◌≢◌, ◌⊎◌, inl, inr}
use mathlib.Core.Bool.{Bool, true, false, ◌&&◌, ◌||◌}
use mathlib.Core.Option.{Option, none, some}
use mathlib.Core.List.{List, [], ◌∷◌, ◌++◌}
use native.Mathlib.Omega.{arith}
use grid_story.Prelude.Tests.{if◌then◌else◌, Bool-cases}
use grid_story.Prelude.Equality.{Eq, ◌==◌}

module _ {ℓ} {A : Type ℓ} where
  abbrev pub length : List A → ℕ
  length [] = 0
  length (x ∷ xs) = suc (length xs)

  abbrev pub get_elem? : List A → ℕ → Option A
  get_elem? [] i = none
  get_elem? (x ∷ xs) zero = some x
  get_elem? (x ∷ xs) (suc i) = get_elem? xs i

  abbrev pub find : (A → Bool) → List A → Option A
  find p [] = none
  find p (x ∷ xs) = if p x then some x else find p xs

  abbrev pub any : (A → Bool) → List A → Bool
  any p [] = false
  any p (x ∷ xs) = p x || any p xs

  abbrev pub all : (A → Bool) → List A → Bool
  all p [] = true
  all p (x ∷ xs) = p x && all p xs

  abbrev pub keep : (A → Bool) → List A → List A
  keep p [] = []
  keep p (x ∷ xs) = if p x then x ∷ keep p xs else keep p xs

  -- Membership as a position, which can be matched and computed with.
  pub data Member (a : A) : List A → Type ℓ where
    here : {x : A} {xs : List A} → a ≡ x → Member a (x ∷ xs)
    there : {x : A} {xs : List A} → Member a xs → Member a (x ∷ xs)

  abbrev pub IsSubset : List A → List A → Type ℓ
  IsSubset xs ys = (a : A) → Member a xs → Member a ys

  pub length-append : (xs ys : List A) → length (xs ++ ys) ≡ length xs + length ys
  length-append [] ys = omega arith
  length-append (x ∷ xs) ys = omega (arith, length-append xs ys)

  pub not-Member-nil : {a : A} → Member a [] → ⊥
  not-Member-nil m = go [] refl m
    where
      go : {a : A} (xs : List A) → xs ≡ [] → Member a xs → ⊥
      go xs e (here p) = cc
      go xs e (there m) = cc

  pub Member-append_left : {a : A} (xs ys : List A) → Member a xs → Member a (xs ++ ys)
  Member-append_left (x ∷ xs) ys (here e) = here e
  Member-append_left (x ∷ xs) ys (there m) = there (Member-append_left xs ys m)
  Member-append_left [] ys m = absurd (not-Member-nil m)

  pub Member-append_right : {a : A} (xs ys : List A) → Member a ys → Member a (xs ++ ys)
  Member-append_right [] ys m = m
  Member-append_right (x ∷ xs) ys m = there (Member-append_right xs ys m)

  pub Member-append : {a : A} (xs ys : List A) → Member a (xs ++ ys) → Member a xs ⊎ Member a ys
  Member-append [] ys m = inr m
  Member-append (x ∷ xs) ys (here e) = inl (here e)
  Member-append (x ∷ xs) ys (there m) = elim (Member-append xs ys m) [
    | inl l ↦ inl (there l)
    | inr r ↦ inr r
  ]

  -- `find` returns an element that passes, and fails only if none does.
  pub find-some :
      (p : A → Bool) (xs : List A) {a : A} → find p xs ≡ some a → (p a ≡ true) × Member a xs
  find-some p [] h = cc
  find-some p (x ∷ xs) {a} h = elim (Bool-cases (p x)) [
    | inl e ↦ let f : x ≡ a = ground arith in (ground arith, here (sym f))
    | inr e ↦ let (t, m) = find-some p xs (ground arith) in (t, there m)
  ]

  pub find-none :
      (p : A → Bool) (xs : List A) (a : A) → find p xs ≡ none → Member a xs → p a ≡ false
  find-none p (x ∷ xs) a h (here e) = elim (Bool-cases (p x)) [
    | inl t ↦ ground arith
    | inr f ↦ ap p e ∙ f
  ]
  find-none p (x ∷ xs) a h (there m) = find-none p xs a (ground arith) m
  find-none p [] a h m = absurd (not-Member-nil m)

  pub any-true :
      (p : A → Bool) (xs : List A) → any p xs ≡ true → (a : A) × Member a xs × (p a ≡ true)
  any-true p [] h = cc
  any-true p (x ∷ xs) h = elim (Bool-cases (p x)) [
    | inl e ↦ (x, here refl, e)
    | inr e ↦ let (a, m, t) = any-true p xs (ground arith) in (a, there m, t)
  ]

  pub any-of_Member :
      (p : A → Bool) (xs : List A) (a : A) → Member a xs → p a ≡ true → any p xs ≡ true
  any-of_Member p (x ∷ xs) a (here e) h = let f : p x ≡ true = ap p (sym e) ∙ h in ground arith
  any-of_Member p (x ∷ xs) a (there m) h = ground (arith, any-of_Member p xs a m h)
  any-of_Member p [] a m h = absurd (not-Member-nil m)

  pub all-Member : (p : A → Bool) (xs : List A) (a : A) → all p xs ≡ true → Member a xs → p a ≡ true
  all-Member p (x ∷ xs) a h (here e) = ap p e ∙ ground arith
  all-Member p (x ∷ xs) a h (there m) = all-Member p xs a (ground arith) m
  all-Member p [] a h m = absurd (not-Member-nil m)

  pub all-of_Member :
      (p : A → Bool) (xs : List A) → ((a : A) → Member a xs → p a ≡ true) → all p xs ≡ true
  all-of_Member p [] h = refl
  all-of_Member p (x ∷ xs) h = rw (h x (here refl)) (all-of_Member p xs (λ a m. h a (there m)))

  pub Member-cons : {a x : A} {xs : List A} → Member a (x ∷ xs) → (a ≡ x) ⊎ Member a xs
  Member-cons (here e) = inl e
  Member-cons (there m) = inr m

  pub keep-Member :
      (p : A → Bool) (xs : List A) {a : A} → Member a (keep p xs) → Member a xs × (p a ≡ true)
  keep-Member p [] m = absurd (not-Member-nil m)
  keep-Member p (x ∷ xs) {a} m = elim (Bool-cases (p x)) [
    | inl e ↦ elim (Member-cons (rw e at m)) [
      | inl f ↦ (here f, ap p f ∙ e)
      | inr n ↦ let (k, t) = keep-Member p xs n in (there k, t)
    ]
    | inr e ↦ let (n, t) = keep-Member p xs (rw e at m) in (there n, t)
  ]

  pub Member-keep :
      (p : A → Bool) (xs : List A) {a : A} → Member a xs → p a ≡ true → Member a (keep p xs)
  Member-keep p [] m t = absurd (not-Member-nil m)
  Member-keep p (x ∷ xs) (here f) t = rw (ap p (sym f) ∙ t) (here f)
  Member-keep p (x ∷ xs) (there m) t = elim (Bool-cases (p x)) [
    | inl e ↦ rw e (there (Member-keep p xs m t))
    | inr e ↦ rw e (Member-keep p xs m t)
  ]

  pub length-keep-le : (p : A → Bool) (xs : List A) → length (keep p xs) ≤ length xs
  length-keep-le p [] = omega arith
  length-keep-le p (x ∷ xs) = ground (arith, length-keep-le p xs)

  -- No element occurs twice.
  abbrev pub Distinct : List A → Type ℓ
  Distinct [] = Unit
  Distinct (x ∷ xs) = (Member x xs → ⊥) × Distinct xs

module _ {ℓ} {A : Type ℓ} ⦃e : Eq A⦄ where
  -- `values.includes(value)`.
  abbrev pub contains : List A → A → Bool
  contains xs a = any (λ x. x == a) xs

  pub contains-Member : (xs : List A) (a : A) → contains xs a ≡ true → Member a xs
  contains-Member xs a h =
      let (x, m, t) = any-true (λ x. x == a) xs h in
      subst (λ y. Member y xs) ((e.test_iff x a).0 t) m

  pub Member-contains : (xs : List A) (a : A) → Member a xs → contains xs a ≡ true
  Member-contains xs a m = any-of_Member (λ x. x == a) xs a m ((e.test_iff a a).1 refl)

  -- A list without repetition whose elements all lie in another is no longer than it.
  remove : A → List A → List A
  remove a [] = []
  remove a (x ∷ xs) = if x == a then xs else x ∷ remove a xs

  length-remove : (a : A) (xs : List A) → Member a xs → length xs ≡ suc (length (remove a xs))
  unfolding remove
  length-remove a [] m = absurd (not-Member-nil m)
  length-remove a (x ∷ xs) m = elim (Bool-cases (x == a)) [
    | inl t ↦ rw t refl
    | inr f ↦ elim (Member-cons m) [
      | inl p ↦ let q = (e.test_iff x a).1 (sym p) in cc
      | inr n ↦ rw f (ap suc (length-remove a xs n))
    ]
  ]

  Member-remove : (a b : A) (xs : List A) → Member b xs → b ≢ a → Member b (remove a xs)
  unfolding remove
  Member-remove a b [] m d = absurd (not-Member-nil m)
  Member-remove a b (x ∷ xs) m d = elim (Bool-cases (x == a)) [
    | inl t ↦ elim (Member-cons m) [
      | inl p ↦ absurd (d (p ∙ (e.test_iff x a).0 t))
      | inr n ↦ rw t n
    ]
    | inr f ↦ elim (Member-cons m) [
      | inl p ↦ rw f (here p)
      | inr n ↦ rw f (there (Member-remove a b xs n d))
    ]
  ]

  pub length-le_of_Distinct :
      (xs ys : List A) → Distinct xs → IsSubset xs ys → length xs ≤ length ys
  length-le_of_Distinct [] ys d s = omega arith
  length-le_of_Distinct (x ∷ xs) ys (n, d) s = omega (
    arith,
    length-remove x ys (s x (here refl)),
    length-le_of_Distinct xs (remove x ys) d
        (λ a m. Member-remove x a ys (s a (there m)) (λ p. n (subst (λ y. Member y xs) p m))),
  )
