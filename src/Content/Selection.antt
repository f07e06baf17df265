-- ===== src/Content/Selection.antt =====
-- Which jobs a claim takes.
use mathlib.Core.List.{Permᴰ}
use mathlib.Core.List.Permᴰ
use grid_story.Prelude.{
  ℕ, zero, suc, ◌≤◌, ◌<◌, String, Bool, true, not, List, [], ◌∷◌, ◌++◌, keep, map, sort, sort-Permᴰ,
  leb, length, Result, ok, ◌≡◌, refl, sym, ap, subst, arith, Bool-cases, inl, inr, ◌⊎◌,
}
use grid_story.Context.{ContentScope, scope_eq}
use grid_story.Content.{DurableJob, Store, Failure}
use grid_story.Content.Queue.{
  take, clamped, is_due_job, before_job, due_jobs, claimed_job, claim_jobs,
}
use grid_story.Content.Claims.{claim_jobs_runs}
use grid_story.Content.Due.{IsDue, IsClaimed, is_due_job-IsDue}

-- What holds of every element of a list.
abbrev pub Each {ℓ} : {A : Type ℓ} → (A → Type 0) → List A → Type 0
Each holds [] = Unit {0}
Each holds (x ∷ xs) = holds x × Each holds xs

-- The jobs `after` are the jobs `before` one by one, each due and claimed.
abbrev pub AreClaimed : ContentScope → String → ℕ → ℕ → List DurableJob → List DurableJob → Type 0
AreClaimed scope worker at lease [] [] = Unit {0}
AreClaimed scope worker at lease (before ∷ ahead) (after ∷ rest) =
    IsDue scope at before
    × IsClaimed worker at lease before after
    × AreClaimed scope worker at lease ahead rest
AreClaimed scope worker at lease [] (after ∷ rest) = ⊥
AreClaimed scope worker at lease (before ∷ ahead) [] = ⊥

-- How many jobs a claim takes at most: its limit, but at least one and at most a hundred.
abbrev pub IsMost : ℕ → ℕ → Type 0
IsMost limit most =
    ((limit ≡ 0) × (most ≡ 1))
    ⊎ ((1 ≤ limit) × (limit ≤ 100) × (most ≡ limit))
    ⊎ ((100 < limit) × (most ≡ 100))

clamped-IsMost : (limit : ℕ) → IsMost limit (clamped 100 limit)
clamped-IsMost limit = elim (sizes limit) [
  | inl none_left ↦ inl (none_left, rw none_left (ground arith))
  | inr (inl (least, most)) ↦ inr (inl (least, most, ground (arith, least, most)))
  | inr (inr large) ↦ inr (inr (large, ground (arith, large)))
]
  where
    sizes : (n : ℕ) → (n ≡ 0) ⊎ ((1 ≤ n) × (n ≤ 100)) ⊎ (100 < n)
    sizes zero = inl refl
    sizes (suc n) = elim (Bool-cases (leb n 99)) [
      | inl e ↦ inr (inl (omega arith, ground (arith, e)))
      | inr e ↦ inr (inr (ground (arith, e)))
    ]

Each-keep {ℓ} :
    {A : Type ℓ} (test : A → Bool) (holds : A → Type 0) (xs : List A)
    → ((x : A) → test x ≡ true → holds x)
    → Each holds (keep test xs)
Each-keep test holds [] h = tt
Each-keep test holds (x ∷ xs) h = elim (Bool-cases (test x)) [
  | inl e ↦ rw e (h x e, Each-keep test holds xs h)
  | inr e ↦ rw e (Each-keep test holds xs h)
]

Each-Permᴰ {ℓ} :
    {A : Type ℓ} (holds : A → Type 0) {xs ys : List A} → Permᴰ xs ys → Each holds xs → Each holds ys
Each-Permᴰ holds Permᴰ.nil h = h
Each-Permᴰ holds (Permᴰ.cons e p) h = (subst holds e h.0, Each-Permᴰ holds p h.1)
Each-Permᴰ holds (Permᴰ.swap e f) h = (subst holds f h.1.0, (subst holds e h.0, h.1.1))
Each-Permᴰ holds (Permᴰ.trans p q) h = Each-Permᴰ holds q (Each-Permᴰ holds p h)

Each-append {ℓ} :
    {A : Type ℓ} (holds : A → Type 0) (xs ys : List A)
    → Each holds (xs ++ ys)
    → Each holds xs × Each holds ys
Each-append holds [] ys h = (tt, h)
Each-append holds (x ∷ xs) ys (first, rest) =
    let (a, b) = Each-append holds xs ys rest in ((first, a), b)

-- What is left of a list after its first elements.
abbrev drop {ℓ} : {A : Type ℓ} → ℕ → List A → List A
drop zero xs = xs
drop (suc n) [] = []
drop (suc n) (x ∷ xs) = drop n xs

take-drop {ℓ} : {A : Type ℓ} (n : ℕ) (xs : List A) → take n xs ++ drop n xs ≡ xs
take-drop zero xs = refl
take-drop (suc n) [] = refl
take-drop (suc n) (x ∷ xs) = ap (λ ys. x ∷ ys) (take-drop n xs)

-- All are taken, or as many as the number says.
length-take {ℓ} :
    {A : Type ℓ} (n : ℕ) (xs : List A)
    → ((drop n xs ≡ []) × (length (take n xs) ≤ n)) ⊎ (length (take n xs) ≡ n)
length-take zero xs = inr refl
length-take (suc n) [] = inl (refl, omega arith)
length-take (suc n) (x ∷ xs) = elim (length-take n xs) [
  | inl (none_left, most) ↦ inl (none_left, omega (arith, most))
  | inr e ↦ inr (ap suc e)
]

middle-Permᴰ {ℓ} : {A : Type ℓ} (x : A) (ys zs : List A) → Permᴰ (ys ++ (x ∷ zs)) (x ∷ (ys ++ zs))
middle-Permᴰ x [] zs = Permᴰ.refl (x ∷ zs)
middle-Permᴰ x (y ∷ ys) zs =
    Permᴰ.trans (Permᴰ.cons refl (middle-Permᴰ x ys zs)) (Permᴰ.swap refl refl)

-- The elements that pass a test and those that fail it make up the list.
partition-Permᴰ {ℓ} :
    {A : Type ℓ} (test : A → Bool) (xs : List A)
    → Permᴰ (keep test xs ++ keep (λ x. not (test x)) xs) xs
partition-Permᴰ test [] = Permᴰ.nil
partition-Permᴰ test (x ∷ xs) = elim (Bool-cases (test x)) [
  | inl e ↦ rw (e) (Permᴰ.cons refl (partition-Permᴰ test xs))
  | inr e ↦ rw (e) (
      Permᴰ.trans (middle-Permᴰ x (keep test xs) (keep (λ y. not (test y)) xs))
        (Permᴰ.cons refl (partition-Permᴰ test xs)))
]

map-AreClaimed :
    (scope : ContentScope) (worker : String) (at lease : ℕ) (rows : List DurableJob)
    → Each (IsDue scope at) rows
    → AreClaimed scope worker at lease rows (map (claimed_job worker at lease) rows)
map-AreClaimed scope worker at lease [] h = tt
map-AreClaimed scope worker at lease (row ∷ rows) (due, rest) =
    (due, refl, map-AreClaimed scope worker at lease rows rest)

-- A claim always returns. The jobs of the store are those that it takes, others that are due, and
-- those that are not due. It returns the jobs that it takes, each one as being processed by the
-- worker, with the lease, one attempt more, no error and the instant of the claim, and otherwise as
-- it was. It takes all that are due or as many as it may: its limit, which counts as 1 when it is 0
-- and as 100 when it is more.
pub claim_jobs_bounds :
    (scope : ContentScope) (worker : String) (limit at lease : ℕ) (s : Store)
    → (jobs taken others waiting : List DurableJob) × (most : ℕ) × ((claim_jobs scope worker limit
          at lease s).0
        ≡ ok jobs)
      × Permᴰ ((taken ++ others) ++ waiting) s.tables.durable_jobs
      × AreClaimed scope worker at lease taken jobs
      × Each (IsDue scope at) others
      × Each (λ job. ¬ IsDue scope at job) waiting
      × IsMost limit most
      × (((others ≡ []) × (length taken ≤ most)) ⊎ (length taken ≡ most))
unfolding due_jobs
claim_jobs_bounds scope worker limit at lease s =
    let stored = s.tables.durable_jobs in
    let test = is_due_job scope at in
    let most = clamped 100 limit in
    let sorted = sort before_job (keep test stored) in
    let parts = take-drop most sorted in
    let ordered =
      subst (λ js. Permᴰ js (keep test stored)) (sym parts)
        (sort-Permᴰ before_job (keep test stored)) in
    let due =
      Each-Permᴰ (IsDue scope at) (Permᴰ.symm ordered)
        (Each-keep test (IsDue scope at) stored (λ job e. (is_due_job-IsDue scope at job).0 e)) in
    let (taken_due, others_due) =
      Each-append (IsDue scope at) (take most sorted) (drop most sorted) due in
    (
      map (claimed_job worker at lease) (take most sorted),
      take most sorted,
      drop most sorted,
      keep (λ job. not (test job)) stored,
      most,
      ap (λ (p : Result Failure (List DurableJob) × Store). p.0)
          (claim_jobs_runs scope worker limit at lease s),
      Permᴰ.trans (Permᴰ.append_right (keep (λ job. not (test job)) stored) ordered)
          (partition-Permᴰ test stored),
      map-AreClaimed scope worker at lease (take most sorted) taken_due,
      others_due,
      Each-keep (λ job. not (test job)) (λ job. ¬ IsDue scope at job) stored
          (λ job e due_now.
            let f = (is_due_job-IsDue scope at job).1 due_now in ground (arith, e, f)),
      clamped-IsMost limit,
      length-take most sorted,
    )
