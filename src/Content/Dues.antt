-- ===== src/Content/Dues.antt =====
-- How many durable jobs are due, before and after a claim.
use grid_story.Prelude.{
  ℕ, zero, suc, ◌≤◌, ◌<◌, String, Bool, true, false, List, [], ◌∷◌, ◌==◌, string_eq, keep, sort,
  length, ◌≡◌, refl, sym, ap, ◌∙◌, arith, Bool-cases, inl, inr, ◌⊎◌, Member, here, there,
  not-Member-nil, length-sort, ==_refl,
}
use grid_story.Context.{ContentScope, scope_eq}
use grid_story.Content.{DurableJob, Tables}
use grid_story.Content.Statements.{update_where}
use grid_story.Content.Queue.{
  take, clamped, count, is_due_job, before_job, due_jobs, claimed_job, mark_job,
}
use grid_story.Content.Due.{is_due_job_later}
use grid_story.Content.Claims.{mark_all, held_not_due}

count-update_where {ℓ} :
    {A : Type ℓ} (p test : A → Bool) (f : A → A) (xs : List A)
    → ((x : A) → p (f x) ≡ false)
    → count p (update_where test f xs) ≤ count p xs
count-update_where p test f [] h = omega arith
count-update_where p test f (x ∷ xs) h = ground (arith, h x, count-update_where p test f xs h)

count-update_where_less {ℓ} :
    {A : Type ℓ} (p test : A → Bool) (f : A → A) (xs : List A) {a : A}
    → ((x : A) → p (f x) ≡ false)
    → Member a xs
    → test a ≡ true
    → p a ≡ true
    → count p (update_where test f xs) < count p xs
count-update_where_less p test f [] h m t q = absurd (not-Member-nil m)
count-update_where_less p test f (x ∷ xs) {a} h (here e) t q =
    let t' : test x ≡ true = ap test (sym e) ∙ t in
    let q' : p x ≡ true = ap p (sym e) ∙ q in
    ground (arith, t', q', h x, count-update_where p test f xs h)
count-update_where_less p test f (x ∷ xs) h (there m) t q =
    ground (arith, h x, count-update_where_less p test f xs h m t q)

length-take {ℓ} :
    {A : Type ℓ} (n : ℕ) (xs : List A)
    → (length (take n xs) ≤ n) × ((length (take n xs) ≡ length xs) ⊎ (length (take n xs) ≡ n))
length-take zero xs = (omega arith, inr refl)
length-take (suc n) [] = (omega arith, inl refl)
length-take (suc n) (x ∷ xs) =
    let (a, b) = length-take n xs in
    (omega (arith, a), elim b [ inl e ↦ inl (ap suc e) | inr e ↦ inr (ap suc e) ])

pub clamped_bounds :
    (most limit : ℕ) → 1 ≤ most → (1 ≤ clamped most limit) × (clamped most limit ≤ most)
clamped_bounds most limit h = (ground arith, ground arith)

module _ (scope : ContentScope) (worker : String) (at instant lease : ℕ)
    (early : instant < lease) where
  not_due : (job : DurableJob) → is_due_job scope instant (claimed_job worker at lease job) ≡ false
  not_due job =
      held_not_due scope instant lease (claimed_job worker at lease job) early (refl, refl)

  pub count-mark_all :
      (rows jobs : List DurableJob)
      → count (is_due_job scope instant) (mark_all worker at lease rows jobs)
        ≤ count (is_due_job scope instant) jobs
  count-mark_all [] jobs = omega arith
  count-mark_all (row ∷ rows) jobs = omega (
    arith,
    count-mark_all rows (mark_job worker at lease row jobs),
    count-update_where (is_due_job scope instant) (λ j. j.id == row.id)
        (claimed_job worker at lease) jobs not_due,
  )

  -- A claim leaves fewer jobs due, if any was.
  pub fewer_due :
      (rows jobs : List DurableJob)
      → ((row : DurableJob)
          → Member row rows
          → Member row jobs × (is_due_job scope instant row ≡ true))
      → (length rows ≡ 0)
        ⊎ (count (is_due_job scope instant) (mark_all worker at lease rows jobs)
            < count (is_due_job scope instant) jobs)
  fewer_due [] jobs h = inl refl
  fewer_due (row ∷ rows) jobs h =
      let (m, due) = h row (here refl) in
      inr (
        omega (
          arith,
          count-mark_all rows (mark_job worker at lease row jobs),
          count-update_where_less (is_due_job scope instant) (λ j. j.id == row.id)
              (claimed_job worker at lease) jobs not_due m (==_refl row.id) due,
        ))

-- The jobs of the scope that are due, and how many a claim takes of them.
pub length-due_jobs :
    (scope : ContentScope) (limit at : ℕ) (tables : Tables)
    → let due = count (is_due_job scope at) tables.durable_jobs in
      let taken = length (due_jobs scope limit at tables) in
      (taken ≤ clamped 100 limit) × ((taken ≡ due) ⊎ (taken ≡ clamped 100 limit))
unfolding due_jobs
length-due_jobs scope limit at tables =
    let sorted = sort before_job (keep (is_due_job scope at) tables.durable_jobs) in
    let (most, exact) = length-take (clamped 100 limit) sorted in
    (
      most,
      elim exact [
        | inl e ↦ inl (e ∙ length-sort before_job (keep (is_due_job scope at) tables.durable_jobs))
        | inr e ↦ inr e
      ],
    )

-- More jobs are due later.
pub count-later :
    (scope : ContentScope) (at later : ℕ) (jobs : List DurableJob)
    → at ≤ later
    → count (is_due_job scope at) jobs ≤ count (is_due_job scope later) jobs
count-later scope at later [] order = omega arith
count-later scope at later (job ∷ jobs) order = elim (Bool-cases (is_due_job scope at job)) [
  | inl due ↦
      rw (due, is_due_job_later scope at later job order due)
        (omega (arith, count-later scope at later jobs order))
  | inr waits ↦ rw waits (ground (arith, count-later scope at later jobs order))
]
