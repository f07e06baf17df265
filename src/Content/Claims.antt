-- ===== src/Content/Claims.antt =====
-- What a claim of durable jobs returns, and what it leaves.
use grid_story.Prelude.{
  ℕ, zero, suc, ◌<◌, String, Bool, true, false, not, ◌||◌, some, List, [], ◌∷◌, ◌==◌, string_eq,
  nat_eq, if◌then◌else◌, map, any, all, Result, ok, ◌>->◌, continue, ◌≡◌, refl, sym, ap, ◌∙◌, subst,
  arith, Bool-cases, inl, inr, ◌⊎◌, Member, here, there, Member-cons, not-Member-nil, keep-Member,
  sort-Member, Member-map, all-of_Member, ==_comm,
}
use grid_story.Context.{ContentScope, scope_eq}
use grid_story.Content.{DurableJob, Store, Tables, Failure, processing}
use grid_story.Content.Statements.{query, return, write, transaction, end_transaction}
use grid_story.Content.Queue.{
  take, clamped, set_jobs, is_due_job, before_job, due_jobs, claimed_job, mark_job, mark_jobs,
  claim_jobs,
}

-- The updates of the loop of `claimJobs` one after the other.
abbrev pub mark_all : String → ℕ → ℕ → List DurableJob → List DurableJob → List DurableJob
mark_all worker at lease [] jobs = jobs
mark_all worker at lease (row ∷ rows) jobs =
    mark_all worker at lease rows (mark_job worker at lease row jobs)

abbrev pub with_jobs : Store → List DurableJob → Store
with_jobs s jobs = record s { tables = set_jobs jobs s.tables }

mark_jobs_runs :
    (worker : String) (at lease : ℕ) (rows : List DurableJob) (s : Store)
    → ◌≡◌ {A = Result Failure (Unit {0}) × Store}
        (mark_jobs worker at lease rows s)
        (ok tt, with_jobs s (mark_all worker at lease rows s.tables.durable_jobs))
unfolding mark_jobs ◌>->◌ write return
mark_jobs_runs worker at lease [] s = refl
mark_jobs_runs worker at lease (row ∷ rows) s =
    mark_jobs_runs worker at lease rows
      (with_jobs s (mark_job worker at lease row s.tables.durable_jobs))

-- A claim always returns: the due jobs, marked, up to its limit.
pub claim_jobs_runs :
    (scope : ContentScope) (worker : String) (limit at lease : ℕ) (s : Store)
    → let rows = due_jobs scope limit at s.tables in
      ◌≡◌ {A = Result Failure (List DurableJob) × Store}
        (claim_jobs scope worker limit at lease s)
        (
          ok (map (claimed_job worker at lease) rows),
          with_jobs s (mark_all worker at lease rows s.tables.durable_jobs),
        )
unfolding claim_jobs transaction query ◌>->◌ return
claim_jobs_runs scope worker limit at lease s =
    let rows = due_jobs scope limit at s.tables in
    ap
      (λ (p : Result Failure (Unit {0}) × Store).
        let next : Result Failure (List DurableJob) × Store =
          continue (λ marked. return (map (claimed_job worker at lease) rows)) p.0 p.1 in
        end_transaction s.tables next.0 next.1)
      (mark_jobs_runs worker at lease rows s)

Member-take {ℓ} : {A : Type ℓ} (n : ℕ) (xs : List A) {a : A} → Member a (take n xs) → Member a xs
Member-take zero xs m = absurd (not-Member-nil m)
Member-take (suc n) [] m = m
Member-take (suc n) (x ∷ xs) m = elim (Member-cons m) [
  | inl e ↦ here e
  | inr k ↦ there (Member-take n xs k)
]

-- The jobs that a claim finds were due.
pub due_jobs-Member :
    (scope : ContentScope) (limit at : ℕ) (tables : Tables) {job : DurableJob}
    → Member job (due_jobs scope limit at tables)
    → Member job tables.durable_jobs × (is_due_job scope at job ≡ true)
unfolding due_jobs
due_jobs-Member scope limit at tables m =
    keep-Member (is_due_job scope at) tables.durable_jobs
      (sort-Member before_job _ (Member-take (clamped 100 limit) _ m))

abbrev pub has_id : List DurableJob → String → Bool
has_id jobs id = any (λ job. job.id == id) jobs

-- The job is held until the lease ends.
abbrev pub IsHeld : ℕ → DurableJob → Type 0
IsHeld lease job = (job.state ≡ processing) × (job.lease_expires_at ≡ some lease)

-- A job after the marking is held, or it is an old one that was not marked.
marked_or_old :
    (worker : String) (at lease : ℕ) (rows jobs : List DurableJob) {job : DurableJob}
    → Member job (mark_all worker at lease rows jobs)
    → IsHeld lease job ⊎ (Member job jobs × (has_id rows job.id ≡ false))
marked_or_old worker at lease [] jobs m = inr (m, refl)
marked_or_old worker at lease (row ∷ rows) jobs {job} m =
    elim (marked_or_old worker at lease rows (mark_job worker at lease row jobs) m) [
      | inl held ↦ inl held
      | inr (k, absent) ↦
          let (old, n, e) =
            Member-map (λ j. if j.id == row.id then claimed_job worker at lease j else j) jobs k in
          elim (Bool-cases (old.id == row.id)) [
            | inl t ↦
                let is_it : job ≡ claimed_job worker at lease old = e ∙ rw t refl in
                inl (
                  ap (λ (j : DurableJob). j.state) is_it,
                  ap (λ (j : DurableJob). j.lease_expires_at) is_it,
                )
            | inr t ↦
                let is_it : job ≡ old = e ∙ rw t refl in
                let other : (row.id == job.id) ≡ false =
                  ==_comm row.id job.id ∙ ap (λ (j : DurableJob). j.id == row.id) is_it ∙ t in
                inr (subst (λ j. Member j jobs) (sym is_it) n, rw (other) absent)
          ]
    ]

-- A job that is held past an instant is not due then.
pub held_not_due :
    (scope : ContentScope) (at lease : ℕ) (job : DurableJob)
    → at < lease
    → IsHeld lease job
    → is_due_job scope at job ≡ false
held_not_due scope at lease job early (state, until) = rw (state, until) (ground (arith))

-- No job of one batch is in the other.
abbrev pub AreApart : List DurableJob → List DurableJob → Type 0
AreApart jobs others = all (λ job. not (has_id jobs job.id)) others ≡ true

has_id-map :
    (worker : String) (at lease : ℕ) (rows : List DurableJob) (id : String)
    → has_id (map (claimed_job worker at lease) rows) id ≡ has_id rows id
has_id-map worker at lease [] id = refl
has_id-map worker at lease (row ∷ rows) id =
    ap (λ b. (row.id == id) || b) (has_id-map worker at lease rows id)

-- What is due after the marking was not marked.
unmarked :
    (scope : ContentScope) (worker : String) (at later lease : ℕ) (rows jobs : List DurableJob)
    (job : DurableJob)
    → later < lease
    → Member job (mark_all worker at lease rows jobs)
    → is_due_job scope later job ≡ true
    → has_id rows job.id ≡ false
unmarked scope worker at later lease rows jobs job early m due =
    elim (marked_or_old worker at lease rows jobs m) [
      | inl held ↦ cc (sym due ∙ held_not_due scope later lease job early held)
      | inr (old, absent) ↦ absent
    ]

-- Two claims of the jobs of a scope, one right after the other, by whatever workers: both return,
-- and as long as the second one comes before the lease of the first ends, they share no job.
pub claim_jobs_exclusive :
    (scope : ContentScope) (worker other : String)
    (limit other_limit at later lease other_lease : ℕ) (s : Store)
    → later < lease
    → let first = claim_jobs scope worker limit at lease s in
      let second = claim_jobs scope other other_limit later other_lease first.1 in
      (jobs others : List DurableJob) × (first.0 ≡ ok jobs)
      × (second.0 ≡ ok others)
      × AreApart jobs others
claim_jobs_exclusive scope worker other limit other_limit at later lease other_lease s early =
    let rows = due_jobs scope limit at s.tables in
    let ran = claim_jobs_runs scope worker limit at lease s in
    let left : Store = (claim_jobs scope worker limit at lease s).1 in
    let found = due_jobs scope other_limit later left.tables in
    let again = claim_jobs_runs scope other other_limit later other_lease left in
    let jobs_left : left.tables.durable_jobs ≡ mark_all worker at lease rows s.tables.durable_jobs =
      ap (λ (p : Result Failure (List DurableJob) × Store). p.1.tables.durable_jobs) ran in
    (
      map (claimed_job worker at lease) rows,
      map (claimed_job other later other_lease) found,
      ap (λ (p : Result Failure (List DurableJob) × Store). p.0) ran,
      ap (λ (p : Result Failure (List DurableJob) × Store). p.0) again,
      all-of_Member _ _ λ job m.
          let (row, k, e) = Member-map (claimed_job other later other_lease) found m in
          let (held, due) = due_jobs-Member scope other_limit later left.tables k in
          let absent : has_id rows row.id ≡ false =
            unmarked scope worker at later lease rows s.tables.durable_jobs row early
              (subst (λ js. Member row js) jobs_left held) due in
          let same : job.id ≡ row.id = ap (λ (j : DurableJob). j.id) e in
          ap not (
            ap (has_id (map (claimed_job worker at lease) rows)) same
            ∙ has_id-map worker at lease rows row.id
            ∙ absent),
    )
