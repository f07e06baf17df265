-- ===== src/Content/Due.antt =====
-- When a job is due, and what a claim makes of it, stated independently of the code.
use grid_story.Prelude.{
  ℕ, ◌≤◌, ◌+◌, String, Bool, true, false, ◌&&◌, ◌||◌, Option, some, none, ◌==◌, string_eq, leb, ◌≡◌,
  refl, ap, ◌∙◌, arith, inl, inr, ◌⊎◌, ◌↔◌, ==-eq, ==_refl, and_true,
}
use grid_story.Context.{ContentScope, scope_eq}
use grid_story.Content.{DurableJob, WorkState, pending, processing, succeeded, dead}
use grid_story.Content.Queue.{is_pending, is_processing, is_past, is_due_job}

-- A job of the scope waits and its time has come, or the lease on it has ended.
abbrev pub IsDue : ContentScope → ℕ → DurableJob → Type 0
IsDue scope at job =
    (job.scope ≡ scope)
    × (((job.state ≡ pending) × (job.run_at ≤ at))
        ⊎ ((job.state ≡ processing) × (end : ℕ) × (job.lease_expires_at ≡ some end) × (end ≤ at)))

-- The job `after` is the job `before` in the hands of the worker, until the lease ends.
abbrev pub IsClaimed : String → ℕ → ℕ → DurableJob → DurableJob → Type 0
IsClaimed worker at lease before after = after ≡ record before {
  state = processing;
  attempts = before.attempts + 1;
  lease_owner = some worker;
  lease_expires_at = some lease;
  last_error = none;
  updated_at = at;
}

pending-state : (state : WorkState) → is_pending state ≡ true → state ≡ pending
pending-state pending h = refl
pending-state processing h = cc
pending-state succeeded h = cc
pending-state dead h = cc

processing-state : (state : WorkState) → is_processing state ≡ true → state ≡ processing
processing-state pending h = cc
processing-state processing h = refl
processing-state succeeded h = cc
processing-state dead h = cc

past-end :
    (expires : Option ℕ) (at : ℕ)
    → is_past expires at ≡ true
    → (end : ℕ) × (expires ≡ some end) × (end ≤ at)
past-end none at h = cc
past-end (some end) at h = (end, refl, ground arith)

either : (a b : Bool) → (a || b) ≡ true → (a ≡ true) ⊎ (b ≡ true)
either true b h = inl refl
either false b h = inr h

pub is_due_job-IsDue :
    (scope : ContentScope) (at : ℕ) (job : DurableJob)
    → (is_due_job scope at job ≡ true) ↔ IsDue scope at job
is_due_job-IsDue scope at job = (to, from)
  where
    to : is_due_job scope at job ≡ true → IsDue scope at job
    to h =
        let (same, now_due) =
          and_true (job.scope == scope)
            ((is_pending job.state && leb job.run_at at)
              || (is_processing job.state && is_past job.lease_expires_at at))
            h in
        (
          ==-eq same,
          elim (either (is_pending job.state && leb job.run_at at)
              (is_processing job.state && is_past job.lease_expires_at at) now_due) [
                | inl waits ↦
                    let (p, early) = and_true (is_pending job.state) (leb job.run_at at) waits in
                    inl (pending-state job.state p, ground (arith, early))
                | inr ended ↦
                    let (p, past) =
                      and_true (is_processing job.state) (is_past job.lease_expires_at at) ended in
                    let (end, until, over) = past-end job.lease_expires_at at past in
                    inr (processing-state job.state p, end, until, over)
              ],
        )

    from : IsDue scope at job → is_due_job scope at job ≡ true
    from (same, inl (waits, early)) =
        let e = (ap (λ x. x == scope) same ∙ ==_refl scope) in rw (e, waits) (ground (arith, early))
    from (same, inr (ended, end, until, past)) =
        let e = (ap (λ x. x == scope) same ∙ ==_refl scope) in
        rw (e, ended, until) (ground (arith, past))

-- What is due stays due.
pub is_due_job_later :
    (scope : ContentScope) (at later : ℕ) (job : DurableJob)
    → at ≤ later
    → is_due_job scope at job ≡ true
    → is_due_job scope later job ≡ true
is_due_job_later scope at later job order due =
    let (same, now_due) = (is_due_job-IsDue scope at job).0 due in
    (is_due_job-IsDue scope later job).1 (
      same,
      elim now_due [
        | inl waits ↦ inl (waits.0, omega (arith, waits.1, order))
        | inr ended ↦
            let (state, end, until, past) = ended in
            inr (state, end, until, omega (arith, past, order))
      ],
    )
