-- ===== src/Content/Backlog.antt =====
-- How claims of durable jobs work through those that are due.
use grid_story.Prelude.{
  ℕ, suc, subst, subst, ◌≤◌, ◌<◌, String, List, [], ◌∷◌, string_eq, length, Result, ok, ◌>->◌,
  continue, ◌≡◌, refl, sym, ap, ◌∙◌, arith, inl, inr, ◌⊎◌,
}
use grid_story.Context.{ContentScope, scope_eq}
use grid_story.Content.{DurableJob, Store, Failure}
use grid_story.Content.Statements.{Operation, return}
use grid_story.Content.Queue.{count, is_due_job, due_jobs, claim_jobs}
use grid_story.Content.Due.{is_due_job_later}
use grid_story.Content.Selection.{Each}
use grid_story.Content.Claims.{mark_all, with_jobs, claim_jobs_runs, due_jobs-Member}
use grid_story.Content.Dues.{
  count-mark_all, fewer_due, length-due_jobs, clamped_bounds, count-later,
}
use grid_story.Content.Advance.{
  Pairs, Later, Reached, Later-refl, Later-trans, mark_all-Later, all_Reached,
}

-- A claim that a worker makes at an instant, with the end of its lease.
pub record Turn : Type 0 where
  pub worker : String
  pub limit : ℕ
  pub at : ℕ
  pub lease : ℕ

-- Claims one after the other.
unfoldable pub claim_turns : ContentScope → List Turn → Operation (Unit {0})
claim_turns scope [] = return tt
claim_turns scope (t ∷ turns) =
    claim_jobs scope t.worker t.limit t.at t.lease >-> λ jobs. claim_turns scope turns

-- The claim comes at one of the instants from `start` to `last`, and its lease ends after them.
abbrev pub IsWithin : ℕ → ℕ → Turn → Type 0
IsWithin start last t = (start ≤ t.at) × (t.at ≤ last) × (last < t.lease)

module _ (scope : ContentScope) (start last : ℕ) where
  after_turn : Turn → Store → Store
  after_turn t s =
      with_jobs s (
        mark_all t.worker t.at t.lease (due_jobs scope t.limit t.at s.tables) s.tables.durable_jobs)

  due_by : ℕ → Store → ℕ
  due_by instant s = count (is_due_job scope instant) s.tables.durable_jobs

  -- None was due at the start, or the claims that are left are enough for all that are due by the end.
  OnTrack : Store → ℕ → Type 0
  OnTrack s left = (due_by start s ≡ 0) ⊎ (due_by last s ≤ left)

  turn_progress :
      (t : Turn) (s : Store) (left : ℕ)
      → IsWithin start last t
      → OnTrack s (suc left)
      → OnTrack (after_turn t s) left
  unfolding OnTrack due_by after_turn
  turn_progress t s left (begun, not_over, held) track =
      let rows = due_jobs scope t.limit t.at s.tables in
      let jobs = s.tables.durable_jobs in
      let fewer_at_start =
        count-mark_all scope t.worker t.at start t.lease (omega (arith, begun, not_over, held)) rows
          jobs in
      let (least, most) = clamped_bounds 100 t.limit (omega arith) in
      let (few, exact) = length-due_jobs scope t.limit t.at s.tables in
      elim track [
        | inl none_due ↦ inl (omega (arith, none_due, fewer_at_start))
        | inr enough ↦
            elim (fewer_due scope t.worker t.at last t.lease held rows jobs (λ row m.
              let (stored, due) = due_jobs-Member scope t.limit t.at s.tables m in
              (stored, is_due_job_later scope t.at last row not_over due))) [
                | inl none_taken ↦
                    let none_due : count (is_due_job scope t.at) jobs ≡ 0 = elim exact [
                      | inl e ↦ sym e ∙ none_taken
                      | inr e ↦ omega (arith, e, none_taken, least)
                    ] in
                    inl (
                      omega
                        (arith, none_due, fewer_at_start, count-later scope start t.at jobs begun))
                | inr less ↦ inr (omega (arith, less, enough))
              ]
      ]

  claim_turns_runs :
      (t : Turn) (turns : List Turn) (s : Store)
      → claim_turns scope (t ∷ turns) s ≡ claim_turns scope turns (after_turn t s)
  unfolding claim_turns ◌>->◌ after_turn
  claim_turns_runs t turns s =
      ap
        (λ (p : Result Failure (List DurableJob) × Store).
          continue (λ jobs. claim_turns scope turns) p.0 p.1)
        (claim_jobs_runs scope t.worker t.limit t.at t.lease s)

  abbrev Done : Store → Result Failure (Unit {0}) × Store → Type 0
  Done s final =
      (final.0 ≡ ok tt)
      × (count (is_due_job scope start) final.1.tables.durable_jobs ≡ 0)
      × Pairs (Later last) s.tables.durable_jobs final.1.tables.durable_jobs

  claim_turns-Done :
      (turns : List Turn) (s : Store)
      → Each (IsWithin start last) turns
      → start ≤ last
      → OnTrack s (length turns)
      → Done s (claim_turns scope turns s)
  unfolding claim_turns return OnTrack due_by after_turn
  claim_turns-Done [] s within order track = (
    refl,
    elim track [
      | inl none_due ↦ none_due
      | inr few ↦ omega (arith, few, count-later scope start last s.tables.durable_jobs order)
    ],
    Later-refl last s.tables.durable_jobs,
  )
  claim_turns-Done (t ∷ turns) s (one, rest) order track =
      let next = after_turn t s in
      let (returned, none_left, later) =
        claim_turns-Done turns next rest order (turn_progress t s (length turns) one track) in
      let jobs = s.tables.durable_jobs in
      subst (Done s) (sym (claim_turns_runs t turns s)) (
        returned,
        none_left,
        Later-trans last jobs next.tables.durable_jobs
            (claim_turns scope turns next).1.tables.durable_jobs
            (mark_all-Later last t.worker t.at t.lease (due_jobs scope t.limit t.at s.tables) jobs
              one.2)
            later,
      )

  -- Claims by any workers at any instants from `start` to `last`, which is not before it, with leases
  -- that end after `last` and at least as many claims as jobs of the scope are due by `last`, all
  -- return and reach every job that was due at `start`. In the store that they leave, job by job, a
  -- job has been claimed: it is being processed by a worker whose lease ends after `last`, it has had
  -- more attempts than before, its last error is cleared and the instant of its update set, and
  -- nothing else of it has changed; or it was not due at `start` and is what it was.
  pub claim_turns_reaches_all :
      (turns : List Turn) (s : Store)
      → start ≤ last
      → Each (IsWithin start last) turns
      → count (is_due_job scope last) s.tables.durable_jobs ≤ length turns
      → let final = claim_turns scope turns s in
        (final.0 ≡ ok tt)
        × Pairs (Reached scope start last) s.tables.durable_jobs final.1.tables.durable_jobs
  unfolding OnTrack due_by
  claim_turns_reaches_all turns s order within enough =
      let (returned, none_left, later) = claim_turns-Done turns s within order (inr enough) in
      (
        returned,
        all_Reached scope start last s.tables.durable_jobs
            (claim_turns scope turns s).1.tables.durable_jobs none_left later,
      )
