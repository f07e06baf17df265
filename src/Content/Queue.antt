-- ===== src/Content/Queue.antt =====
-- packages/core/src/sqlite-repository.ts: the outbox and the durable jobs, which workers claim with a
-- lease, complete, and give back.
use grid_story.Prelude.{
  ℕ, zero, suc, ◌+◌, String, Bool, true, false, not, ◌&&◌, ◌||◌, Option, none, some, List, [], ◌∷◌,
  ◌==◌, string_eq, nat_eq, option_eq, leb, ltb, if◌then◌else◌, find, keep, map, sort, length, any,
  Result, throw_if, or_throw, ◌>->◌,
}
use grid_story.Errors.{conflict_error}
use grid_story.Context.{ContentScope, scope_eq}
use grid_story.Routing.Content.{Fields}
use grid_story.Content.{
  Failure, plain, known, WorkState, pending, processing, succeeded, dead, OutboxEvent, DurableJob,
  Tables,
}
use grid_story.Content.Statements.{
  Engine, Operation, unique, update_where, query, check, return, update, transaction, now, fresh_id,
}
use grid_story.Content.Repository.{or_ignore}
use grid_story.Content.Reads.{before_text}

abbrev pub is_pending : WorkState → Bool
is_pending pending = true
is_pending _ = false

abbrev pub is_processing : WorkState → Bool
is_processing processing = true
is_processing _ = false

-- `column <= ?`, which fails on NULL.
abbrev pub is_past : Option ℕ → ℕ → Bool
is_past none at = false
is_past (some instant) at = leb instant at

-- `LIMIT ?`.
abbrev pub take {ℓ} : {A : Type ℓ} → ℕ → List A → List A
take zero xs = []
take (suc n) [] = []
take (suc n) (x ∷ xs) = x ∷ take n xs

-- `Math.max(1, Math.min(limit, most))`.
abbrev pub clamped : ℕ → ℕ → ℕ
clamped most limit =
    let least = if leb limit most then limit else most in if leb 1 least then least else 1

abbrev lease_lost : String → Failure
lease_lost message = known (conflict_error message)

-- The rows of an update that is to change exactly one of them.
abbrev pub count {ℓ} : {A : Type ℓ} → (A → Bool) → List A → ℕ
count test rows = length (keep test rows)

abbrev pub set_jobs : List DurableJob → Tables → Tables
set_jobs jobs tables = record tables { durable_jobs = jobs }

abbrev pub set_events : List OutboxEvent → Tables → Tables
set_events events tables = record tables { outbox_events = events }

-- The condition of `claimJobs`.
abbrev pub is_due_job : ContentScope → ℕ → DurableJob → Bool
is_due_job scope at job =
    (job.scope == scope)
    && ((is_pending job.state && leb job.run_at at)
        || (is_processing job.state && is_past job.lease_expires_at at))

-- `ORDER BY run_at ASC, created_at ASC, id ASC`.
abbrev pub before_job : DurableJob → DurableJob → Bool
before_job a b =
    if a.run_at == b.run_at
    then if a.created_at == b.created_at
      then before_text a.id b.id
      else ltb a.created_at b.created_at
    else ltb a.run_at b.run_at

unfoldable pub due_jobs : ContentScope → ℕ → ℕ → Tables → List DurableJob
due_jobs scope limit at tables =
    take (clamped 100 limit) (sort before_job (keep (is_due_job scope at) tables.durable_jobs))

abbrev pub claimed_job : String → ℕ → ℕ → DurableJob → DurableJob
claimed_job worker at lease job = record job {
  state = processing;
  attempts = job.attempts + 1;
  lease_owner = some worker;
  lease_expires_at = some lease;
  last_error = none;
  updated_at = at;
}

-- One update of the loop of `claimJobs`.
abbrev pub mark_job : String → ℕ → ℕ → DurableJob → List DurableJob → List DurableJob
mark_job worker at lease row = update_where (λ job. job.id == row.id) (claimed_job worker at lease)

unfoldable pub mark_jobs : String → ℕ → ℕ → List DurableJob → Operation (Unit {0})
mark_jobs worker at lease [] = return tt
mark_jobs worker at lease (row ∷ rows) =
    update (λ tables. set_jobs (mark_job worker at lease row tables.durable_jobs) tables)
    >-> λ done. mark_jobs worker at lease rows

unfoldable pub claim_jobs : ContentScope → String → ℕ → ℕ → ℕ → Operation (List DurableJob)
claim_jobs scope worker limit at lease = transaction (
    query (due_jobs scope limit at) >-> λ rows.
    mark_jobs worker at lease rows >-> λ marked. return (map (claimed_job worker at lease) rows))

-- The worker holds the lease of the job.
abbrev pub owns_job : ContentScope → String → String → DurableJob → Bool
owns_job scope id worker job =
    (job.scope == scope)
    && ((job.id == id) && (is_processing job.state && (job.lease_owner == some worker)))

-- `UPDATE durable_jobs SET …`, which must change one job.
unfoldable pub update_job :
    ContentScope → String → String → (DurableJob → DurableJob) → Operation (Unit {0})
update_job scope id worker change =
    query (λ tables. count (owns_job scope id worker) tables.durable_jobs) >-> λ changes.
    update (λ tables.
      set_jobs (update_where (owns_job scope id worker) change tables.durable_jobs) tables)
    >-> λ done.
        check (throw_if (not (changes == 1)) (lease_lost "Durable job lease is no longer owned."))

unfoldable pub complete_job : ContentScope → String → String → ℕ → Fields → Operation (Unit {0})
complete_job scope id worker completed_at result = update_job scope id worker λ job. record job {
  state = succeeded;
  result = some result;
  completed_at = some completed_at;
  updated_at = completed_at;
  lease_owner = none;
  lease_expires_at = none;
}

-- `dead ? 'dead' : 'pending'`.
abbrev pub given_back : Bool → WorkState
given_back true = dead
given_back false = pending

unfoldable pub fail_job :
    Engine → ContentScope → String → String → ℕ → String → Bool → Operation (Unit {0})
fail_job engine scope id worker run_at error is_dead = now engine >-> λ at.
    update_job scope id worker λ job. record job {
      state = given_back is_dead;
      run_at = run_at;
      last_error = some error;
      updated_at = at;
      lease_owner = none;
      lease_expires_at = none;
    }

abbrev pub has_key_of : ContentScope → String → DurableJob → Bool
has_key_of scope key job = (job.scope == scope) && (job.idempotency_key == key)

abbrev pub insert_job : DurableJob → Tables → Result Failure Tables
insert_job row tables =
    unique
      (any (λ job. (job.id == row.id) || has_key_of row.scope row.idempotency_key job)
        tables.durable_jobs)
      "durable_jobs" (set_jobs (row ∷ tables.durable_jobs) tables)

unfoldable pub enqueue_job :
    Engine → ContentScope → String → String → Fields → ℕ → ℕ → Operation DurableJob
enqueue_job engine scope type idempotency_key payload run_at max_attempts =
    fresh_id engine >-> λ id. now engine >-> λ at.
    update (λ tables.
      or_ignore
        (insert_job
          (record {
            id = id;
            scope = scope;
            type = type;
            idempotency_key = idempotency_key;
            payload = payload;
            state = pending;
            attempts = 0;
            max_attempts = max_attempts;
            run_at = run_at;
            lease_owner = none;
            lease_expires_at = none;
            last_error = none;
            result = none;
            created_at = at;
            updated_at = at;
            completed_at = none;
          })
          tables)
        tables)
    >-> λ inserted.
        query (λ tables. find (has_key_of scope idempotency_key) tables.durable_jobs) >-> λ row.
        check (or_throw row (plain "Enqueued durable job could not be read back."))

-- `ORDER BY created_at DESC, id DESC LIMIT ?`.
abbrev pub newer_job : DurableJob → DurableJob → Bool
newer_job a b =
    if a.created_at == b.created_at then before_text b.id a.id else ltb b.created_at a.created_at

unfoldable pub list_jobs : ContentScope → ℕ → Tables → List DurableJob
list_jobs scope limit tables =
    take (clamped 1000 limit)
      (sort newer_job (keep (λ job. job.scope == scope) tables.durable_jobs))

abbrev pub get_job : ContentScope → String → Tables → Option DurableJob
get_job scope id tables = find (λ job. (job.scope == scope) && (job.id == id)) tables.durable_jobs
