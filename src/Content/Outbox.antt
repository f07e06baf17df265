-- ===== src/Content/Outbox.antt =====
-- packages/core/src/sqlite-repository.ts: the outbox, whose events workers claim as they do jobs.
use grid_story.Prelude.{
  ℕ, ◌+◌, String, Bool, not, ◌&&◌, ◌||◌, none, some, List, [], ◌∷◌, ◌==◌, string_eq, nat_eq,
  option_eq, leb, ltb, if◌then◌else◌, keep, map, sort, throw_if, ◌>->◌,
}
use grid_story.Errors.{conflict_error}
use grid_story.Context.{ContentScope, scope_eq}
use grid_story.Content.{known, processing, succeeded, OutboxEvent, Tables}
use grid_story.Content.Statements.{
  Operation, update_where, query, check, return, update, transaction,
}
use grid_story.Content.Reads.{before_text}
use grid_story.Content.Queue.{
  is_pending, is_processing, is_past, take, clamped, count, set_events, given_back,
}

-- The condition of `claimOutboxEvents`.
abbrev pub is_due_event : ContentScope → ℕ → OutboxEvent → Bool
is_due_event scope at event =
    (event.scope == scope)
    && ((is_pending event.state && leb event.available_at at)
        || (is_processing event.state && is_past event.lease_expires_at at))

-- `ORDER BY occurred_at ASC, id ASC`.
abbrev pub before_outbox : OutboxEvent → OutboxEvent → Bool
before_outbox a b =
    if a.occurred_at == b.occurred_at
    then before_text a.id b.id
    else ltb a.occurred_at b.occurred_at

unfoldable pub due_events : ContentScope → ℕ → ℕ → Tables → List OutboxEvent
due_events scope limit at tables =
    take (clamped 100 limit)
      (sort before_outbox (keep (is_due_event scope at) tables.outbox_events))

abbrev pub claimed_event : String → ℕ → OutboxEvent → OutboxEvent
claimed_event worker lease event = record event {
  state = processing;
  attempts = event.attempts + 1;
  lease_owner = some worker;
  lease_expires_at = some lease;
  last_error = none;
}

abbrev pub mark_event : String → ℕ → OutboxEvent → List OutboxEvent → List OutboxEvent
mark_event worker lease row =
    update_where (λ event. event.id == row.id) (claimed_event worker lease)

unfoldable pub mark_events : String → ℕ → List OutboxEvent → Operation (Unit {0})
mark_events worker lease [] = return tt
mark_events worker lease (row ∷ rows) =
    update (λ tables. set_events (mark_event worker lease row tables.outbox_events) tables)
    >-> λ done. mark_events worker lease rows

unfoldable pub claim_outbox_events :
    ContentScope → String → ℕ → ℕ → ℕ → Operation (List OutboxEvent)
claim_outbox_events scope worker limit at lease = transaction (
    query (due_events scope limit at) >-> λ rows.
    mark_events worker lease rows >-> λ marked. return (map (claimed_event worker lease) rows))

-- The worker holds the lease of the event.
abbrev pub owns_event : ContentScope → String → String → OutboxEvent → Bool
owns_event scope id worker event =
    (event.scope == scope)
    && ((event.id == id) && (is_processing event.state && (event.lease_owner == some worker)))

unfoldable pub update_event :
    ContentScope → String → String → (OutboxEvent → OutboxEvent) → Operation (Unit {0})
update_event scope id worker change =
    query (λ tables. count (owns_event scope id worker) tables.outbox_events) >-> λ changes.
    update (λ tables.
      set_events (update_where (owns_event scope id worker) change tables.outbox_events) tables)
    >-> λ done. check (
        throw_if (not (changes == 1))
          (known (conflict_error "Outbox event lease is no longer owned.")))

unfoldable pub complete_outbox_event : ContentScope → String → String → ℕ → Operation (Unit {0})
complete_outbox_event scope id worker completed_at = update_event scope id worker λ event.
    record event {
      state = succeeded;
      processed_at = some completed_at;
      lease_owner = none;
      lease_expires_at = none;
    }

unfoldable pub retry_outbox_event :
    ContentScope → String → String → ℕ → String → Bool → Operation (Unit {0})
retry_outbox_event scope id worker available_at error is_dead =
    update_event scope id worker λ event. record event {
      state = given_back is_dead;
      available_at = available_at;
      last_error = some error;
      lease_owner = none;
      lease_expires_at = none;
    }

-- `ORDER BY occurred_at DESC, id DESC LIMIT ?`.
abbrev pub newer_event : OutboxEvent → OutboxEvent → Bool
newer_event a b =
    if a.occurred_at == b.occurred_at
    then before_text b.id a.id
    else ltb b.occurred_at a.occurred_at

unfoldable pub list_outbox_events : ContentScope → ℕ → Tables → List OutboxEvent
list_outbox_events scope limit tables =
    take (clamped 1000 limit)
      (sort newer_event (keep (λ event. event.scope == scope) tables.outbox_events))
