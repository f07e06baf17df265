-- ===== src/Content/Statements.antt =====
-- packages/core/src/sqlite-repository.ts: its SQL statements on the tables, `#transaction`,
-- `#entryRow`, `#audit` and `#emitOutbox`. Rows are inserted only for an entry that was just read or
-- inserted, so the foreign keys of an insertion hold; what is checked is that its keys are new.
pub mod Returns
pub mod Rollback
pub mod Sequences
pub mod Progress
use text.Mathlib.Text.{is_lt}
use Prim.Native.String as S
use grid_story.Prelude.{
  ℕ, suc, ◌+◌, String, Bool, true, false, not, ◌&&◌, ◌||◌, Option, none, some, List, [], ◌∷◌, ◌==◌,
  string_eq, nat_eq, ltb, if◌then◌else◌, and_then, find, any, keep, map, sort, Result, ok, err,
  ◌>>=◌, Step, ◌>->◌,
}
use grid_story.Canonical.{Json, string}
use grid_story.Errors.{Outcome}
use grid_story.Context.{ContentScope, ContentPerspective, draft, published, scope_eq}
use grid_story.Tenancy.{content_event_cache_tags}
use grid_story.Routing.Content.{Fields}
use grid_story.Releases.Store.{Actor}
use grid_story.Content.{
  Failure, plain, known, Entry, Revision, AuditAction, AuditRow, TranslationVariant, OutboxEvent,
  pending, DurableJob, Tables, Store, EntryRow, if_filled,
}
use grid_story.Content.Audit.{audit_event_hash}

-- What the repository takes from its host: the clock, the ids, the checksum and the ISO texts.
pub record Engine : Type 0 where
  pub time : ℕ → ℕ
  pub create_id : ℕ → String
  pub logical_checksum : Json → String
  pub iso : ℕ → String

abbrev pub Operation : Type 0 → Type 0
Operation A = Step Store Failure A

-- `error instanceof …`, for what only throws errors of the services.
abbrev pub as_known {ℓ} : {A : Type ℓ} → Outcome A → Result Failure A
as_known (ok a) = ok a
as_known (err e) = err (known e)

-- `WHERE organization_id = ? AND … AND id = ?`.
abbrev pub is_entry : ContentScope → String → Entry → Bool
is_entry scope id entry = (entry.scope == scope) && (entry.id == id)

abbrev pub find_entry : ContentScope → String → Tables → Option Entry
find_entry scope id tables = find (is_entry scope id) tables.entries

abbrev pub find_revision : String → Tables → Option Revision
find_revision id tables = find (λ r. r.id == id) tables.revisions

-- `#revisionJoin`.
abbrev pub revision_join : ContentPerspective → Entry → Option String
revision_join draft entry = entry.current_draft_revision_id
revision_join published entry = entry.published_revision_id

abbrev pub join_revision : ContentPerspective → Tables → Entry → Option EntryRow
join_revision perspective tables entry = and_then (revision_join perspective entry) λ id.
    and_then (find_revision id tables)
      λ revision. some (record { entry = entry; fields = revision.fields })

-- `#entryRow`.
unfoldable pub entry_row : ContentScope → String → ContentPerspective → Tables → Option EntryRow
entry_row scope id perspective tables =
    and_then (find_entry scope id tables) (join_revision perspective tables)

-- The revision of an entry, with the entry.
unfoldable pub revision_row : ContentScope → String → String → Tables → Option (Entry × Revision)
revision_row scope id revision_id tables = and_then (find_entry scope id tables) λ entry.
    and_then (find (λ r. (r.entry_id == id) && (r.id == revision_id)) tables.revisions)
      λ revision. some (entry, revision)

-- `SELECT COALESCE(MAX(sequence), 0) … WHERE entry_id = ?`.
abbrev pub max_sequence : String → List Revision → ℕ
max_sequence id [] = 0
max_sequence id (r ∷ rs) =
    let rest = max_sequence id rs in
    if (r.entry_id == id) && ltb rest r.sequence then r.sequence else rest

-- `ORDER BY sequence DESC LIMIT 1`.
abbrev pub later_of : AuditRow → Option AuditRow → AuditRow
later_of row none = row
later_of row (some other) = if ltb row.sequence other.sequence then other else row

abbrev pub last_audit : String → List AuditRow → Option AuditRow
last_audit id [] = none
last_audit id (row ∷ rows) =
    let rest = last_audit id rows in if row.entry_id == id then some (later_of row rest) else rest

-- `previous?.sequence ?? 0`.
abbrev pub sequence_of : Option AuditRow → ℕ
sequence_of none = 0
sequence_of (some row) = row.sequence

abbrev pub unique : Bool → String → Tables → Result Failure Tables
unique taken columns tables =
    if taken then err (plain (S.◌++◌ "UNIQUE constraint failed: " columns)) else ok tables

-- `INSERT INTO entries`.
unfoldable pub insert_entry : Entry → Tables → Result Failure Tables
insert_entry row tables =
    unique (any (λ e. e.id == row.id) tables.entries) "entries.id"
      (record tables { entries = row ∷ tables.entries })

-- `INSERT INTO translation_variants`.
unfoldable pub insert_variant : TranslationVariant → Tables → Result Failure Tables
insert_variant row tables =
    unique
      (any
        (λ v.
          (v.entry_id == row.entry_id)
          || ((v.scope == row.scope) && (v.translation_group_id == row.translation_group_id)))
        tables.translation_variants)
      "translation_variants"
      (record tables { translation_variants = row ∷ tables.translation_variants })

-- `INSERT INTO revisions`.
unfoldable pub insert_revision : Revision → Tables → Result Failure Tables
insert_revision row tables =
    unique
      (any (λ r. (r.id == row.id) || ((r.entry_id == row.entry_id) && (r.sequence == row.sequence)))
        tables.revisions)
      "revisions" (record tables { revisions = row ∷ tables.revisions })

-- `INSERT INTO audit_events`.
unfoldable pub insert_audit : AuditRow → Tables → Result Failure Tables
insert_audit row tables =
    unique
      (any (λ a. (a.id == row.id) || ((a.entry_id == row.entry_id) && (a.sequence == row.sequence)))
        tables.audit_events)
      "audit_events" (record tables { audit_events = row ∷ tables.audit_events })

-- `INSERT INTO outbox_events`.
unfoldable pub insert_outbox : OutboxEvent → Tables → Result Failure Tables
insert_outbox row tables =
    unique (any (λ o. o.id == row.id) tables.outbox_events) "outbox_events.id"
      (record tables { outbox_events = row ∷ tables.outbox_events })

abbrev pub update_where {ℓ} : {A : Type ℓ} → (A → Bool) → (A → A) → List A → List A
update_where test change = map (λ row. if test row then change row else row)

-- `UPDATE entries SET current_draft_revision_id = ? WHERE id = ?`, right after the insertion.
abbrev pub set_first_draft : String → String → Tables → Tables
set_first_draft id revision_id tables = record tables {
  entries =
      update_where (λ e. e.id == id)
        (λ e. record e { current_draft_revision_id = some revision_id }) tables.entries;
}

-- `UPDATE entries SET current_draft_revision_id = ?, updated_at = ? WHERE …`.
abbrev pub set_draft : ContentScope → String → String → ℕ → Tables → Tables
set_draft scope id revision_id at tables = record tables {
  entries =
      update_where (is_entry scope id)
        (λ e. record e { current_draft_revision_id = some revision_id; updated_at = at })
        tables.entries;
}

-- `UPDATE entries SET published_revision_id = ?, updated_at = ? WHERE …`.
abbrev pub set_published : ContentScope → String → String → ℕ → Tables → Tables
set_published scope id revision_id at tables = record tables {
  entries =
      update_where (is_entry scope id)
        (λ e. record e { published_revision_id = some revision_id; updated_at = at })
        tables.entries;
}

-- What follows is closed, as `>->` is.
unfoldable pub query : {A : Type 0} → (Tables → A) → Operation A
query read store = (ok (read store.tables), store)

abbrev pub settle : Store → Result Failure Tables → Result Failure (Unit {0}) × Store
settle store (ok tables) = (ok tt, record store { tables = tables })
settle store (err e) = (err e, store)

unfoldable pub check : {A : Type 0} → Result Failure A → Operation A
check outcome store = (outcome, store)

unfoldable pub return : {A : Type 0} → A → Operation A
return a store = (ok a, store)

-- A statement that fails or leaves other tables.
unfoldable pub write : (Tables → Result Failure Tables) → Operation (Unit {0})
write statement store = settle store (statement store.tables)

abbrev pub update : (Tables → Tables) → Operation (Unit {0})
update change = write (λ tables. ok (change tables))

abbrev pub end_transaction :
    {A : Type 0} → Tables → Result Failure A → Store → Result Failure A × Store
end_transaction before (ok a) store = (ok a, store)
end_transaction before (err e) store = (err e, record store { tables = before })

-- `#transaction`: an error rolls the tables back.
unfoldable pub transaction : {A : Type 0} → Operation A → Operation A
transaction work store = end_transaction store.tables (work store).0 (work store).1

-- The row that `#emitOutbox` inserts.
abbrev pub pending_event :
    ContentScope
    → AuditAction
    → String
    → String
    → String
    → Fields
    → ℕ
    → String
    → List String
    → OutboxEvent
pending_event scope type content_type entry_id revision_id fields occurred_at id tags = record {
  id = id;
  scope = scope;
  type = type;
  aggregate_id = entry_id;
  revision_id = revision_id;
  content_type = content_type;
  fields = fields;
  cache_tags = tags;
  occurred_at = occurred_at;
  state = pending;
  attempts = 0;
  available_at = occurred_at;
  lease_owner = none;
  lease_expires_at = none;
  processed_at = none;
  last_error = none;
}

module _ (engine : Engine) where
  -- `this.#now()`.
  unfoldable pub now : Operation ℕ
  now store = (ok (engine.time store.readings), record store { readings = suc store.readings })

  -- `this.#createId()`.
  unfoldable pub fresh_id : Operation String
  fresh_id store = (ok (engine.create_id store.drawn), record store { drawn = suc store.drawn })

  -- The row that `#audit` inserts after the last event of the entry.
  unfoldable pub audit_row :
      ContentScope → String → Actor → AuditAction → String → ℕ → String → Option AuditRow → AuditRow
  unfolding audit_event_hash
  audit_row scope entry_id actor action revision_id occurred_at id previous =
      let previous_hash = and_then previous (λ row. some row.event_hash) in
      let sequence = sequence_of previous + 1 in
      record {
        id = id;
        tenant_id = scope.tenant_id;
        entry_id = entry_id;
        sequence = sequence;
        actor_id = actor.id;
        action = action;
        revision_id = revision_id;
        occurred_at = occurred_at;
        previous_hash = previous_hash;
        event_hash = audit_event_hash engine.logical_checksum engine.iso (record {
          id = id;
          scope = scope;
          entry_id = entry_id;
          sequence = sequence;
          actor_id = actor.id;
          action = action;
          revision_id = revision_id;
          occurred_at = occurred_at;
          previous_hash = if_filled previous_hash;
        });
      }

  -- `#audit`.
  unfoldable pub audit :
      ContentScope → String → Actor → AuditAction → String → ℕ → Operation (Unit {0})
  unfolding audit_row
  audit scope entry_id actor action revision_id occurred_at = fresh_id >-> λ id.
      query (λ tables. last_audit entry_id tables.audit_events) >-> λ previous.
      write
        (insert_audit (audit_row scope entry_id actor action revision_id occurred_at id previous))

  -- `#emitOutbox`.
  unfoldable pub emit_outbox :
      ContentScope → AuditAction → String → String → String → Fields → ℕ → Operation (Unit {0})
  emit_outbox scope type content_type entry_id revision_id fields occurred_at = fresh_id >-> λ id.
      check (as_known (content_event_cache_tags scope content_type entry_id revision_id))
      >-> λ tags. write (
          insert_outbox
            (pending_event scope type content_type entry_id revision_id fields occurred_at id tags))
