-- ===== src/Content.antt =====
-- packages/core/src/sqlite-repository.ts and packages/core/src/types.ts: the tables that hold the
-- content, and the rows of their queries. The JSON of a column is the value that it stands for, and
-- an instant is its milliseconds since the epoch.
pub mod Audit
pub mod Statements
pub mod Reads
pub mod Repository
pub mod Queue
pub mod Outbox
pub mod Claims
pub mod Due
pub mod Selection
pub mod Dues
pub mod Advance
pub mod Backlog
pub mod Progress
pub mod Service
pub mod Rows
pub mod Commands
pub mod Shelves
pub mod Integrity
pub mod Rollback
pub mod Soundness
pub mod Refinement
pub mod Restoration
mod Sample
mod Page
mod Tests
use grid_story.Prelude.{
  ℕ, String, Bool, true, false, ◌&&◌, ◌||◌, Option, none, some, List, [], ◌∷◌, ◌==◌, string_eq, Eq,
  ◌≡◌, ◌↔◌, refl, if◌then◌else◌, option_eq, and_true, ==-eq, ==_refl,
}
use grid_story.Errors.{GridStoryError}
use grid_story.Context.{ContentScope}
use grid_story.Context.Text.{is_empty}
use grid_story.Routing.Content.{Fields}

-- `SchemaIssue`, of which only the message is read.
pub record Issue : Type 0 where
  pub message : String

-- A plain `Error`, an error of the services, or a `ContentValidationError` with its issues.
pub data Failure : Type 0 where
  plain : String → Failure
  known : GridStoryError → Failure
  invalid : List Issue → Failure

pub record Entry : Type 0 where
  pub id : String
  pub scope : ContentScope
  pub content_type : String
  pub current_draft_revision_id : Option String
  pub published_revision_id : Option String
  pub created_at : ℕ
  pub updated_at : ℕ

pub record Revision : Type 0 where
  pub id : String
  pub entry_id : String
  pub tenant_id : String
  pub sequence : ℕ
  pub base_revision_id : Option String
  pub actor_id : String
  pub fields : Fields
  pub created_at : ℕ

pub data AuditAction : Type 0 where
  created draft_updated published : AuditAction

-- `Omit<AuditEvent, 'eventHash'>`.
pub record AuditFields : Type 0 where
  pub id : String
  pub scope : ContentScope
  pub entry_id : String
  pub sequence : ℕ
  pub actor_id : String
  pub action : AuditAction
  pub revision_id : String
  pub occurred_at : ℕ
  pub previous_hash : Option String

pub record AuditEvent : Type 0 where
  pub event : AuditFields
  pub open event use *
  pub event_hash : String

pub record AuditRow : Type 0 where
  pub id : String
  pub tenant_id : String
  pub entry_id : String
  pub sequence : ℕ
  pub actor_id : String
  pub action : AuditAction
  pub revision_id : String
  pub occurred_at : ℕ
  pub previous_hash : Option String
  pub event_hash : String

pub record TranslationVariant : Type 0 where
  pub entry_id : String
  pub translation_group_id : String
  pub scope : ContentScope
  pub content_type : String

-- The states of an outbox event and of a job.
pub data WorkState : Type 0 where
  pending processing succeeded dead : WorkState

pub record OutboxEvent : Type 0 where
  pub id : String
  pub scope : ContentScope
  pub type : AuditAction
  pub aggregate_id : String
  pub revision_id : String
  pub content_type : String
  pub fields : Fields
  pub cache_tags : List String
  pub occurred_at : ℕ
  pub state : WorkState
  pub attempts : ℕ
  pub available_at : ℕ
  pub lease_owner : Option String
  pub lease_expires_at : Option ℕ
  pub processed_at : Option ℕ
  pub last_error : Option String

pub record DurableJob : Type 0 where
  pub id : String
  pub scope : ContentScope
  pub type : String
  pub idempotency_key : String
  pub payload : Fields
  pub state : WorkState
  pub attempts : ℕ
  pub max_attempts : ℕ
  pub run_at : ℕ
  pub lease_owner : Option String
  pub lease_expires_at : Option ℕ
  pub last_error : Option String
  pub result : Option Fields
  pub created_at : ℕ
  pub updated_at : ℕ
  pub completed_at : Option ℕ

pub record Tables : Type 0 where
  pub entries : List Entry
  pub revisions : List Revision
  pub audit_events : List AuditRow
  pub translation_variants : List TranslationVariant
  pub outbox_events : List OutboxEvent
  pub durable_jobs : List DurableJob

-- The database, how many ids were drawn, and how often the clock was read.
pub record Store : Type 0 where
  pub tables : Tables
  pub drawn : ℕ
  pub readings : ℕ

-- A row of a query that joins an entry with one of its revisions.
pub record EntryRow : Type 0 where
  pub entry : Entry
  pub fields : Fields

pub data ContentStatus : Type 0 where
  draft published changed : ContentStatus

pub record ContentEntry : Type 0 where
  pub id : String
  pub scope : ContentScope
  pub content_type : String
  pub status : ContentStatus
  pub draft_revision_id : Option String
  pub published_revision_id : Option String
  pub created_at : ℕ
  pub updated_at : ℕ
  pub fields : Fields

pub record ContentRevision : Type 0 where
  pub id : String
  pub entry_id : String
  pub tenant_id : String
  pub scope : ContentScope
  pub sequence : ℕ
  pub base_revision_id : Option String
  pub created_at : ℕ
  pub actor_id : String
  pub fields : Fields

unfoldable pub status_for : EntryRow → ContentStatus
status_for row = elim row.entry.published_revision_id [
  | none ↦ draft
  | some revision ↦
      if is_empty revision
      then draft
      else if some revision == row.entry.current_draft_revision_id
      then published
      else changed
]

unfoldable pub to_entry : EntryRow → ContentEntry
unfolding status_for
to_entry row = record {
  id = row.entry.id;
  scope = row.entry.scope;
  content_type = row.entry.content_type;
  status = status_for row;
  draft_revision_id = row.entry.current_draft_revision_id;
  published_revision_id = row.entry.published_revision_id;
  created_at = row.entry.created_at;
  updated_at = row.entry.updated_at;
  fields = row.fields;
}

abbrev pub to_revision : Entry → Revision → ContentRevision
to_revision entry row = record {
  id = row.id;
  entry_id = row.entry_id;
  tenant_id = row.tenant_id;
  scope = entry.scope;
  sequence = row.sequence;
  base_revision_id = row.base_revision_id;
  created_at = row.created_at;
  actor_id = row.actor_id;
  fields = row.fields;
}

-- `value ? { previousHash: value } : {}`.
abbrev pub if_filled : Option String → Option String
if_filled none = none
if_filled (some text) = if is_empty text then none else some text

abbrev pub to_audit_event : Entry → AuditRow → AuditEvent
to_audit_event entry row = record {
  event = record {
    id = row.id;
    scope = entry.scope;
    entry_id = row.entry_id;
    sequence = row.sequence;
    actor_id = row.actor_id;
    action = row.action;
    revision_id = row.revision_id;
    occurred_at = row.occurred_at;
    previous_hash = if_filled row.previous_hash;
  };
  event_hash = row.event_hash;
}
