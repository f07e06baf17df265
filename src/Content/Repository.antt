-- ===== src/Content/Repository.antt =====
-- packages/core/src/sqlite-repository.ts: the operations of `SqliteContentRepository` on entries,
-- their revisions, their audit events and their translation groups.
pub mod Commits
pub mod Creation
pub mod Joint
pub mod Returned
use text.Mathlib.Text.{is_lt}
use Prim.Native.String.{compare}
use grid_story.Prelude.{
  ℕ, suc, ◌+◌, String, Bool, true, false, not, ◌&&◌, ◌||◌, Option, none, some, List, [], ◌∷◌, ◌==◌,
  string_eq, nat_eq, option_eq, ltb, if◌then◌else◌, and_then, or_else, is_some, any, keep, map,
  find, sort, gather, contains, lookup, push_if, ◌>>◌, Result, ok, err, ◌>>=◌, throw_if, or_throw,
  map_each, Step, ◌>->◌,
}
use grid_story.Canonical.{Json, string}
use grid_story.Context.Text.{is_empty}
use grid_story.Errors.{not_found_error, conflict_error}
use grid_story.Context.{ContentScope, ContentPerspective, draft, published, scope_eq}
use grid_story.Routing.Content.{Fields}
use grid_story.Releases.Store.{Actor}
use grid_story.Content as C
use grid_story.Content.{
  Failure, plain, known, Entry, Revision, AuditEvent, AuditRow, draft_updated, TranslationVariant,
  Tables, Store, EntryRow, ContentEntry, ContentRevision, to_entry, to_revision, to_audit_event,
}
use grid_story.Content.Statements.{
  Engine, Operation, is_entry, find_entry, find_revision, join_revision, entry_row, revision_row,
  max_sequence, insert_entry, insert_variant, insert_revision, update_where, set_first_draft,
  set_draft, set_published, query, check, return, write, update, transaction, now, fresh_id, audit,
  emit_outbox,
}
use grid_story.Content.Reads.{
  before_text, before_row, matching_type, row_list, list, get_by_id, is_text, has_text, get_by_slug,
  get_revision, list_revisions, list_audit_events, before_event, scope_event,
  list_scope_audit_events,
}

abbrev pub entry_not_found : Failure
entry_not_found = known (not_found_error "Content entry was not found.")

-- The fields of one entry that `publishMany` is given. An expectation that is absent is not
-- checked; that nothing is published is an expectation of its own.
pub record Publication : Type 0 where
  pub entry_id : String
  pub target_revision_id : String
  pub expected_draft_revision_id : Option String
  pub expected_published_revision_id : Option (Option String)

pub record Prepared : Type 0 where
  pub entry : Publication
  pub current : EntryRow
  pub fields : Fields

abbrev pub differs_from : Option String → Option String → Bool
differs_from none actual = false
differs_from (some expected) actual = not (actual == some expected)

abbrev pub published_differs : Option (Option String) → Option String → Bool
published_differs none actual = false
published_differs (some expected) actual = not (actual == expected)

-- The body of the first loop of `publishMany`.
unfoldable pub prepare : ContentScope → Tables → Publication → Result Failure Prepared
prepare scope tables entry =
    or_throw (entry_row scope entry.entry_id draft tables) entry_not_found >>= λ current.
    throw_if (differs_from entry.expected_draft_revision_id current.entry.current_draft_revision_id)
      (known (conflict_error "A release draft changed before atomic publication."))
    >> throw_if
        (published_differs entry.expected_published_revision_id current.entry.published_revision_id)
        (known (conflict_error "Published content changed after the release was prepared."))
    >> (or_throw (revision_row scope entry.entry_id entry.target_revision_id tables)
          (known (not_found_error "The target release revision was not found."))
        >>= λ found. ok (record { entry = entry; current = current; fields = found.1.fields }))

-- `new Set(ids).size !== ids.length`.
abbrev pub has_duplicate : List String → Bool
has_duplicate [] = false
has_duplicate (id ∷ ids) = contains ids id || has_duplicate ids

-- `if (!row) throw new Error(message)`, on a row that is read back.
abbrev pub read_back : ContentScope → String → ContentPerspective → String → Operation ContentEntry
read_back scope id perspective message = query (entry_row scope id perspective) >-> λ row.
    check (or_throw row (plain message)) >-> λ found. return (to_entry found)

-- The rows that `create` inserts.
abbrev pub new_entry : ContentScope → String → String → ℕ → Entry
new_entry scope id content_type at = record {
  id = id;
  scope = scope;
  content_type = content_type;
  current_draft_revision_id = none;
  published_revision_id = none;
  created_at = at;
  updated_at = at;
}

abbrev pub first_revision : ContentScope → String → String → Fields → Actor → ℕ → Revision
first_revision scope id revision_id fields actor at = record {
  id = revision_id;
  entry_id = id;
  tenant_id = scope.tenant_id;
  sequence = 1;
  base_revision_id = none;
  actor_id = actor.id;
  fields = fields;
  created_at = at;
}

-- The statements with which `create` starts its transaction.
unfoldable pub place :
    ContentScope
    → String
    → String
    → String
    → Fields
    → Actor
    → Option String
    → ℕ
    → Operation (Unit {0})
place scope id revision_id content_type fields actor group at =
    write (insert_entry (new_entry scope id content_type at)) >-> λ entered.
    write (
      insert_variant (record {
        entry_id = id;
        translation_group_id = or_else group id;
        scope = scope;
        content_type = content_type;
      }))
    >-> λ grouped.
        write (insert_revision (first_revision scope id revision_id fields actor at)) >-> λ stored.
        update (set_first_draft id revision_id)

module _ (engine : Engine) where
  -- `requestedId ?? this.#createId()`.
  unfoldable pub chosen_id : Option String → Operation String
  chosen_id none = fresh_id engine
  chosen_id (some id) = return id

  unfoldable pub create :
      ContentScope
      → Option String
      → String
      → Fields
      → Actor
      → Option String
      → Operation ContentEntry
  create scope requested_id content_type fields actor group = chosen_id requested_id >-> λ id.
      fresh_id engine >-> λ revision_id. now engine >-> λ at. transaction (
        place scope id revision_id content_type fields actor group at >-> λ placed.
        audit engine scope id actor C.created revision_id at >-> λ audited.
        emit_outbox engine scope C.created content_type id revision_id fields at >-> λ emitted.
        read_back scope id draft "Created GridStory entry could not be read back.")

  -- The entry that an edit or a publication starts from.
  unfoldable pub current_draft : ContentScope → String → String → String → Operation EntryRow
  current_draft scope id expected_revision_id message = query (entry_row scope id draft) >-> λ row.
      check (or_throw row entry_not_found) >-> λ current.
      check (
        throw_if (not (current.entry.current_draft_revision_id == some expected_revision_id))
          (known (conflict_error message)))
      >-> λ same. return current

  unfoldable pub update_draft :
      ContentScope → String → String → Fields → Actor → Operation ContentEntry
  update_draft scope id expected_revision_id fields actor = transaction (
      current_draft scope id expected_revision_id "The draft changed after it was loaded."
      >-> λ current. query (λ tables. max_sequence id tables.revisions) >-> λ sequence.
          fresh_id engine >-> λ revision_id. now engine >-> λ at.
          write (
            insert_revision (record {
              id = revision_id;
              entry_id = id;
              tenant_id = scope.tenant_id;
              sequence = suc sequence;
              base_revision_id = some expected_revision_id;
              actor_id = actor.id;
              fields = fields;
              created_at = at;
            }))
          >-> λ stored. update (set_draft scope id revision_id at) >-> λ pointed.
              audit engine scope id actor draft_updated revision_id at >-> λ audited.
              emit_outbox engine scope draft_updated current.entry.content_type id revision_id
                fields at
              >-> λ emitted.
                  read_back scope id draft "Updated GridStory entry could not be read back.")

  unfoldable pub publish : ContentScope → String → String → Actor → Operation ContentEntry
  publish scope id expected_revision_id actor = transaction (
      current_draft scope id expected_revision_id "The draft changed before it could be published."
      >-> λ current. now engine >-> λ at.
          update (set_published scope id expected_revision_id at) >-> λ pointed.
          audit engine scope id actor C.published expected_revision_id at >-> λ audited.
          emit_outbox engine scope C.published current.entry.content_type id expected_revision_id
            current.fields at
          >-> λ emitted.
              read_back scope id published "Published GridStory entry could not be read back.")

  -- One round of the second loop of `publishMany`.
  unfoldable pub publish_one : ContentScope → Actor → ℕ → Prepared → Operation (Unit {0})
  publish_one scope actor at candidate =
      update (set_published scope candidate.entry.entry_id candidate.entry.target_revision_id at)
      >-> λ pointed.
          audit engine scope candidate.entry.entry_id actor C.published
            candidate.entry.target_revision_id at
          >-> λ audited.
              emit_outbox engine scope C.published candidate.current.entry.content_type
                candidate.entry.entry_id candidate.entry.target_revision_id candidate.fields at

  unfoldable pub publish_all : ContentScope → Actor → ℕ → List Prepared → Operation (Unit {0})
  publish_all scope actor at [] = return tt
  publish_all scope actor at (candidate ∷ candidates) =
      publish_one scope actor at candidate >-> λ done. publish_all scope actor at candidates

  unfoldable pub read_all : ContentScope → List Prepared → Operation (List ContentEntry)
  read_all scope [] = return []
  read_all scope (candidate ∷ candidates) =
      read_back scope candidate.entry.entry_id published
        "Atomically published entry could not be read back."
      >-> λ first. read_all scope candidates >-> λ rest. return (first ∷ rest)

  unfoldable pub publish_many :
      ContentScope → List Publication → Actor → Operation (List ContentEntry)
  publish_many scope [] actor = return []
  publish_many scope (entry ∷ entries) actor =
      check (
        throw_if (has_duplicate (map (λ e. e.entry_id) (entry ∷ entries)))
          (known (conflict_error "An atomic publication cannot contain duplicate entries.")))
      >-> λ distinct. transaction (
          query (λ tables. map_each (prepare scope tables) (entry ∷ entries)) >-> λ outcome.
          check outcome >-> λ prepared. now engine >-> λ at.
          publish_all scope actor at prepared >-> λ done. read_all scope prepared)

-- Whether the deletion of an entry deletes the job.
abbrev pub is_job_of : ContentScope → String → C.DurableJob → Bool
is_job_of scope id job = (job.scope == scope) && has_text "entryId" id job.payload

-- The rows that the deletion leaves; an entry takes its revisions, audit events and translation
-- variants with it.
unfoldable pub without_entry : ContentScope → String → Tables → Tables
without_entry scope id tables = record {
  entries = keep (λ e. not (is_entry scope id e)) tables.entries;
  revisions = keep (λ r. not (r.entry_id == id)) tables.revisions;
  audit_events = keep (λ a. not (a.entry_id == id)) tables.audit_events;
  translation_variants = keep (λ v. not (v.entry_id == id)) tables.translation_variants;
  outbox_events =
      keep (λ o. not ((o.scope == scope) && (o.aggregate_id == id))) tables.outbox_events;
  durable_jobs = keep (λ job. not (is_job_of scope id job)) tables.durable_jobs;
}

unfoldable pub delete_entry : ContentScope → String → Operation Bool
delete_entry scope id = query (find_entry scope id) >-> λ existing.
    if is_some existing
    then (update (without_entry scope id) >-> λ deleted. return true)
    else return false

-- `INSERT OR IGNORE`: a row whose keys are taken is left out.
abbrev pub or_ignore : Result Failure Tables → Tables → Tables
or_ignore (ok tables) before = tables
or_ignore (err e) before = before

-- What `getTranslationGroup` returns, by the variant and the row it finds.
abbrev pub group_of :
    ContentScope → String → Option TranslationVariant → Option EntryRow → Operation (Option String)
group_of scope id (some variant) row = return (some variant.translation_group_id)
group_of scope id none none = return none
group_of scope id none (some row) =
    update (λ tables.
      or_ignore
        (insert_variant
          (record {
            entry_id = id;
            translation_group_id = id;
            scope = scope;
            content_type = row.entry.content_type;
          })
          tables)
        tables)
    >-> λ inserted. return (some id)

unfoldable pub get_translation_group : ContentScope → String → Operation (Option String)
get_translation_group scope id =
    query
      (λ tables. find (λ v. (v.scope == scope) && (v.entry_id == id)) tables.translation_variants)
    >-> λ existing. query (entry_row scope id draft) >-> λ row. group_of scope id existing row
