-- ===== src/Content/Reads.antt =====
-- packages/core/src/sqlite-repository.ts: what `SqliteContentRepository` reads: the entries, their
-- revisions and their audit events, in the order of its queries.
use text.Mathlib.Text.{is_lt}
use Prim.Native.String.{compare}
use grid_story.Prelude.{
  String, Bool, true, false, ◌&&◌, Option, none, some, List, [], ◌∷◌, ◌==◌, string_eq, nat_eq,
  option_eq, ltb, if◌then◌else◌, and_then, keep, map, find, sort, gather, lookup, push_if,
}
use grid_story.Canonical.{Json, string}
use grid_story.Context.Text.{is_empty}
use grid_story.Context.{ContentScope, ContentPerspective, scope_eq}
use grid_story.Routing.Content.{Fields}
use grid_story.Content.{
  Entry, AuditEvent, AuditRow, Tables, EntryRow, ContentEntry, ContentRevision, to_entry,
  to_revision, to_audit_event,
}
use grid_story.Content.Statements.{find_entry, join_revision, entry_row, revision_row}

abbrev pub before_text : String → String → Bool
before_text a b = is_lt (compare a b)

-- `ORDER BY e.updated_at DESC, e.id ASC`.
abbrev pub before_row : EntryRow → EntryRow → Bool
before_row a b =
    if a.entry.updated_at == b.entry.updated_at
    then before_text a.entry.id b.entry.id
    else ltb b.entry.updated_at a.entry.updated_at

abbrev pub matching_type : Option String → Entry → Bool
matching_type none entry = true
matching_type (some type) entry = if is_empty type then true else entry.content_type == type

abbrev pub row_list : Option EntryRow → List EntryRow
row_list none = []
row_list (some row) = row ∷ []

unfoldable pub list : ContentScope → Option String → ContentPerspective → Tables → List ContentEntry
list scope type perspective tables = map to_entry (
    sort before_row (
      gather (λ e. row_list (join_revision perspective tables e))
        (keep (λ e. (e.scope == scope) && matching_type type e) tables.entries)))

unfoldable pub get_by_id : ContentScope → String → ContentPerspective → Tables → Option ContentEntry
get_by_id scope id perspective tables =
    and_then (entry_row scope id perspective tables) λ row. some (to_entry row)

-- `json_extract(column, '$.key') = ?`, for a text.
abbrev pub is_text : Option Json → String → Bool
is_text (some (string found)) text = found == text
is_text _ text = false

abbrev pub has_text : String → String → Fields → Bool
has_text key text fields = is_text (lookup key fields) text

-- The first row in the order of the table.
unfoldable pub get_by_slug :
    ContentScope → String → String → ContentPerspective → Tables → Option ContentEntry
get_by_slug scope content_type slug perspective tables =
    and_then
      (find (λ row. has_text "slug" slug row.fields)
        (gather (λ e. row_list (join_revision perspective tables e))
          (keep (λ e. (e.scope == scope) && (e.content_type == content_type)) tables.entries)))
      λ row. some (to_entry row)

unfoldable pub get_revision : ContentScope → String → String → Tables → Option ContentRevision
get_revision scope id revision_id tables =
    and_then (revision_row scope id revision_id tables) λ found. some (to_revision found.0 found.1)

unfoldable pub list_revisions : ContentScope → String → Tables → List ContentRevision
list_revisions scope id tables = elim (find_entry scope id tables) [
  | none ↦ []
  | some entry ↦
      map (to_revision entry)
        (sort (λ a b. ltb b.sequence a.sequence) (keep (λ r. r.entry_id == id) tables.revisions))
]

unfoldable pub list_audit_events : ContentScope → String → Tables → List AuditEvent
list_audit_events scope id tables = elim (find_entry scope id tables) [
  | none ↦ []
  | some entry ↦
      map (to_audit_event entry)
        (sort (λ a b. ltb b.sequence a.sequence) (keep (λ a. a.entry_id == id) tables.audit_events))
]

-- `ORDER BY a.entry_id ASC, a.sequence ASC`.
abbrev pub before_event : AuditEvent → AuditEvent → Bool
before_event a b =
    if a.entry_id == b.entry_id
    then ltb a.sequence b.sequence
    else before_text a.entry_id b.entry_id

-- The join of the audit events with the entries of the scope.
abbrev pub scope_event : ContentScope → Tables → AuditRow → List AuditEvent
scope_event scope tables row = elim (find (λ e. e.id == row.entry_id) tables.entries) [
  | none ↦ []
  | some entry ↦ push_if (entry.scope == scope) (to_audit_event entry row)
]

unfoldable pub list_scope_audit_events : ContentScope → Tables → List AuditEvent
list_scope_audit_events scope tables =
    sort before_event (gather (scope_event scope tables) tables.audit_events)
