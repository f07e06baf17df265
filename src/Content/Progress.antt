-- ===== src/Content/Progress.antt =====
-- When the publication of an entry returns, and what its operations share.
pub mod Edits
pub mod Prepared
pub mod Joint
pub mod Undo
use grid_story.Prelude.{
  >->_runs, ℕ, suc, String, Bool, true, false, not, ◌&&◌, Option, none, some, List, ◌∷◌, ◌==◌,
  string_eq, option_eq, and_then, and_then-eq-some, find, find-some, find-none, any, ok, ◌≡◌, refl,
  sym, ap, ap₂, ◌∙◌, subst, arith, Result, Returns, >->-Returns, Member, ==_refl, if◌then◌else◌,
  ◌↔◌,
}
use grid_story.Context.{ContentScope, ContentPerspective, draft, published, scope_eq}
use grid_story.Tenancy.{assert_valid_content_scope}
use grid_story.Releases.Store.{Actor}
use grid_story.Content as C
use grid_story.Content.{Entry, Revision, Tables, Store, EntryRow, ContentEntry, to_entry, Failure}
use grid_story.Content.Statements.{
  Engine, is_entry, find_entry, find_revision, entry_row, revision_join, join_revision,
  set_published, update_where, query, return,
}
use grid_story.Content.Statements.Progress.{
  query_runs, check_runs, return_runs, update_runs, transaction_runs, now_runs, with_tables,
  HasRoom, Recorded, events_run,
}
use grid_story.Content.Repository.{current_draft, read_back, publish}
use grid_story.Content.Repository.Commits.{publish-Returns}
use grid_story.Content.Rows.{found_row, find-update_where}
use grid_story.Content.Integrity.{WellFormed, Stored}
use grid_story.Content.Commands.{publishing, run, shelf, Pins, HasDraft}
use grid_story.Content.Refinement.{draft_seen}
use grid_story.Content.Repository.Joint.{some-path}

pub find_Member {ℓ} :
    {A : Type ℓ} (p : A → Bool) (xs : List A) {a : A}
    → Member a xs
    → p a ≡ true
    → (x : A) × (find p xs ≡ some x)
find_Member {A} p xs {a} m h = go (find p xs) refl
  where
    go : (o : Option A) → find p xs ≡ o → (x : A) × (find p xs ≡ some x)
    go (some x) e = (x, e)
    go none e = cc (sym (find-none p xs a e m) ∙ h)

-- A stored revision is found.
pub Stored-found :
    {id entry_id : String} (tables : Tables)
    → Stored id entry_id tables.revisions
    → (r : Revision) × (find_revision id tables ≡ some r)
Stored-found {id} tables (r, m, a, b) =
    find_Member (λ x. x.id == id) tables.revisions m (ap (λ x. x == id) a ∙ ==_refl id)

-- The entry with the draft that the abstract machine sees.
pub record Drafted (scope : ContentScope) (id expected : String) (tables : Tables) : Type 0 where
  pub entry : Entry
  pub revision : Revision
  pub found : find_entry scope id tables ≡ some entry
  pub drafted : entry.current_draft_revision_id ≡ some expected
  pub stored : find_revision expected tables ≡ some revision

pub HasDraft-Drafted :
    {scope : ContentScope} {id expected : String} (tables : Tables)
    → WellFormed tables
    → HasDraft (shelf tables) scope id expected
    → Drafted scope id expected tables
HasDraft-Drafted {scope} {id} {expected} tables sound (pins, seen, same) =
    let (entry, found, e) = and_then-eq-some (find_entry scope id tables) _ seen in
    let (in_scope, of_id, m) = found_row scope id tables.entries found in
    let drafted : entry.current_draft_revision_id ≡ some expected =
      ap (λ (p : Pins). p.draft) (some-path e) ∙ same in
    let (draft_id, points, stored) = (sound.pointed entry m).drafted in
    let is_it : draft_id ≡ expected = cc (sym points ∙ drafted) in
    let (revision, there) =
      Stored-found tables (subst (λ x. Stored x entry.id tables.revisions) is_it stored) in
    record { entry = entry; revision = revision; found = found; drafted = drafted; stored = there }

abbrev pub joined : Entry → Revision → EntryRow
joined entry revision = record { entry = entry; fields = revision.fields }

-- A row, from its three queries.
pub entry_row_is :
    (scope : ContentScope) (id : String) (perspective : ContentPerspective) (tables : Tables)
    {entry : Entry} {pointer : String} {revision : Revision}
    → find_entry scope id tables ≡ some entry
    → revision_join perspective entry ≡ some pointer
    → find_revision pointer tables ≡ some revision
    → entry_row scope id perspective tables ≡ some (joined entry revision)
unfolding entry_row
entry_row_is scope id perspective tables {entry} found pointed stored =
    ap (λ o. and_then o (join_revision perspective tables)) found
    ∙ ap (λ o. and_then o (λ r. and_then (find_revision r tables) (λ x. some (joined entry x))))
        pointed
    ∙ ap (λ o. and_then o (λ x. some (joined entry x))) stored

-- The changed row of an entry is found again.
pub find_entry_changed :
    (scope : ContentScope) (id : String) (change : Entry → Entry) (entries : List Entry)
    {entry : Entry}
    → ((e : Entry) → (change e).scope ≡ e.scope)
    → ((e : Entry) → (change e).id ≡ e.id)
    → find (is_entry scope id) entries ≡ some entry
    → find (is_entry scope id) (update_where (is_entry scope id) change entries)
      ≡ some (change entry)
find_entry_changed scope id change entries {entry} same_scope same_id found =
    find-update_where (is_entry scope id) (is_entry scope id) change entries
      (λ e. ap₂ (λ a b. (a == scope) && (b == id)) (same_scope e) (same_id e))
    ∙ ap (λ o. and_then o (λ e. some (if is_entry scope id e then change e else e))) found
    ∙ ap (λ b. some (if b then change entry else entry))
        (find-some (is_entry scope id) entries found).0

pub read_back_runs :
    (scope : ContentScope) (id : String) (perspective : ContentPerspective) (message : String)
    (s : Store) {row : EntryRow}
    → entry_row scope id perspective s.tables ≡ some row
    → Returns (read_back scope id perspective message) s (to_entry row) s
read_back_runs scope id perspective message s {row} h =
    >->_runs _ (query_runs _ s) (>->_runs _ (check_runs {a = row} s (rw h refl)) (return_runs _ s))

module _ (engine : Engine) where
  pub current_draft_runs :
      (scope : ContentScope) (id expected message : String) (s : Store) {current : EntryRow}
      → entry_row scope id draft s.tables ≡ some current
      → current.entry.current_draft_revision_id ≡ some expected
      → Returns (current_draft engine scope id expected message) s current s
  unfolding current_draft
  current_draft_runs scope id expected message s {current} h k = >->_runs _ (query_runs _ s) (
      >->_runs _ (check_runs {a = current} s (rw h refl))
        (>->_runs _ (check_runs {a = tt} s (rw (k, ==_refl expected) refl)) (return_runs _ s)))

  module _ (scope : ContentScope) (id expected : String) (actor : Actor) where
    publish_runs :
        (s : Store)
        → Drafted scope id expected s.tables
        → assert_valid_content_scope scope ≡ ok scope
        → HasRoom engine s
        → (entry : ContentEntry) × (t : Store) × Returns
            (publish engine scope id expected actor)
            s
            entry
            t
    unfolding publish entry_row
    publish_runs s d valid room =
        let current = joined d.entry d.revision in
        let at = engine.time s.readings in
        let change : Entry → Entry =
          λ e. record e { published_revision_id = some expected; updated_at = at } in
        let s1 : Store = record s { readings = suc s.readings } in
        let s2 = with_tables (set_published scope id expected at s1.tables) s1 in
        let (s3, s4, audits, emits, rec) =
          events_run engine scope id actor C.published expected at d.entry.content_type
            d.revision.fields s2 valid
            (record { audit_free = room.audit_free; outbox_free = room.outbox_free }) in
        let drafted = entry_row_is scope id draft s.tables d.found d.drafted d.stored in
        let changed =
          find_entry_changed scope id change s.tables.entries (λ e. refl) (λ e. refl) d.found in
        let shown = entry_row_is scope id published s2.tables changed refl d.stored in
        let back : entry_row scope id published s4.tables
            ≡ some (joined (change d.entry) d.revision) =
          ap (entry_row scope id published) (sym rec.tables) ∙ shown in
        (
          _,
          s4,
          transaction_runs (
              >->_runs _ (current_draft_runs scope id expected _ s drafted d.drafted) (
                >->_runs _ (now_runs engine s) (
                  >->_runs _ (update_runs (set_published scope id expected at) s1) (
                    >->_runs _ audits
                      (>->_runs _ emits (read_back_runs scope id published _ s4 back)))))),
        )

  -- On well formed tables, in a scope whose fields are proper, and with new ids for the two events,
  -- the publication of an entry returns exactly when the entry has the expected draft.
  pub publish_returns_iff :
      (scope : ContentScope) (id expected : String) (actor : Actor) (s : Store)
      → WellFormed s.tables
      → assert_valid_content_scope scope ≡ ok scope
      → HasRoom engine s
      → ((run engine scope (publishing id expected actor) s).0 ≡ ok tt)
        ↔ HasDraft (shelf s.tables) scope id expected
  unfolding run
  publish_returns_iff scope id expected actor s sound valid room = (
    λ h.
        let ran : Returns (run engine scope (publishing id expected actor)) s tt
            (run engine scope (publishing id expected actor) s).1 =
          record { run = ap (λ o. (o, (run engine scope (publishing id expected actor) s).1)) h } in
        let (entry, t, published_one, rest) = >->-Returns ran in
        let released = publish-Returns engine scope id expected actor published_one in
        draft_seen scope id expected s.tables released.current released.found released.unchanged,
    λ h.
        let (entry, t, ran) =
          publish_runs scope id expected actor s (HasDraft-Drafted s.tables sound h) valid room in
        ap (λ (p : Result Failure (Unit {0}) × Store). p.0)
          (>->_runs (λ e. return tt) ran (return_runs tt t)).run,
  )
