-- ===== src/Content/Repository/Commits.antt =====
-- What the operations that change entries leave in the tables when they return.
use grid_story.Prelude.{
  ℕ, suc, String, Bool, false, ◌&&◌, ◌||◌, some, List, ◌∷◌, ◌==◌, string_eq, nat_eq, option_eq, any,
  ok, ◌≡◌, refl, sym, ap, ◌∙◌, subst, arith, Returns, >->-Returns, ==-eq,
}
use grid_story.Context.{ContentScope, ContentPerspective, draft, published}
use grid_story.Routing.Content.{Fields}
use grid_story.Releases.Store.{Actor}
use grid_story.Content.{AuditAction, Entry, Revision, Tables, Store, EntryRow, ContentEntry}
use grid_story.Content.Statements.{
  Engine, entry_row, set_draft, set_published, update, audit, emit_outbox,
}
use grid_story.Content.Statements.Returns.{
  check-Returns, query-Returns, write-Returns, return-Returns, transaction-Returns, now-Returns,
  fresh_id-Returns, fresh_id-drawn, insert_revision-ok, audit-Returns, emit_outbox-Returns,
  or_throw-eq-ok, throw_if-eq-ok,
}
use grid_story.Content.Repository.{
  current_draft, update_draft, publish, publish_one, read_back, Prepared,
}

abbrev pub entries_of : Tables → List Entry
entries_of tables = tables.entries

abbrev pub revisions_of : Tables → List Revision
revisions_of tables = tables.revisions

abbrev pub tables_of : Store → Tables
tables_of s = s.tables

-- The keys of the row are not free: another one has them.
abbrev pub takes_keys : Revision → Revision → Bool
takes_keys row r =
    (r.id == row.id) || ((r.entry_id == row.entry_id) && (r.sequence == row.sequence))

-- The entries and the revisions are the same.
pub record Keeps (before after : Tables) : Type 0 where
  pub entries : before.entries ≡ after.entries
  pub revisions : before.revisions ≡ after.revisions

-- `update`, and what it does to the tables.
pub update-Returns :
    (change : Tables → Tables) {s t : Store} {u : Unit {0}}
    → Returns (update change) s u t
    → change s.tables ≡ t.tables
update-Returns change h =
    let written : ok (change _) ≡ ok _ = write-Returns (λ x. ok (change x)) h in cc written

pub record Edited (scope : ContentScope) (id expected new : String) (before after : Tables)
    : Type 0 where
  pub current : EntryRow
  pub found : entry_row scope id draft before ≡ some current
  pub unchanged : current.entry.current_draft_revision_id ≡ some expected
  pub revision : Revision
  pub of_entry : revision.entry_id ≡ id
  pub named : revision.id ≡ new
  pub free : any (takes_keys revision) before.revisions ≡ false
  pub revisions : revision ∷ before.revisions ≡ after.revisions
  pub at : ℕ
  pub entries : (set_draft scope id revision.id at before).entries ≡ after.entries

pub record Issued (scope : ContentScope) (id target : String) (before after : Tables) : Type 0 where
  pub revisions : before.revisions ≡ after.revisions
  pub at : ℕ
  pub entries : (set_published scope id target at before).entries ≡ after.entries

pub record Released (scope : ContentScope) (id expected : String) (before after : Tables)
    : Type 0 where
  pub current : EntryRow
  pub found : entry_row scope id draft before ≡ some current
  pub unchanged : current.entry.current_draft_revision_id ≡ some expected
  pub issued : Issued scope id expected before after

module _ (engine : Engine) where
  -- The pair of calls that ends every change.
  pub recorded-Returns :
      (scope : ContentScope) (type : AuditAction) (content_type id revision_id : String)
      (fields : Fields) (actor : Actor) (at : ℕ) {s t w : Store} {u v : Unit {0}}
      → Returns (audit engine scope id actor type revision_id at) s u t
      → Returns (emit_outbox engine scope type content_type id revision_id fields at) t v w
      → Keeps s.tables w.tables
  recorded-Returns scope type content_type id revision_id fields actor at h k =
      let (row_id, audited) = audit-Returns engine scope id actor type revision_id at h in
      let (event, emitted) =
        emit_outbox-Returns engine scope type content_type id revision_id fields at k in
      record {
        entries = ap entries_of audited ∙ ap entries_of emitted;
        revisions = ap revisions_of audited ∙ ap revisions_of emitted;
      }

  pub read_back-Returns :
      (scope : ContentScope) (id : String) (perspective : ContentPerspective) (message : String)
      {s t : Store} {entry : ContentEntry}
      → Returns (read_back scope id perspective message) s entry t
      → s ≡ t
  read_back-Returns scope id perspective message h =
      let (row, s1, h1, k1) = >->-Returns h in
      let (found, s2, h2, k2) = >->-Returns k1 in
      (query-Returns _ h1).1 ∙ (check-Returns h2).1 ∙ (return-Returns k2).1

  current_draft-Returns :
      (scope : ContentScope) (id expected message : String) {s t : Store} {current : EntryRow}
      → Returns (current_draft engine scope id expected message) s current t
      → (entry_row scope id draft s.tables ≡ some current)
        × (current.entry.current_draft_revision_id ≡ some expected)
        × (s ≡ t)
  unfolding current_draft
  current_draft-Returns scope id expected message {s} {t} {current} h =
      let (row, s1, h1, k1) = >->-Returns h in
      let (found, s2, h2, k2) = >->-Returns k1 in
      let (same, s3, h3, k3) = >->-Returns k2 in
      let (read, e1) = query-Returns _ h1 in
      let (one, e2) = check-Returns h2 in
      let (tested, e3) = check-Returns h3 in
      let (is_it, e4) = return-Returns k3 in
      let passed = throw_if-eq-ok _ _ tested in
      let same_draft : found.entry.current_draft_revision_id ≡ some expected =
        ==-eq (ground (arith, passed)) in
      (
        read ∙ or_throw-eq-ok row _ one ∙ ap some is_it,
        subst (λ (x : EntryRow). x.entry.current_draft_revision_id ≡ some expected) is_it
            same_draft,
        e1 ∙ e2 ∙ e3 ∙ e4,
      )

  pub update_draft-Returns :
      (scope : ContentScope) (id expected : String) (fields : Fields) (actor : Actor) {s t : Store}
      {entry : ContentEntry}
      → Returns (update_draft engine scope id expected fields actor) s entry t
      → Edited scope id expected (engine.create_id s.drawn) s.tables t.tables
  unfolding update_draft
  update_draft-Returns scope id expected fields actor {s} {t} h =
      let (current, s1, h1, k1) = >->-Returns (transaction-Returns h) in
      let (sequence, s2, h2, k2) = >->-Returns k1 in
      let (revision_id, s3, h3, k3) = >->-Returns k2 in
      let (at, s4, h4, k4) = >->-Returns k3 in
      let (stored, s5, h5, k5) = >->-Returns k4 in
      let (pointed, s6, h6, k6) = >->-Returns k5 in
      let (audited, s7, h7, k7) = >->-Returns k6 in
      let (emitted, s8, h8, k8) = >->-Returns k7 in
      let (found, unchanged, e1) = current_draft-Returns scope id expected _ h1 in
      let e2 = (query-Returns _ h2).1 in
      let base : s.tables ≡ s4.tables =
        ap tables_of (e1 ∙ e2) ∙ fresh_id-Returns engine h3 ∙ now-Returns engine h4 in
      let new_revision : Revision = record {
        id = revision_id;
        entry_id = id;
        tenant_id = scope.tenant_id;
        sequence = suc sequence;
        base_revision_id = some expected;
        actor_id = actor.id;
        fields = fields;
        created_at = at;
      } in
      let (free, inserted) = insert_revision-ok new_revision _ (write-Returns _ h5) in
      let changed = update-Returns (set_draft scope id revision_id at) h6 in
      let rest = recorded-Returns scope _ _ id revision_id fields actor at h7 h8 in
      let last : s8 ≡ t = read_back-Returns scope id draft _ k8 in
      let point : Tables → Tables = set_draft scope id revision_id at in
      record {
        current = current;
        found = found;
        unchanged = unchanged;
        revision = new_revision;
        of_entry = refl;
        named =
            sym (fresh_id-drawn engine h3).0
            ∙ ap (λ (x : Store). engine.create_id x.drawn) (sym (e1 ∙ e2));
        free =
            subst (λ x. any (takes_keys new_revision) x ≡ false) (ap revisions_of (sym base)) free;
        revisions =
            ap (λ x. new_revision ∷ revisions_of x) base
            ∙ ap revisions_of inserted
            ∙ ap revisions_of changed
            ∙ rest.revisions
            ∙ ap revisions_of (ap tables_of last);
        at = at;
        entries =
            ap (λ x. entries_of (point x)) base
            ∙ ap (λ x. entries_of (point x)) inserted
            ∙ ap entries_of changed
            ∙ rest.entries
            ∙ ap entries_of (ap tables_of last);
      }

  pub publish_one-Returns :
      (scope : ContentScope) (actor : Actor) (at : ℕ) (c : Prepared) {s t : Store} {u : Unit {0}}
      → Returns (publish_one engine scope actor at c) s u t
      → Issued scope c.entry.entry_id c.entry.target_revision_id s.tables t.tables
  unfolding publish_one
  publish_one-Returns scope actor at c h =
      let (pointed, s1, h1, k1) = >->-Returns h in
      let (audited, s2, h2, k2) = >->-Returns k1 in
      let changed =
        update-Returns (set_published scope c.entry.entry_id c.entry.target_revision_id at) h1 in
      let rest =
        recorded-Returns scope _ _ c.entry.entry_id c.entry.target_revision_id c.fields actor at h2
          k2 in
      record {
        revisions = ap revisions_of changed ∙ rest.revisions;
        at = at;
        entries = ap entries_of changed ∙ rest.entries;
      }

  pub publish-Returns :
      (scope : ContentScope) (id expected : String) (actor : Actor) {s t : Store}
      {entry : ContentEntry}
      → Returns (publish engine scope id expected actor) s entry t
      → Released scope id expected s.tables t.tables
  unfolding publish
  publish-Returns scope id expected actor {s} {t} h =
      let (current, s1, h1, k1) = >->-Returns (transaction-Returns h) in
      let (at, s2, h2, k2) = >->-Returns k1 in
      let (pointed, s3, h3, k3) = >->-Returns k2 in
      let (audited, s4, h4, k4) = >->-Returns k3 in
      let (emitted, s5, h5, k5) = >->-Returns k4 in
      let (found, unchanged, e1) = current_draft-Returns scope id expected _ h1 in
      let base : s.tables ≡ s2.tables = ap tables_of e1 ∙ now-Returns engine h2 in
      let point : Tables → Tables = set_published scope id expected at in
      let changed = update-Returns point h3 in
      let rest = recorded-Returns scope _ _ id expected current.fields actor at h4 h5 in
      let last : s5 ≡ t = read_back-Returns scope id published _ k5 in
      record {
        current = current;
        found = found;
        unchanged = unchanged;
        issued = record {
          revisions =
              ap revisions_of base
              ∙ ap revisions_of changed
              ∙ rest.revisions
              ∙ ap revisions_of (ap tables_of last);
          at = at;
          entries =
              ap (λ x. entries_of (point x)) base
              ∙ ap entries_of changed
              ∙ rest.entries
              ∙ ap entries_of (ap tables_of last);
        };
      }
