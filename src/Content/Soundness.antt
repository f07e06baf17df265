-- ===== src/Content/Soundness.antt =====
-- Every command keeps the tables well formed.
use grid_story.Prelude.{
  ℕ, String, Bool, true, false, ◌&&◌, Option, none, some, List, [], ◌∷◌, ◌==◌, string_eq, ◌>->◌,
  if◌then◌else◌, and_then-eq-some, find, find-some, ok, err, Result, ◌≡◌, refl, sym, ap, ◌∙◌, subst,
  Member, here, there, Returns, >->-Returns, ==-eq, and_true, is_some,
}
use grid_story.Context.{ContentScope, draft, scope_eq}
use grid_story.Releases.Store.{Actor}
use grid_story.Content.{Entry, Revision, EntryRow, ContentEntry, Tables, Store, Failure}
use grid_story.Content.Statements.{
  Engine, is_entry, find_entry, entry_row, revision_row, update, return,
}
use grid_story.Content.Statements.Returns.{query-Returns, return-Returns}
use grid_story.Content.Rows.{found_row}
use grid_story.Content.Repository.{
  Publication, Prepared, publish_all, publish_many, delete_entry, without_entry,
}
use grid_story.Content.Repository.Commits.{
  tables_of, Edited, Issued, update_draft-Returns, publish-Returns, publish_one-Returns,
  update-Returns,
}
use grid_story.Content.Repository.Creation.{Created, create-Returns}
use grid_story.Content.Repository.Joint.{some-path, row-pins, IsPrepared, publish_many-Returns}
use grid_story.Content.Rollback.{run-Rolls}
use grid_story.Content.Commands.{
  Command, creation, edit, publishing, joint_publication, deletion, run,
}
use grid_story.Content.Integrity.{
  Stored, Points-more, IsIntact, WellFormed, update_where-IsIntact, insert-IsIntact,
  delete-IsIntact,
}

-- The id that a row of an entry has.
row_id : (scope : ContentScope) (id : String) (e : Entry) → is_entry scope id e ≡ true → e.id ≡ id
row_id scope id e t = ==-eq (and_true (e.scope == scope) (e.id == id) t).1

moved :
    {es fs : List Entry} {rs ss : List Revision}
    → es ≡ fs
    → rs ≡ ss
    → IsIntact es rs
    → IsIntact fs ss
moved {fs} {rs} p q h = subst (λ ss. IsIntact fs ss) q (subst (λ es. IsIntact es rs) p h)

Created-WellFormed :
    {scope : ContentScope} {id new : String} {before after : Tables}
    → Created scope id new before after
    → WellFormed before
    → WellFormed after
Created-WellFormed {scope} {before} made h = moved made.entries made.revisions (
    insert-IsIntact made.entry made.revision before.entries before.revisions h made.free_id
      made.unpublished made.of_entry)

Edited-WellFormed :
    {scope : ContentScope} {id expected new : String} {before after : Tables}
    → Edited scope id expected new before after
    → WellFormed before
    → WellFormed after
Edited-WellFormed {scope} {id} {before} made h = moved made.entries made.revisions (
    update_where-IsIntact (is_entry scope id)
      (λ e. record e { current_draft_revision_id = some made.revision.id; updated_at = made.at })
      before.entries before.revisions (made.revision ∷ before.revisions) h (λ e. refl)
      (λ e m t. record {
        drafted = (
          made.revision.id,
          refl,
          (made.revision, here refl, refl, made.of_entry ∙ sym (row_id scope id e t)),
        );
        published = (Points-more made.revision (h.pointed e m)).published;
      })
      (λ e. Points-more made.revision))

-- Publishing a stored revision of the entry.
Issued-WellFormed :
    {scope : ContentScope} {id target : String} {before after : Tables}
    → Issued scope id target before after
    → Stored target id before.revisions
    → WellFormed before
    → WellFormed after
Issued-WellFormed {scope} {id} {target} {before} made stored h = moved made.entries made.revisions (
    update_where-IsIntact (is_entry scope id)
      (λ e. record e { published_revision_id = some target; updated_at = made.at }) before.entries
      before.revisions before.revisions h (λ e. refl)
      (λ e m t. record {
        drafted = (h.pointed e m).drafted;
        published = λ p q.
            subst (λ x. Stored x e.id before.revisions) (some-path q)
              (subst (λ x. Stored target x before.revisions) (sym (row_id scope id e t)) stored);
      })
      (λ e points. points))

-- The draft of an entry is stored.
draft-Stored :
    (scope : ContentScope) (id expected : String) (tables : Tables) (row : EntryRow)
    → WellFormed tables
    → entry_row scope id draft tables ≡ some row
    → row.entry.current_draft_revision_id ≡ some expected
    → Stored expected id tables.revisions
draft-Stored scope id expected tables row h found same =
    let (in_scope, of_id, m) =
      found_row scope id tables.entries (row-pins scope id draft tables found) in
    let (d, points, stored) = (h.pointed row.entry m).drafted in
    subst (λ x. Stored x id tables.revisions) (some-path (sym points ∙ same))
      (subst (λ x. Stored d x tables.revisions) of_id stored)

-- So is the target of a publication that is let pass.
pub target-Stored :
    (scope : ContentScope) (tables : Tables) (c : Prepared)
    → IsPrepared scope tables c
    → Stored c.entry.target_revision_id c.entry.entry_id tables.revisions
unfolding revision_row
target-Stored scope tables c h = go h.target_found
  where
    go :
        revision_row scope c.entry.entry_id c.entry.target_revision_id tables ≡ some h.target
        → Stored c.entry.target_revision_id c.entry.entry_id tables.revisions
    go k =
        let (entry, found, left) =
          and_then-eq-some (find_entry scope c.entry.entry_id tables) _ k in
        let (revision, stored, last) =
          and_then-eq-some
            (find
              (λ (r : Revision).
                (r.entry_id == c.entry.entry_id) && (r.id == c.entry.target_revision_id))
              tables.revisions)
            _ left in
        let (passes, m) = find-some _ tables.revisions stored in
        let (of_entry, of_id) = and_true (revision.entry_id == c.entry.entry_id) _ passes in
        (revision, m, ==-eq of_id, ==-eq of_entry)

module _ (engine : Engine) where
  pub publish_all-WellFormed :
      (scope : ContentScope) (actor : Actor) (at : ℕ) (candidates : List Prepared) {s t : Store}
      {u : Unit {0}}
      → Returns (publish_all engine scope actor at candidates) s u t
      → ((c : Prepared)
          → Member c candidates
          → Stored c.entry.target_revision_id c.entry.entry_id s.tables.revisions)
      → WellFormed s.tables
      → WellFormed t.tables
  unfolding publish_all
  publish_all-WellFormed scope actor at [] h stored ok_before =
      subst (λ (x : Store). WellFormed x.tables) (return-Returns h).1 ok_before
  publish_all-WellFormed scope actor at (c ∷ candidates) h stored ok_before =
      let (done, s1, h1, k1) = >->-Returns h in
      let made = publish_one-Returns engine scope actor at c h1 in
      publish_all-WellFormed scope actor at candidates k1
        (λ d m.
          subst (λ rs. Stored d.entry.target_revision_id d.entry.entry_id rs) made.revisions
            (stored d (there m)))
        (Issued-WellFormed made (stored c (here refl)) ok_before)

  pub publish_many-WellFormed :
      (scope : ContentScope) (entries : List Publication) (actor : Actor) {s t : Store}
      {found : List ContentEntry}
      → Returns (publish_many engine scope entries actor) s found t
      → WellFormed s.tables
      → WellFormed t.tables
  publish_many-WellFormed scope entries actor {s} h ok_before =
      let joint = publish_many-Returns engine scope entries actor h in
      publish_all-WellFormed scope actor joint.at joint.candidates joint.looped
        (λ c m.
          subst (λ (x : Tables). Stored c.entry.target_revision_id c.entry.entry_id x.revisions)
            joint.unchanged (target-Stored scope s.tables c (joint.checked c m)))
        (subst (λ (x : Tables). WellFormed x) joint.unchanged ok_before)

  deleted-WellFormed :
      (scope : ContentScope) (id : String) {s t : Store} {existed : Bool}
      → Returns (delete_entry scope id) s existed t
      → WellFormed s.tables
      → WellFormed t.tables
  unfolding delete_entry without_entry
  deleted-WellFormed scope id {s} {t} {existed} h ok_before =
      let (row, s1, h1, k1) = >->-Returns h in
      let (found, same) = query-Returns _ h1 in go row s1 found same k1
    where
      go :
          (row : Option Entry) (s1 : Store)
          → find_entry scope id s.tables ≡ row
          → s ≡ s1
          → Returns
              (if is_some row
                then (update (without_entry scope id) >-> λ deleted. return true)
                else return false)
              s1
              existed
              t
          → WellFormed t.tables
      go none s1 found same k =
          subst (λ (x : Store). WellFormed x.tables) (same ∙ (return-Returns k).1) ok_before
      go (some row) s1 found same k =
          let (done, s2, h2, k2) = >->-Returns k in
          let (in_scope, of_id, m) = found_row scope id s.tables.entries found in
          let after : without_entry scope id s.tables ≡ t.tables =
            ap (λ (x : Store). without_entry scope id x.tables) same
            ∙ update-Returns (without_entry scope id) h2
            ∙ ap tables_of (return-Returns k2).1 in
          subst (λ (x : Tables). WellFormed x) after
            (delete-IsIntact scope id s.tables.entries s.tables.revisions row ok_before m in_scope
              of_id)

  run_keeps :
      (scope : ContentScope) (command : Command) {s t : Store} {u : Unit {0}}
      → Returns (run engine scope command) s u t
      → WellFormed s.tables
      → WellFormed t.tables
  unfolding run
  run_keeps scope (creation id type fields actor group) h ok_before =
      let (entry, s1, h1, k1) = >->-Returns h in
      subst (λ (x : Store). WellFormed x.tables) (return-Returns k1).1
        (Created-WellFormed (create-Returns engine scope id type fields actor group h1) ok_before)
  run_keeps scope (edit id expected fields actor) h ok_before =
      let (entry, s1, h1, k1) = >->-Returns h in
      subst (λ (x : Store). WellFormed x.tables) (return-Returns k1).1
        (Edited-WellFormed (update_draft-Returns engine scope id expected fields actor h1)
          ok_before)
  run_keeps scope (publishing id expected actor) {s} h ok_before =
      let (entry, s1, h1, k1) = >->-Returns h in
      let made = publish-Returns engine scope id expected actor h1 in
      subst (λ (x : Store). WellFormed x.tables) (return-Returns k1).1
        (Issued-WellFormed made.issued
          (draft-Stored scope id expected s.tables made.current ok_before made.found made.unchanged)
          ok_before)
  run_keeps scope (joint_publication entries actor) h ok_before =
      let (found, s1, h1, k1) = >->-Returns h in
      subst (λ (x : Store). WellFormed x.tables) (return-Returns k1).1
        (publish_many-WellFormed scope entries actor h1 ok_before)
  run_keeps scope (deletion id) h ok_before =
      let (existed, s1, h1, k1) = >->-Returns h in
      subst (λ (x : Store). WellFormed x.tables) (return-Returns k1).1
        (deleted-WellFormed scope id h1 ok_before)

  -- On tables whose entries have distinct ids and point, with their drafts and what they publish, to
  -- stored revisions of their own, every command leaves such tables, also when it throws.
  pub run-WellFormed :
      (scope : ContentScope) (command : Command) (s : Store)
      → WellFormed s.tables
      → WellFormed (run engine scope command s).1.tables
  run-WellFormed scope command s ok_before = go (run engine scope command s).0 refl
    where
      go :
          (outcome : Result Failure (Unit {0}))
          → (run engine scope command s).0 ≡ outcome
          → WellFormed (run engine scope command s).1.tables
      go (err e) h =
          subst (λ (x : Tables). WellFormed x) (sym ((run-Rolls engine scope command).back s e h))
            ok_before
      go (ok u) h =
          let after : Store = (run engine scope command s).1 in
          let ran : Returns (run engine scope command) s tt after = record {
            run = ap (λ o. (o, after)) h;
          } in
          run_keeps scope command ran ok_before
