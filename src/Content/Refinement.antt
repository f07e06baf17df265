-- ===== src/Content/Refinement.antt =====
-- The repository implements the abstract machine.
use std.Path.{fun_ext}
use grid_story.Prelude.{
  ℕ, String, Bool, true, false, ◌&&◌, Option, none, some, List, [], ◌∷◌, ◌==◌, string_eq, ◌>->◌,
  if◌then◌else◌, and_then, map, ok, err, Result, ◌≡◌, refl, sym, ap, ap₂, ◌∙◌, subst, arith,
  Bool-cases, Option-cases, and_true, inl, inr, ◌⊎◌, Member, here, there, Returns, >->-Returns,
  ==-eq, option_eq, is_some,
}
use grid_story.Context.{ContentScope, draft, scope_eq}
use grid_story.Releases.Store.{Actor}
use grid_story.Content.{Entry, EntryRow, ContentEntry, Tables, Store, Failure}
use grid_story.Content.Statements.{Engine, find_entry, entry_row, update, return}
use grid_story.Content.Statements.Returns.{query-Returns, return-Returns}
use grid_story.Content.Repository.{
  publish, Publication, Prepared, publish_all, publish_many, delete_entry, without_entry,
  published_differs, differs_from,
}
use grid_story.Content.Repository.Commits.{
  Edited, Issued, update_draft-Returns, publish-Returns, publish_one-Returns, update-Returns,
}
use grid_story.Content.Repository.Creation.{Created, create-Returns, add-zero}
use grid_story.Content.Commands.{drawn_ids, entry_id, revision_of}
use grid_story.Content.Shelves.{shelf_of-update_where, shelf_of-keep, shelf_of-with_new, not_yet}
use grid_story.Content.Commands.{
  Command, creation, edit, publishing, joint_publication, deletion, run, pins_of, shelf_of, shelf,
  Change, placed, redrafted, released, removed, apply, apply_all, release_of, HasDraft, Expected,
  AllExpected, Effect, Refines,
}
use grid_story.Content.Repository.Joint.{row-pins, IsPrepared, publications, publish_many-Returns}
use grid_story.Content.Rollback.{run-Rolls}

pub draft_seen :
    (scope : ContentScope) (id expected : String) (tables : Tables) (row : EntryRow)
    → entry_row scope id draft tables ≡ some row
    → row.entry.current_draft_revision_id ≡ some expected
    → HasDraft (shelf tables) scope id expected
draft_seen scope id expected tables row h k = (
  pins_of row.entry,
  ap (λ o. and_then o (λ e. some (pins_of e))) (row-pins scope id draft tables h),
  k,
)

-- A published revision of one entry.
Issued-shelf :
    {scope : ContentScope} {id target : String} {before after : Tables}
    → Issued scope id target before after
    → shelf after ≡ apply scope (id, released target) (shelf before)
Issued-shelf {scope} {id} {target} {before} {after} h =
    ap shelf_of (sym h.entries)
    ∙ fun_ext (λ s. fun_ext (λ i.
      shelf_of-update_where scope id
        (λ e. record e { published_revision_id = some target; updated_at = h.at }) (released target)
        before.entries (λ e. refl) (λ e. refl) refl (λ e. refl) s i))

Edited-shelf :
    {scope : ContentScope} {id expected new : String} {before after : Tables}
    (h : Edited scope id expected new before after)
    → shelf after ≡ apply scope (id, redrafted new) (shelf before)
Edited-shelf {scope} {id} {expected} {before} h =
    ap shelf_of (sym h.entries)
    ∙ fun_ext (λ s. fun_ext (λ i.
      shelf_of-update_where scope id
        (λ e. record e { current_draft_revision_id = some h.revision.id; updated_at = h.at })
        (redrafted h.revision.id) before.entries (λ e. refl) (λ e. refl) refl (λ e. refl) s i))
    ∙ ap (λ r. apply scope (id, redrafted r) (shelf before)) h.named

Created-shelf :
    {scope : ContentScope} {id new : String} {before after : Tables}
    (h : Created scope id new before after)
    → shelf after ≡ apply scope (id, placed new) (shelf before)
Created-shelf {scope} {before} h =
    ap shelf_of (sym h.entries)
    ∙ fun_ext (λ s.
      fun_ext
        (λ i. shelf_of-with_new h.entry h.revision.id before.entries h.free_id h.unpublished s i))
    ∙ ap (λ o. apply o (h.entry.id, placed h.revision.id) (shelf before)) h.in_scope
    ∙ ap₂ (λ i r. apply scope (i, placed r) (shelf before)) h.is_it h.named

module _ (engine : Engine) where
  pub shelf-publish_all :
      (scope : ContentScope) (actor : Actor) (at : ℕ) (candidates : List Prepared) {s t : Store}
      {u : Unit {0}}
      → Returns (publish_all engine scope actor at candidates) s u t
      → shelf t.tables ≡ apply_all scope (map release_of (publications candidates)) (shelf s.tables)
  unfolding publish_all
  shelf-publish_all scope actor at [] h =
      ap (λ (x : Store). shelf x.tables) (sym (return-Returns h).1)
  shelf-publish_all scope actor at (c ∷ candidates) h =
      let (done, s1, h1, k1) = >->-Returns h in
      shelf-publish_all scope actor at candidates k1
      ∙ ap (apply_all scope (map release_of (publications candidates)))
          (Issued-shelf (publish_one-Returns engine scope actor at c h1))

draft_expected :
    (expected actual : Option String)
    → differs_from expected actual ≡ false
    → (expected ≡ none) ⊎ (expected ≡ actual)
draft_expected none actual h = inl refl
draft_expected (some expected) actual h =
    let same : actual ≡ some expected = ==-eq (ground (arith, h)) in inr (sym same)

published_expected :
    (expected : Option (Option String)) (actual : Option String)
    → published_differs expected actual ≡ false
    → (expected ≡ none) ⊎ (expected ≡ some actual)
published_expected none actual h = inl refl
published_expected (some expected) actual h =
    let same : actual ≡ expected = ==-eq (ground (arith, h)) in inr (ap some (sym same))

pub prepared-Expected :
    (scope : ContentScope) (tables : Tables) (c : Prepared)
    → IsPrepared scope tables c
    → Expected (shelf tables) scope c.entry
prepared-Expected scope tables c h = (
  pins_of c.current.entry,
  ap (λ o. and_then o (λ e. some (pins_of e)))
      (row-pins scope c.entry.entry_id draft tables h.seen),
  draft_expected _ _ h.draft_kept,
  published_expected _ _ h.published_kept,
)

pub all_expected :
    (scope : ContentScope) (tables : Tables) (candidates : List Prepared)
    → ((c : Prepared) → Member c candidates → IsPrepared scope tables c)
    → AllExpected (shelf tables) scope (publications candidates)
all_expected scope tables [] h = tt
all_expected scope tables (c ∷ candidates) h = (
  prepared-Expected scope tables c (h c (here refl)),
  all_expected scope tables candidates (λ d m. h d (there m)),
)

-- Deleting what is not there changes nothing.
removed_absent :
    (scope : ContentScope) (id : String) (tables : Tables)
    → is_some (find_entry scope id tables) ≡ false
    → shelf tables ≡ apply scope (id, removed) (shelf tables)
removed_absent scope id tables h = fun_ext (λ s. fun_ext (λ i. go s i))
  where
    absent : shelf tables scope id ≡ none
    absent = elim (Option-cases (find_entry scope id tables)) [
      | inl e ↦ rw e refl
      | inr (row, e) ↦ cc (sym h ∙ ap is_some e)
    ]

    go :
        (s : ContentScope) (i : String)
        → shelf tables s i ≡ apply scope (id, removed) (shelf tables) s i
    go s i = elim (Bool-cases ((s == scope) && (i == id))) [
      | inl t ↦
          let (a, b) = and_true (s == scope) (i == id) t in
          let in_scope : s ≡ scope = ==-eq a in
          let of_id : i ≡ id = ==-eq b in rw t (ap₂ (shelf tables) in_scope of_id ∙ absent)
      | inr t ↦ rw t refl
    ]

deleted_shelf :
    (scope : ContentScope) (id : String) {s t : Store} {existed : Bool}
    → Returns (delete_entry scope id) s existed t
    → shelf t.tables ≡ apply scope (id, removed) (shelf s.tables)
unfolding delete_entry without_entry
deleted_shelf scope id {s} {t} {existed} h =
    let (row, s1, h1, k1) = >->-Returns h in
    let (found, same) = query-Returns _ h1 in go row s1 found same k1
  where
    go :
        (row : Option Entry) (s1 : Store)
        → find_entry scope id s.tables ≡ row
        → s ≡ s1
        → Returns
            (if is_some row
              then (update (without_entry scope id) >-> λ deleted. return true)
              else return false)
            s1
            existed
            t
        → shelf t.tables ≡ apply scope (id, removed) (shelf s.tables)
    go none s1 found same k =
        ap (λ (x : Store). shelf x.tables) (sym (same ∙ (return-Returns k).1))
        ∙ removed_absent scope id s.tables (ap is_some found)
    go (some row) s1 found same k =
        let (done, s2, h2, k2) = >->-Returns k in
        ap (λ (x : Store). shelf x.tables) (sym (return-Returns k2).1)
        ∙ ap shelf (sym (update-Returns (without_entry scope id) h2))
        ∙ ap (λ (x : Store). shelf (without_entry scope id x.tables)) (sym same)
        ∙ fun_ext (λ o. fun_ext (λ i. shelf_of-keep scope id s.tables.entries o i))

module _ (engine : Engine) (scope : ContentScope) where
  pub publish_many_effect :
      (entries : List Publication) (actor : Actor) {s t : Store} {found : List ContentEntry}
      → Returns (publish_many engine scope entries actor) s found t
      → AllExpected (shelf s.tables) scope entries
        × (shelf t.tables ≡ apply_all scope (map release_of entries) (shelf s.tables))
  publish_many_effect entries actor {s} {t} h =
      let joint = publish_many-Returns engine scope entries actor h in
      (
        subst (λ xs. AllExpected (shelf s.tables) scope xs) joint.named
            (all_expected scope s.tables joint.candidates joint.checked),
        shelf-publish_all engine scope actor joint.at joint.candidates joint.looped
            ∙ ap₂ (apply_all scope) (ap (map release_of) joint.named)
                (ap shelf (sym joint.unchanged)),
      )

  pub publish_effect :
      (id expected : String) (actor : Actor) {s t : Store} {entry : ContentEntry}
      → Returns (publish engine scope id expected actor) s entry t
      → HasDraft (shelf s.tables) scope id expected
        × (shelf t.tables ≡ apply scope (id, released expected) (shelf s.tables))
  publish_effect id expected actor {s} h =
      let made = publish-Returns engine scope id expected actor h in
      (
        draft_seen scope id expected s.tables made.current made.found made.unchanged,
        Issued-shelf made.issued,
      )

  -- A command that returns had its effect.
  run-Effect :
      (command : Command) {s t : Store} {u : Unit {0}}
      → Returns (run engine scope command) s u t
      → (changes : List (String × Change)) × Effect command scope
          (drawn_ids engine s)
          (shelf s.tables)
          changes
        × (shelf t.tables ≡ apply_all scope changes (shelf s.tables))
  unfolding run
  run-Effect (creation id type fields actor group) {s} h =
      let (entry, s1, h1, k1) = >->-Returns h in
      let ids = drawn_ids engine s in
      let made = create-Returns engine scope id type fields actor group h1 in
      (
        (entry_id id ids, placed (revision_of id ids)) ∷ [],
        (
          refl,
          ap (λ i. shelf s.tables scope i) (sym made.is_it)
              ∙ not_yet made.entry made.revision.id s.tables.entries made.free_id scope,
        ),
        ap (λ (x : Store). shelf x.tables) (sym (return-Returns k1).1) ∙ Created-shelf made,
      )
  run-Effect (edit id expected fields actor) {s} h =
      let (entry, s1, h1, k1) = >->-Returns h in
      let made = update_draft-Returns engine scope id expected fields actor h1 in
      (
        (id, redrafted (engine.create_id s.drawn)) ∷ [],
        (
          ap (λ n. (id, redrafted (engine.create_id n)) ∷ []) (add-zero s.drawn),
          draft_seen scope id expected s.tables made.current made.found made.unchanged,
        ),
        ap (λ (x : Store). shelf x.tables) (sym (return-Returns k1).1) ∙ Edited-shelf made,
      )
  run-Effect (publishing id expected actor) {s} h =
      let (entry, s1, h1, k1) = >->-Returns h in
      let (seen, after) = publish_effect id expected actor h1 in
      (
        (id, released expected) ∷ [],
        (refl, seen),
        ap (λ (x : Store). shelf x.tables) (sym (return-Returns k1).1) ∙ after,
      )
  run-Effect (joint_publication entries actor) {s} h =
      let (found, s1, h1, k1) = >->-Returns h in
      let (effect, after) = publish_many_effect entries actor h1 in
      (
        map release_of entries,
        (refl, effect),
        ap (λ (x : Store). shelf x.tables) (sym (return-Returns k1).1) ∙ after,
      )
  run-Effect (deletion id) h =
      let (existed, s1, h1, k1) = >->-Returns h in
      (
        (id, removed) ∷ [],
        refl,
        ap (λ (x : Store). shelf x.tables) (sym (return-Returns k1).1) ∙ deleted_shelf scope id h1,
      )

  -- Each command, run on any tables, does one of two things. It throws, and the tables are what
  -- they were. Or it returns; then it was allowed (a created entry did not exist, the draft was the
  -- expected one, of every entry of a joint publication what it expects holds), and the drafts and
  -- the publications of all entries of all scopes are those before with the changes of the command:
  -- a creation places the requested id or else the next drawn one, and it and an edit draft the id
  -- that is drawn next.
  pub run-Refines : (command : Command) (s : Store) → Refines engine scope command s
  run-Refines command s = go (run engine scope command s).0 refl
    where
      go :
          (outcome : Result Failure (Unit {0}))
          → (run engine scope command s).0 ≡ outcome
          → Refines engine scope command s
      go (err e) h = inl (e, h, (run-Rolls engine scope command).back s e h)
      go (ok u) h =
          let after : Store = (run engine scope command s).1 in
          let ran : Returns (run engine scope command) s tt after = record {
            run = ap (λ o. (o, after)) h;
          } in
          let (changes, effect, same) = run-Effect command ran in inr (changes, h, effect, same)
