-- ===== src/Content/Progress/Prepared.antt =====
-- Which joint publications the first loop of `publishMany` lets pass, and what they publish.
use grid_story.Prelude.{
  String, true, false, not, ◌&&◌, Option, none, some, List, [], ◌∷◌, ◌==◌, string_eq, option_eq,
  any, map, map_each, ok, ◌≡◌, refl, sym, ap, ◌∙◌, subst, arith, Bool-cases, inl, inr, ◌⊎◌, ==_refl,
  Member, Member-cons, not-Member-nil, find, and_then, and_then-eq-some,
}
use grid_story.Context.{ContentScope, draft, published, scope_eq}
use grid_story.Content.{Entry, Revision, Tables, EntryRow}
use grid_story.Content.Statements.{entry_row, revision_row, find_entry}
use grid_story.Content.Repository.{Publication, Prepared, prepare, differs_from, published_differs}
use grid_story.Content.Repository.Joint.{some-path}
use grid_story.Content.Rows.{found_row}
use grid_story.Content.Integrity.{WellFormed, Stored}
use grid_story.Content.Commands.{
  shelf, Shelf, Pins, pins_of, AllExpected, Expected, apply, apply_all, release_of,
}
use grid_story.Content.Restoration.{concerns}
use grid_story.Content.Progress.{
  Drafted, HasDraft-Drafted, joined, entry_row_is, find_Member, Stored-found,
}

-- The targets of the publications are stored revisions of their entries.
abbrev pub AllStored : List Publication → List Revision → Type 0
AllStored [] revisions = Unit
AllStored (p ∷ ps) revisions =
    Stored p.target_revision_id p.entry_id revisions × AllStored ps revisions

draft_kept :
    (expected actual : Option String)
    → (expected ≡ none) ⊎ (expected ≡ actual)
    → differs_from expected actual ≡ false
draft_kept none actual h = refl
draft_kept (some expected) actual (inl e) = cc e
draft_kept (some expected) actual (inr e) =
    ap (λ o. not (o == some expected)) (sym e) ∙ ap (λ b. not b) (==_refl expected)

published_kept :
    (expected : Option (Option String)) (actual : Option String)
    → (expected ≡ none) ⊎ (expected ≡ some actual)
    → published_differs expected actual ≡ false
published_kept none actual h = refl
published_kept (some expected) actual (inl e) = cc e
published_kept (some expected) actual (inr e) =
    ap (λ o. not (o == expected)) (sym (some-path e)) ∙ ap (λ b. not b) (==_refl expected)

prepare_is :
    (scope : ContentScope) (tables : Tables) (p : Publication) {current : EntryRow}
    {found : Entry × Revision}
    → entry_row scope p.entry_id draft tables ≡ some current
    → differs_from p.expected_draft_revision_id current.entry.current_draft_revision_id ≡ false
    → published_differs p.expected_published_revision_id current.entry.published_revision_id ≡ false
    → revision_row scope p.entry_id p.target_revision_id tables ≡ some found
    → prepare scope tables p ≡ ok (record { entry = p; current = current; fields = found.1.fields })
unfolding prepare
prepare_is scope tables p a b c d = rw (a, b, c, d) refl

-- The first loop lets an expected publication pass.
prepare_passes :
    (scope : ContentScope) (tables : Tables) (p : Publication)
    → WellFormed tables
    → Expected (shelf tables) scope p
    → Stored p.target_revision_id p.entry_id tables.revisions
    → (c : Prepared) × (prepare scope tables p ≡ ok c)
unfolding prepare revision_row
prepare_passes scope tables p sound (pins, seen, draft_same, published_same)
      (r, m, of_id, of_entry) =
    let (entry, found, e) = and_then-eq-some (find_entry scope p.entry_id tables) _ seen in
    let (in_scope, same_id, there_is) = found_row scope p.entry_id tables.entries found in
    let (draft_id, points, stored) = (sound.pointed entry there_is).drafted in
    let d : Drafted scope p.entry_id draft_id tables =
      HasDraft-Drafted tables sound
        (pins_of entry, ap (λ o. and_then o (λ x. some (pins_of x))) found, points) in
    let row = entry_row_is scope p.entry_id draft tables d.found d.drafted d.stored in
    let is_it : d.entry ≡ entry = some-path (sym d.found ∙ found) in
    let same : pins ≡ pins_of d.entry = sym (some-path e) ∙ ap pins_of (sym is_it) in
    let kept = draft_kept p.expected_draft_revision_id d.entry.current_draft_revision_id (
      subst
        (λ (x : Pins).
          (p.expected_draft_revision_id ≡ none) ⊎ (p.expected_draft_revision_id ≡ x.draft))
        same draft_same) in
    let published_too =
      published_kept p.expected_published_revision_id d.entry.published_revision_id (
        subst
          (λ (x : Pins).
            (p.expected_published_revision_id ≡ none)
            ⊎ (p.expected_published_revision_id ≡ some x.published))
          same published_same) in
    let (target, target_found) =
      find_Member (λ x. (x.entry_id == p.entry_id) && (x.id == p.target_revision_id))
        tables.revisions m
        (rw (of_id, of_entry, ==_refl p.entry_id, ==_refl p.target_revision_id) refl) in
    let whole : revision_row scope p.entry_id p.target_revision_id tables ≡ some (entry, target) =
      ap
        (λ o. and_then o (λ x.
          and_then
            (find (λ y. (y.entry_id == p.entry_id) && (y.id == p.target_revision_id))
              tables.revisions)
            (λ y. some (x, y))))
        found
      ∙ ap (λ o. and_then o (λ y. some (entry, y))) target_found in
    (_, prepare_is scope tables p row kept published_too whole)

pub prepare_all :
    (scope : ContentScope) (tables : Tables) (ps : List Publication)
    → WellFormed tables
    → AllExpected (shelf tables) scope ps
    → AllStored ps tables.revisions
    → (cs : List Prepared) × (map_each (prepare scope tables) ps ≡ ok cs)
prepare_all scope tables [] sound expected stored = ([], refl)
prepare_all scope tables (p ∷ ps) sound (first, rest) (one, others) =
    let (c, h) = prepare_passes scope tables p sound first one in
    let (cs, k) = prepare_all scope tables ps sound rest others in (c ∷ cs, rw (h, k) refl)

-- After the publications of an entry it publishes something.
pub published_after :
    (scope : ContentScope) (i : String) (ps : List Publication) (v : Shelf) (pins : Pins)
    → v scope i ≡ some pins
    → (any (concerns scope scope i) ps ≡ true) ⊎ ((x : String) × (pins.published ≡ some x))
    → (after : Pins) × (x : String) × (apply_all scope (map release_of ps) v scope i ≡ some after)
      × (after.published ≡ some x)
published_after scope i [] v pins h (inl none_there) = cc none_there
published_after scope i [] v pins h (inr (x, is_it)) = (pins, x, h, is_it)
published_after scope i (p ∷ ps) v pins h reached = elim (Bool-cases (concerns scope scope i p)) [
  | inl t ↦
      published_after scope i ps (apply scope (release_of p) v)
        (record pins { published = some p.target_revision_id }) (rw (t, h) refl)
        (inr (p.target_revision_id, refl))
  | inr t ↦ published_after scope i ps (apply scope (release_of p) v) pins (rw t h) (elim reached [
    | inl there_is ↦ inl (ground (arith, there_is, t))
    | inr already ↦ inr already
  ])
]

pub concerned :
    (scope : ContentScope) (p : Publication) (ps : List Publication)
    → Member p ps
    → any (concerns scope scope p.entry_id) ps ≡ true
concerned scope p (q ∷ ps) m = elim (Member-cons m) [
  | inl e ↦
      let same : (p.entry_id == q.entry_id) ≡ true =
        ap (λ (x : Publication). p.entry_id == x.entry_id) (sym e) ∙ ==_refl p.entry_id in
      rw (==_refl scope, same) refl
  | inr n ↦ let rest = concerned scope p ps n in ground (arith, rest)
]
concerned scope p [] m = absurd (not-Member-nil m)

pub published_row :
    (scope : ContentScope) (id x : String) (tables : Tables) (pins : Pins)
    → WellFormed tables
    → shelf tables scope id ≡ some pins
    → pins.published ≡ some x
    → (row : EntryRow) × (entry_row scope id published tables ≡ some row)
published_row scope id x tables pins sound seen is_it =
    let (entry, found, e) = and_then-eq-some (find_entry scope id tables) _ seen in
    let (in_scope, of_id, m) = found_row scope id tables.entries found in
    let shown : entry.published_revision_id ≡ some x =
      ap (λ (p : Pins). p.published) (some-path e) ∙ is_it in
    let (revision, stored) = Stored-found tables ((sound.pointed entry m).published x shown) in
    (joined entry revision, entry_row_is scope id published tables found shown stored)
