-- ===== src/Content/Progress/Undo.antt =====
-- The publications of a rollback, on the tables that the release has left.
use grid_story.Prelude.{
  >->_runs, ℕ, String, Bool, true, false, ◌&&◌, ◌||◌, some, List, [], ◌∷◌, ◌==◌, string_eq,
  option_eq, is_some, or_else, any, all, contains, map, ok, ◌≡◌, refl, sym, ap, ◌∙◌, subst, arith,
  Result, Bool-cases, Option-cases, inl, inr, Returns, >->-Returns, ==_refl, ==_comm, Member,
  Member-cons, not-Member-nil, here, there, map-Member, and_true, and_then-eq-some,
}
use grid_story.Context.{ContentScope, scope_eq}
use grid_story.Tenancy.{assert_valid_content_scope}
use grid_story.Releases.{ReleaseMember}
use grid_story.Releases.Store.{Actor}
use grid_story.Content.{Tables, Store, ContentEntry, Failure}
use grid_story.Content.Statements.{Engine, find_entry, return}
use grid_story.Content.Statements.Returns.{return-Returns}
use grid_story.Content.Statements.Progress.{return_runs, IsFresh}
use grid_story.Content.Repository.{Publication, Prepared, publish_all, publish_many, has_duplicate}
use grid_story.Content.Repository.Commits.{publish_one-Returns, revisions_of}
use grid_story.Content.Repository.Joint.{publish_many-Returns, some-path}
use grid_story.Content.Rows.{found_row}
use grid_story.Content.Integrity.{WellFormed, Stored}
use grid_story.Content.Soundness.{publish_many-WellFormed}
use grid_story.Content.Refinement.{publish_many_effect}
use grid_story.Content.Commands.{run, shelf, Shelf, Pins, AllExpected, apply, apply_all, release_of}
use grid_story.Content.Restoration.{concerns, unconcerned, has_previous, previous_is}
use grid_story.Content.Service.Joint.{forward, backward}
use grid_story.Content.Progress.Prepared.{AllStored}
use grid_story.Content.Progress.Joint.{
  IsReady, publish_many_runs, publish_many_returns_iff, distinct_entries,
}

abbrev ids_of : List Publication → List String
ids_of ps = map (λ (p : Publication). p.entry_id) ps

neither : (a b : Bool) → (a || b) ≡ false → (a ≡ false) × (b ≡ false)
neither a b h = (ground (arith, h), ground (arith, h))

not_concerned :
    (scope : ContentScope) (id : String) (ps : List Publication)
    → contains (ids_of ps) id ≡ false
    → any (concerns scope scope id) ps ≡ false
not_concerned scope id [] h = refl
not_concerned scope id (p ∷ ps) h =
    let (first, rest) = neither (p.entry_id == id) _ h in
    rw (==_comm id p.entry_id ∙ first, not_concerned scope id ps rest) (no_other (scope == scope))
  where
    no_other : (b : Bool) → (b && false || false) ≡ false
    no_other b = ground arith

-- Publications of distinct entries publish their own targets.
published_exactly :
    (scope : ContentScope) (p : Publication) (ps : List Publication) (v : Shelf) (pins : Pins)
    → has_duplicate (ids_of ps) ≡ false
    → Member p ps
    → v scope p.entry_id ≡ some pins
    → (after : Pins) × (apply_all scope (map release_of ps) v scope p.entry_id ≡ some after)
      × (after.published ≡ some p.target_revision_id)
published_exactly scope p (q ∷ ps) v pins distinct m seen = elim (Member-cons m) [
  | inl e ↦
      subst
        (λ (x : Publication).
          v scope x.entry_id ≡ some pins
          → (after : Pins) × (apply_all scope (map release_of ps) (apply scope (release_of q) v)
                scope x.entry_id
              ≡ some after)
            × (after.published ≡ some x.target_revision_id))
        (sym e)
        (λ found. (
          record pins { published = some q.target_revision_id },
          unconcerned scope scope q.entry_id ps _
                (not_concerned scope q.entry_id ps (neither _ _ distinct).0)
              ∙ rw (==_refl scope, ==_refl q.entry_id, found) refl,
          refl,
        ))
        seen
  | inr n ↦
      let rest = (neither (contains (ids_of ps) q.entry_id) _ distinct).1 in
      elim (Bool-cases (concerns scope scope p.entry_id q)) [
        | inl t ↦
            published_exactly scope p ps (apply scope (release_of q) v)
              (record pins { published = some q.target_revision_id }) rest n (rw (t, seen) refl)
        | inr f ↦
            published_exactly scope p ps (apply scope (release_of q) v) pins rest n (rw f seen)
      ]
]
published_exactly scope p [] v pins distinct m seen = absurd (not-Member-nil m)

same_ids :
    (members : List ReleaseMember) → ids_of (map forward members) ≡ ids_of (map backward members)
same_ids [] = refl
same_ids (m ∷ members) = ap (λ ids. m.entry_id ∷ ids) (same_ids members)

-- The rollback finds what the release has published.
back_expected :
    (scope : ContentScope) (v w : Shelf) (members rest : List ReleaseMember)
    → ((m : ReleaseMember) → Member m rest → Member m members)
    → has_duplicate (ids_of (map forward members)) ≡ false
    → AllExpected v scope (map forward rest)
    → w ≡ apply_all scope (map release_of (map forward members)) v
    → AllExpected w scope (map backward rest)
back_expected scope v w members [] within distinct expected moved = tt
back_expected scope v w members (m ∷ rest) within distinct ((pins, seen, drafts, pubs), others)
      moved =
    let (after, there_is, shown) =
      published_exactly scope (forward m) (map forward members) v pins distinct
        (map-Member forward members (within m (here refl))) seen in
    (
      (
        after,
        ap (λ (x : Shelf). x scope m.entry_id) moved ∙ there_is,
        inl refl,
        inr (ap some (sym shown)),
      ),
      back_expected scope v w members rest (λ x n. within x (there n)) distinct others moved,
    )

-- What was published before is stored.
back_stored :
    (scope : ContentScope) (tables : Tables) (members : List ReleaseMember)
    → WellFormed tables
    → AllExpected (shelf tables) scope (map forward members)
    → all has_previous members ≡ true
    → AllStored (map backward members) tables.revisions
back_stored scope tables [] sound expected h = tt
back_stored scope tables (m ∷ members) sound ((pins, seen, drafts, pubs), others) h =
    let (one, rest) = and_true (has_previous m) (all has_previous members) h in
    let (entry, found, e) = and_then-eq-some (find_entry scope m.entry_id tables) _ seen in
    let (in_scope, of_id, there_is) = found_row scope m.entry_id tables.entries found in
    (
      elim (Option-cases m.previous_published_revision_id) [
        | inl absent ↦ absurd (ground (arith, sym one ∙ ap is_some absent))
        | inr (target, is_it) ↦
            let shown : entry.published_revision_id ≡ some target =
              ap (λ (x : Pins). x.published) (some-path e)
              ∙ sym (previous_is m pins pubs)
              ∙ is_it in
            let stored : Stored target m.entry_id tables.revisions =
              subst (λ x. Stored target x tables.revisions) of_id
                ((sound.pointed entry there_is).published target shown) in
            subst (λ o. Stored (or_else o "") m.entry_id tables.revisions) (sym is_it) stored
      ],
      back_stored scope tables members sound others rest,
    )

module _ (engine : Engine) (scope : ContentScope) where
  publish_all_revisions :
      (actor : Actor) (at : ℕ) (cs : List Prepared) {s t : Store} {u : Unit {0}}
      → Returns (publish_all engine scope actor at cs) s u t
      → s.tables.revisions ≡ t.tables.revisions
  unfolding publish_all
  publish_all_revisions actor at [] h = ap (λ (x : Store). x.tables.revisions) (return-Returns h).1
  publish_all_revisions actor at (c ∷ cs) h =
      let (done, s1, h1, k1) = >->-Returns h in
      (publish_one-Returns engine scope actor at c h1).revisions
      ∙ publish_all_revisions actor at cs k1

  -- A joint publication that returns leaves what the next one needs.
  pub publish_many_leaves :
      (entries : List Publication) (actor : Actor) {s t : Store} {found : List ContentEntry}
      → Returns (publish_many engine scope entries actor) s found t
      → WellFormed s.tables
      → assert_valid_content_scope scope ≡ ok scope
      → IsFresh engine s
      → WellFormed t.tables × IsFresh engine t × (s.tables.revisions ≡ t.tables.revisions)
  unfolding run
  publish_many_leaves entries actor {s} {t} h sound valid fresh =
      let joint = publish_many-Returns engine scope entries actor h in
      let outcome = (>->_runs (λ e. return tt) h (return_runs tt t)).run in
      let ready =
        (publish_many_returns_iff engine scope actor entries s sound valid fresh).0
          (ap (λ (p : Result Failure (Unit {0}) × Store). p.0) outcome) in
      let (again, t', ran, left) =
        publish_many_runs engine scope actor entries s sound valid fresh ready in
      (
        publish_many-WellFormed engine scope entries actor h sound,
        subst (λ x. IsFresh engine x)
            (ap (λ (p : Result Failure (List ContentEntry) × Store). p.1) (sym ran.run ∙ h.run))
            left,
        ap revisions_of joint.unchanged
            ∙ publish_all_revisions actor joint.at joint.candidates joint.looped,
      )

  -- After a release is published, the publications of its rollback are ready.
  pub backward-IsReady :
      (members : List ReleaseMember) (actor other : Actor) {s t : Store} {found : List ContentEntry}
      → Returns (publish_many engine scope (map forward members) actor) s found t
      → WellFormed s.tables
      → all has_previous members ≡ true
      → IsReady engine scope other (map backward members) t
  backward-IsReady members actor other {s} {t} h sound previous =
      let joint = publish_many-Returns engine scope (map forward members) actor h in
      let (expected, moved) = publish_many_effect engine scope (map forward members) actor h in
      let distinct = distinct_entries engine scope actor (map forward members) h in
      let kept : s.tables.revisions ≡ t.tables.revisions =
        ap revisions_of joint.unchanged
        ∙ publish_all_revisions actor joint.at joint.candidates joint.looped in
      record {
        distinct = ap has_duplicate (sym (same_ids members)) ∙ distinct;
        expected =
            back_expected scope (shelf s.tables) (shelf t.tables) members members (λ m n. n)
              distinct expected moved;
        stored =
            subst (λ rs. AllStored (map backward members) rs) kept
              (back_stored scope s.tables members sound expected previous);
      }
