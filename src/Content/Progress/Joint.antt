-- ===== src/Content/Progress/Joint.antt =====
-- When a joint publication returns.
use grid_story.Prelude.{
  >->_runs, ℕ, suc, false, some, List, [], ◌∷◌, string_eq, option_eq, map, ok, ◌≡◌, refl, ap, ◌∙◌,
  subst, Result, inl, Returns, >->-Returns, ◌↔◌, Member, here, there, map-Member,
}
use grid_story.Context.{ContentScope, published, scope_eq}
use grid_story.Tenancy.{assert_valid_content_scope}
use grid_story.Releases.Store.{Actor}
use grid_story.Content as C
use grid_story.Content.{Entry, Revision, Tables, Store, EntryRow, ContentEntry, Failure}
use grid_story.Content.Statements.{Engine, entry_row, set_published, return}
use grid_story.Content.Statements.Returns.{check-Returns, throw_if-eq-ok}
use grid_story.Content.Statements.Progress.{
  query_runs, check_runs, return_runs, update_runs, transaction_runs, now_runs, with_tables,
  events_run, IsFresh, IsFresh-HasRoom, Recorded-IsFresh,
}
use grid_story.Content.Repository.{
  Publication, Prepared, publish_one, publish_all, publish_many, read_all, has_duplicate,
}
use grid_story.Content.Repository.Joint.{
  prepared_all, publish_many-Returns, IsPrepared, publications,
}
use grid_story.Content.Integrity.{WellFormed}
use grid_story.Content.Soundness.{publish_all-WellFormed, target-Stored}
use grid_story.Content.Commands.{joint_publication, run, shelf, Shelf, AllExpected}
use grid_story.Content.Refinement.{all_expected, prepared-Expected, shelf-publish_all}
use grid_story.Content.Progress.{read_back_runs}
use grid_story.Content.Progress.Prepared.{
  AllStored, prepare_all, published_after, concerned, published_row,
}

module _ (engine : Engine) (scope : ContentScope) (actor : Actor) where
  publish_one_runs :
      (at : ℕ) (c : Prepared) (s : Store)
      → assert_valid_content_scope scope ≡ ok scope
      → IsFresh engine s
      → (t : Store) × Returns (publish_one engine scope actor at c) s tt t × IsFresh engine t
  unfolding publish_one
  publish_one_runs at c s valid fresh =
      let s1 =
        with_tables (set_published scope c.entry.entry_id c.entry.target_revision_id at s.tables)
          s in
      let still : IsFresh engine s1 = record {
        distinct = fresh.distinct;
        audit_free = fresh.audit_free;
        outbox_free = fresh.outbox_free;
      } in
      let (s2, s3, audits, emits, rec) =
        events_run engine scope c.entry.entry_id actor C.published c.entry.target_revision_id at
          c.current.entry.content_type c.fields s1 valid (IsFresh-HasRoom engine s1 still) in
      (
        s3,
        >->_runs _
            (update_runs (set_published scope c.entry.entry_id c.entry.target_revision_id at) s)
            (>->_runs _ audits emits),
        Recorded-IsFresh engine rec still,
      )

  publish_all_runs :
      (at : ℕ) (cs : List Prepared) (s : Store)
      → assert_valid_content_scope scope ≡ ok scope
      → IsFresh engine s
      → (t : Store) × Returns (publish_all engine scope actor at cs) s tt t × IsFresh engine t
  unfolding publish_all
  publish_all_runs at [] s valid fresh = (s, return_runs tt s, fresh)
  publish_all_runs at (c ∷ cs) s valid fresh =
      let (s1, first, still) = publish_one_runs at c s valid fresh in
      let (t, rest, left) = publish_all_runs at cs s1 valid still in
      (t, >->_runs _ first rest, left)

  read_all_runs :
      (cs : List Prepared) (s : Store)
      → ((c : Prepared)
          → Member c cs
          → (row : EntryRow) × (entry_row scope c.entry.entry_id published s.tables ≡ some row))
      → (found : List ContentEntry) × Returns (read_all engine scope cs) s found s
  unfolding read_all
  read_all_runs [] s h = ([], return_runs [] s)
  read_all_runs (c ∷ cs) s h =
      let (row, shown) = h c (here refl) in
      let (rest, ran) = read_all_runs cs s (λ d m. h d (there m)) in
      (
        _,
        >->_runs _ (read_back_runs scope c.entry.entry_id published _ s shown)
            (>->_runs _ ran (return_runs _ s)),
      )

  -- What a joint publication needs.
  pub record IsReady (entries : List Publication) (s : Store) : Type 0 where
    pub distinct : has_duplicate (map (λ (p : Publication). p.entry_id) entries) ≡ false
    pub expected : AllExpected (shelf s.tables) scope entries
    pub stored : AllStored entries s.tables.revisions

  pub publish_many_runs :
      (entries : List Publication) (s : Store)
      → WellFormed s.tables
      → assert_valid_content_scope scope ≡ ok scope
      → IsFresh engine s
      → IsReady entries s
      → (found : List ContentEntry) × (t : Store) × Returns
          (publish_many engine scope entries actor)
          s
          found
          t
        × IsFresh engine t
  unfolding publish_many
  publish_many_runs [] s sound valid fresh ready = ([], s, return_runs [] s, fresh)
  publish_many_runs (first ∷ rest) s sound valid fresh ready =
      let entries = first ∷ rest in
      let (cs, prepares) = prepare_all scope s.tables entries sound ready.expected ready.stored in
      let (named, checked) = prepared_all scope s.tables entries prepares in
      let at = engine.time s.readings in
      let s1 : Store = record s { readings = suc s.readings } in
      let still : IsFresh engine s1 = record {
        distinct = fresh.distinct;
        audit_free = fresh.audit_free;
        outbox_free = fresh.outbox_free;
      } in
      let (t, loops, left) = publish_all_runs at cs s1 valid still in
      let sound_after : WellFormed t.tables =
        publish_all-WellFormed engine scope actor at cs loops
          (λ c m. target-Stored scope s.tables c (checked c m)) sound in
      let (found, reads) = read_all_runs cs t (λ c m.
        let (pins, seen, drafts, pubs) = prepared-Expected scope s.tables c (checked c m) in
        let (after, x, there_is, is_it) =
          published_after scope c.entry.entry_id (publications cs) (shelf s.tables) pins seen (
            inl (
              concerned scope c.entry (publications cs)
                (map-Member (λ (d : Prepared). d.entry) cs m))) in
        published_row scope c.entry.entry_id x t.tables after sound_after
          (ap (λ (v : Shelf). v scope c.entry.entry_id)
              (shelf-publish_all engine scope actor at cs loops)
            ∙ there_is)
          is_it) in
      (
        found,
        t,
        >->_runs _ (check_runs {a = tt} s (rw ready.distinct refl)) (
            transaction_runs (
              >->_runs _ (query_runs _ s) (
                >->_runs _ (check_runs {a = cs} s prepares)
                  (>->_runs _ (now_runs engine s) (>->_runs _ loops reads))))),
        left,
      )

  pub distinct_entries :
      (entries : List Publication) {s t : Store} {found : List ContentEntry}
      → Returns (publish_many engine scope entries actor) s found t
      → has_duplicate (map (λ (p : Publication). p.entry_id) entries) ≡ false
  unfolding publish_many
  distinct_entries [] h = refl
  distinct_entries (first ∷ rest) h =
      let (distinct, s1, h1, k1) = >->-Returns h in throw_if-eq-ok _ _ (check-Returns h1).0

  all_stored :
      (tables : Tables) (cs : List Prepared)
      → ((c : Prepared) → Member c cs → IsPrepared scope tables c)
      → AllStored (publications cs) tables.revisions
  all_stored tables [] h = tt
  all_stored tables (c ∷ cs) h =
      (target-Stored scope tables c (h c (here refl)), all_stored tables cs (λ d m. h d (there m)))

  -- On well formed tables, in a scope whose fields are proper, and when the ids to come are not drawn
  -- twice and no event has them, a joint
  -- publication returns exactly when its entries are distinct, hold what it expects of each, and
  -- have the revisions that it is to publish.
  pub publish_many_returns_iff :
      (entries : List Publication) (s : Store)
      → WellFormed s.tables
      → assert_valid_content_scope scope ≡ ok scope
      → IsFresh engine s
      → ((run engine scope (joint_publication entries actor) s).0 ≡ ok tt) ↔ IsReady entries s
  unfolding run
  publish_many_returns_iff entries s sound valid fresh = (
    λ h.
        let ran : Returns (run engine scope (joint_publication entries actor)) s tt
            (run engine scope (joint_publication entries actor) s).1 =
          record {
            run = ap (λ o. (o, (run engine scope (joint_publication entries actor) s).1)) h;
          } in
        let (found, t, all_published, rest) = >->-Returns ran in
        let joint = publish_many-Returns engine scope entries actor all_published in
        record {
          distinct = distinct_entries entries all_published;
          expected =
              subst (λ ps. AllExpected (shelf s.tables) scope ps) joint.named
                (all_expected scope s.tables joint.candidates joint.checked);
          stored =
              subst (λ ps. AllStored ps s.tables.revisions) joint.named
                (all_stored s.tables joint.candidates joint.checked);
        },
    λ ready.
        let (found, t, ran, left) = publish_many_runs entries s sound valid fresh ready in
        ap (λ (p : Result Failure (Unit {0}) × Store). p.0)
          (>->_runs (λ e. return tt) ran (return_runs tt t)).run,
  )
