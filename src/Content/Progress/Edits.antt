-- ===== src/Content/Progress/Edits.antt =====
-- When the edit of a draft returns.
use grid_story.Prelude.{
  >->_runs, ℕ, suc, String, true, false, ◌&&◌, ◌||◌, some, List, [], ◌∷◌, ◌==◌, string_eq, nat_eq,
  any, ok, ◌≡◌, refl, sym, ap, ◌∙◌, arith, Result, ltb, ltb→lt, ◌<◌, Bool-cases, inl, inr, ◌≤◌,
  Member, Member-cons, not-Member-nil, any-false_iff, Returns, >->-Returns, ==_refl, ◌↔◌,
}
use grid_story.Context.{ContentScope, draft}
use grid_story.Tenancy.{assert_valid_content_scope}
use grid_story.Routing.Content.{Fields}
use grid_story.Releases.Store.{Actor}
use grid_story.Content as C
use grid_story.Content.{Entry, Revision, Tables, Store, ContentEntry, Failure}
use grid_story.Content.Statements.Sequences.{smaller_differs}
use grid_story.Content.Statements.{
  Engine, entry_row, set_draft, find_revision, insert_revision, max_sequence, return,
}
use grid_story.Content.Statements.Progress.{
  query_runs, return_runs, update_runs, write_runs, transaction_runs, now_runs, fresh_id_runs,
  unique_free, with_tables, HasRoom, events_run,
}
use grid_story.Content.Repository.{update_draft}
use grid_story.Content.Repository.Commits.{update_draft-Returns}
use grid_story.Content.Integrity.{WellFormed}
use grid_story.Content.Commands.{edit, run, shelf, HasDraft}
use grid_story.Content.Refinement.{draft_seen}
use grid_story.Content.Progress.{
  Drafted, HasDraft-Drafted, joined, entry_row_is, find_entry_changed, read_back_runs,
  current_draft_runs,
}

not_less : (a b : ℕ) → ltb a b ≡ false → b ≤ a
not_less a b h = ground arith

sequence_bound :
    (id : String) (rows : List Revision) {r : Revision}
    → Member r rows
    → (r.entry_id == id) ≡ true
    → r.sequence ≤ max_sequence id rows
sequence_bound id (x ∷ rows) {r} m of_id = elim (Member-cons m) [
  | inl e ↦
      let same : (x.entry_id == id) ≡ true =
        ap (λ (y : Revision). y.entry_id == id) (sym e) ∙ of_id in
      let here : r.sequence ≡ x.sequence = ap (λ (y : Revision). y.sequence) e in
      larger_here same here
  | inr n ↦ let rest = sequence_bound id rows n of_id in larger_rest rest
]
  where
    larger_here :
        (x.entry_id == id) ≡ true
        → r.sequence ≡ x.sequence
        → r.sequence ≤ max_sequence id (x ∷ rows)
    larger_here same here = elim (Bool-cases (ltb (max_sequence id rows) x.sequence)) [
      | inl t ↦ rw (same, t) (omega (arith, here))
      | inr f ↦ rw (same, f) (let most = not_less _ _ f in omega (arith, here, most))
    ]

    larger_rest : r.sequence ≤ max_sequence id rows → r.sequence ≤ max_sequence id (x ∷ rows)
    larger_rest rest = elim (Bool-cases (x.entry_id == id)) [
      | inl same ↦ elim (Bool-cases (ltb (max_sequence id rows) x.sequence)) [
        | inl t ↦ rw (same, t) (let less = ltb→lt _ _ t in omega (arith, rest, less))
        | inr f ↦ rw (same, f) rest
      ]
      | inr other ↦ rw other rest
    ]
sequence_bound id [] m of_id = absurd (not-Member-nil m)

-- A sequence number after the last one is new, and so is the key with a new id.
keys_free :
    (id revision_id : String) (k : ℕ) (rows : List Revision)
    → max_sequence id rows < k
    → any (λ r. r.id == revision_id) rows ≡ false
    → any (λ r. (r.id == revision_id) || ((r.entry_id == id) && (r.sequence == k))) rows ≡ false
keys_free id revision_id k rows later new =
    (any-false_iff (λ r. (r.id == revision_id) || ((r.entry_id == id) && (r.sequence == k))) rows).1
      (λ r m.
        let other : (r.id == revision_id) ≡ false =
          (any-false_iff (λ x. x.id == revision_id) rows).0 new r m in
        elim (Bool-cases (r.entry_id == id)) [
          | inl t ↦
              let bound = sequence_bound id rows m t in
              rw (other, t) (smaller_differs r.sequence k (omega (arith, bound, later)))
          | inr f ↦ rw (other, f) refl
        ])

module _ (engine : Engine) (scope : ContentScope) (id expected : String) (fields : Fields)
    (actor : Actor) where
  update_draft_runs :
      (s : Store)
      → Drafted scope id expected s.tables
      → assert_valid_content_scope scope ≡ ok scope
      → any (λ r. r.id == engine.create_id s.drawn) s.tables.revisions ≡ false
      → HasRoom engine (record s { drawn = suc s.drawn })
      → (entry : ContentEntry) × (t : Store) × Returns
          (update_draft engine scope id expected fields actor)
          s
          entry
          t
  unfolding update_draft entry_row insert_revision
  update_draft_runs s d valid new room =
      let at = engine.time s.readings in
      let revision_id = engine.create_id s.drawn in
      let change : Entry → Entry =
        λ e. record e { current_draft_revision_id = some revision_id; updated_at = at } in
      let row : Revision = record {
        id = revision_id;
        entry_id = id;
        tenant_id = scope.tenant_id;
        sequence = suc (max_sequence id s.tables.revisions);
        base_revision_id = some expected;
        actor_id = actor.id;
        fields = fields;
        created_at = at;
      } in
      let s1 : Store = record s { drawn = suc s.drawn } in
      let s2 : Store = record s1 { readings = suc s.readings } in
      let s3 = with_tables (record s.tables { revisions = row ∷ s.tables.revisions }) s2 in
      let s4 = with_tables (set_draft scope id revision_id at s3.tables) s3 in
      let (s5, s6, audits, emits, rec) =
        events_run engine scope id actor C.draft_updated revision_id at d.entry.content_type fields
          s4 valid (record { audit_free = room.audit_free; outbox_free = room.outbox_free }) in
      let drafted = entry_row_is scope id draft s.tables d.found d.drafted d.stored in
      let changed =
        find_entry_changed scope id change s.tables.entries (λ e. refl) (λ e. refl) d.found in
      let stored : find_revision revision_id s4.tables ≡ some row = rw (==_refl revision_id) refl in
      let shown = entry_row_is scope id draft s4.tables changed refl stored in
      let back : entry_row scope id draft s6.tables ≡ some (joined (change d.entry) row) =
        ap (entry_row scope id draft) (sym rec.tables) ∙ shown in
      (
        _,
        s6,
        transaction_runs (
            >->_runs _ (current_draft_runs engine scope id expected _ s drafted d.drafted) (
              >->_runs _ (query_runs _ s) (
                >->_runs _ (fresh_id_runs engine s) (
                  >->_runs _ (now_runs engine s1) (
                    >->_runs _
                      (write_runs (insert_revision row) s2 (
                        unique_free "revisions" _ (keys_free id revision_id _ _ (omega arith) new)))
                      (>->_runs _ (update_runs (set_draft scope id revision_id at) s3) (
                        >->_runs _ audits
                          (>->_runs _ emits (read_back_runs scope id draft _ s6 back))))))))),
      )

  -- On well formed tables, in a scope whose fields are proper, and with new ids for the revision and
  -- the two events, the edit of a draft returns exactly when the entry has the expected draft.
  pub update_draft_returns_iff :
      (s : Store)
      → WellFormed s.tables
      → assert_valid_content_scope scope ≡ ok scope
      → any (λ r. r.id == engine.create_id s.drawn) s.tables.revisions ≡ false
      → HasRoom engine (record s { drawn = suc s.drawn })
      → ((run engine scope (edit id expected fields actor) s).0 ≡ ok tt)
        ↔ HasDraft (shelf s.tables) scope id expected
  unfolding run
  update_draft_returns_iff s sound valid new room = (
    λ h.
        let ran : Returns (run engine scope (edit id expected fields actor)) s tt
            (run engine scope (edit id expected fields actor) s).1 =
          record {
            run = ap (λ o. (o, (run engine scope (edit id expected fields actor) s).1)) h;
          } in
        let (entry, t, edited, rest) = >->-Returns ran in
        let found = update_draft-Returns engine scope id expected fields actor edited in
        draft_seen scope id expected s.tables found.current found.found found.unchanged,
    λ h.
        let (entry, t, ran) =
          update_draft_runs s (HasDraft-Drafted s.tables sound h) valid new room in
        ap (λ (p : Result Failure (Unit {0}) × Store). p.0)
          (>->_runs (λ e. return tt) ran (return_runs tt t)).run,
  )
