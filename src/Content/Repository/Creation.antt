-- ===== src/Content/Repository/Creation.antt =====
-- What the creation of an entry leaves in the tables when it returns.
use grid_story.Prelude.{
  ℕ, ◌+◌, suc, arith, Option, none, some, String, ℕ, String, false, Option, none, some, ◌∷◌, ◌==◌,
  string_eq, nat_eq, option_eq, any, ◌≡◌, refl, sym, ap, ◌∙◌, subst, Returns, >->-Returns,
}
use grid_story.Context.{ContentScope, draft}
use grid_story.Routing.Content.{Fields}
use grid_story.Releases.Store.{Actor}
use grid_story.Content.{Entry, Revision, Tables, Store, ContentEntry}
use grid_story.Content.Statements.{fresh_id, Engine, set_first_draft}
use grid_story.Content.Statements.Returns.{
  fresh_id-drawn, write-Returns, return-Returns, transaction-Returns, now-Returns, fresh_id-Returns,
  insert_entry-ok, insert_variant-ok, insert_revision-ok,
}
use grid_story.Content.Repository.{create, place, chosen_id, new_entry, first_revision}
use grid_story.Content.Repository.Commits.{
  entries_of, revisions_of, tables_of, takes_keys, Keeps, recorded-Returns, read_back-Returns,
  update-Returns,
}
use grid_story.Content.Commands.{drawn_ids, entry_id, revision_of}

pub record Created (scope : ContentScope) (id new : String) (before after : Tables) : Type 0 where
  pub entry : Entry
  pub is_it : entry.id ≡ id
  pub in_scope : entry.scope ≡ scope
  pub unpublished : entry.published_revision_id ≡ none
  pub free_id : any (λ e. e.id == entry.id) before.entries ≡ false
  pub revision : Revision
  pub of_entry : revision.entry_id ≡ entry.id
  pub named : revision.id ≡ new
  pub free : any (takes_keys revision) before.revisions ≡ false
  pub revisions : revision ∷ before.revisions ≡ after.revisions
  pub entries :
      entries_of
        (set_first_draft entry.id revision.id (record before { entries = entry ∷ before.entries }))
      ≡ after.entries

place-Returns :
    (scope : ContentScope) (id revision_id content_type : String) (fields : Fields) (actor : Actor)
    (group : Option String) (at : ℕ) {s t : Store} {u : Unit {0}}
    → Returns (place scope id revision_id content_type fields actor group at) s u t
    → Created scope id revision_id s.tables t.tables
unfolding place
place-Returns scope id revision_id content_type fields actor group at {s} {t} h =
    let (entered, s1, h1, k1) = >->-Returns h in
    let (grouped, s2, h2, k2) = >->-Returns k1 in
    let (stored, s3, h3, k3) = >->-Returns k2 in
    let entry = new_entry scope id content_type at in
    let revision = first_revision scope id revision_id fields actor at in
    let (free_id, i1) = insert_entry-ok entry _ (write-Returns _ h1) in
    let (free_group, i2) = insert_variant-ok _ _ (write-Returns _ h2) in
    let (free, i3) = insert_revision-ok revision _ (write-Returns _ h3) in
    let point : Tables → Tables = set_first_draft id revision_id in
    let placed = update-Returns point k3 in
    let same : revisions_of s.tables ≡ revisions_of s2.tables =
      ap revisions_of i1 ∙ ap revisions_of i2 in
    record {
      entry = entry;
      is_it = refl;
      in_scope = refl;
      unpublished = refl;
      free_id = free_id;
      revision = revision;
      of_entry = refl;
      named = refl;
      free = subst (λ x. any (takes_keys revision) x ≡ false) (sym same) free;
      revisions = ap (λ x. revision ∷ x) same ∙ ap revisions_of i3 ∙ ap revisions_of placed;
      entries =
          ap (λ x. entries_of (point x)) i1
          ∙ ap (λ x. entries_of (point x)) i2
          ∙ ap (λ x. entries_of (point x)) i3
          ∙ ap entries_of placed;
    }

-- More statements that keep entries and revisions may follow.
Created-then :
    {scope : ContentScope} {id new : String} {a b c : Tables}
    → Created scope id new a b
    → Keeps b c
    → Created scope id new a c
Created-then h k = record {
  entry = h.entry;
  is_it = h.is_it;
  in_scope = h.in_scope;
  unpublished = h.unpublished;
  free_id = h.free_id;
  revision = h.revision;
  of_entry = h.of_entry;
  named = h.named;
  free = h.free;
  revisions = h.revisions ∙ k.revisions;
  entries = h.entries ∙ k.entries;
}

pub add-zero : (n : ℕ) → n ≡ 0 + n
add-zero n = omega arith

add-one : (n : ℕ) → suc n ≡ 1 + n
add-one n = omega arith

module _ (engine : Engine) where
  chosen_id-Returns :
      (requested : Option String) {s t : Store} {id : String}
      → Returns (chosen_id engine requested) s id t
      → s.tables ≡ t.tables
  unfolding chosen_id
  chosen_id-Returns none h = fresh_id-Returns engine h
  chosen_id-Returns (some id) h = ap tables_of (return-Returns h).1

  -- The requested id, or the next one; and then the next one is that of the revision.
  chosen_id-drawn :
      (requested : Option String) {s t w : Store} {id revision_id : String}
      → Returns (chosen_id engine requested) s id t
      → Returns (fresh_id engine) t revision_id w
      → (id ≡ entry_id requested (drawn_ids engine s))
        × (revision_id ≡ revision_of requested (drawn_ids engine s))
  unfolding chosen_id
  chosen_id-drawn none {s} h k =
      let (first, counted) = fresh_id-drawn engine h in
      (
        sym first ∙ ap (λ n. engine.create_id n) (add-zero s.drawn),
        sym (fresh_id-drawn engine k).0
            ∙ ap (λ n. engine.create_id n) (sym counted ∙ add-one s.drawn),
      )
  chosen_id-drawn (some requested) {s} h k =
      let (same, stays) = return-Returns h in
      (
        sym same,
        sym (fresh_id-drawn engine k).0
            ∙ ap (λ (x : Store). engine.create_id x.drawn) (sym stays)
            ∙ ap (λ n. engine.create_id n) (add-zero s.drawn),
      )

  pub create-Returns :
      (scope : ContentScope) (requested : Option String) (content_type : String) (fields : Fields)
      (actor : Actor) (group : Option String) {s t : Store} {entry : ContentEntry}
      → Returns (create engine scope requested content_type fields actor group) s entry t
      → Created scope
          (entry_id requested (drawn_ids engine s))
          (revision_of requested (drawn_ids engine s))
          s.tables
          t.tables
  unfolding create
  create-Returns scope requested content_type fields actor group {s} {t} h =
      let (id, s1, h1, k1) = >->-Returns h in
      let (revision_id, s2, h2, k2) = >->-Returns k1 in
      let (at, s3, h3, k3) = >->-Returns k2 in
      let (placed, s4, h4, k4) = >->-Returns (transaction-Returns k3) in
      let (audited, s5, h5, k5) = >->-Returns k4 in
      let (emitted, s6, h6, k6) = >->-Returns k5 in
      let base : s.tables ≡ s3.tables =
        chosen_id-Returns requested h1 ∙ fresh_id-Returns engine h2 ∙ now-Returns engine h3 in
      let created =
        Created-then (place-Returns scope id revision_id _ fields actor group at h4)
          (recorded-Returns engine scope _ _ id revision_id fields actor at h5 h6) in
      let (is_it, named) = chosen_id-drawn requested h1 h2 in
      subst (λ i. Created scope i (revision_of requested (drawn_ids engine s)) s.tables t.tables)
        is_it
        (subst (λ r. Created scope id r s.tables t.tables) named
          (subst (λ x. Created scope id revision_id x t.tables) (sym base)
            (subst (λ (x : Store). Created scope id revision_id s3.tables x.tables)
              (read_back-Returns engine scope id draft _ k6) created)))
