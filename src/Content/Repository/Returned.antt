-- ===== src/Content/Repository/Returned.antt =====
-- packages/core/src/sqlite-repository.ts: the entries that a joint publication returns.
use grid_story.Prelude.{String, List, [], ◌∷◌, map, ◌≡◌, sym, ap, ap₂, ◌∙◌, Returns, >->-Returns}
use grid_story.Context.{ContentScope, ContentPerspective, published}
use grid_story.Releases.Store.{Actor}
use grid_story.Content.{ContentEntry, Store, to_entry}
use grid_story.Content.Rows.{found_row}
use grid_story.Content.Statements.{Engine}
use grid_story.Content.Statements.Returns.{
  check-Returns, query-Returns, return-Returns, transaction-Returns, or_throw-eq-ok,
}
use grid_story.Content.Repository.{Publication, Prepared, read_back, read_all, publish_many}
use grid_story.Content.Repository.Joint.{row-pins, publications, prepared_all}

abbrev pub entry_ids : List ContentEntry → List String
entry_ids entries = map (λ (e : ContentEntry). e.id) entries

read_back-id :
    (scope : ContentScope) (id : String) (perspective : ContentPerspective) (message : String)
    {s t : Store} {found : ContentEntry}
    → Returns (read_back scope id perspective message) s found t
    → found.id ≡ id
unfolding to_entry
read_back-id scope id perspective message {s} h =
    let (row, s1, h1, k1) = >->-Returns h in
    let (current, s2, h2, k2) = >->-Returns k1 in
    let (read, e1) = query-Returns _ h1 in
    let (kept, e2) = check-Returns h2 in
    let seen = read ∙ or_throw-eq-ok row _ kept in
    let (in_scope, of_id, m) =
      found_row scope id s.tables.entries (row-pins scope id perspective s.tables seen) in
    ap (λ (e : ContentEntry). e.id) (sym (return-Returns k2).0) ∙ of_id

module _ (engine : Engine) where
  read_all-ids :
      (scope : ContentScope) (candidates : List Prepared) {s t : Store} {found : List ContentEntry}
      → Returns (read_all engine scope candidates) s found t
      → entry_ids found ≡ map (λ (p : Publication). p.entry_id) (publications candidates)
  unfolding read_all
  read_all-ids scope [] h = ap entry_ids (sym (return-Returns h).0)
  read_all-ids scope (c ∷ candidates) h =
      let (first, s1, h1, k1) = >->-Returns h in
      let (rest, s2, h2, k2) = >->-Returns k1 in
      ap entry_ids (sym (return-Returns k2).0)
      ∙ ap₂ (λ id ids. id ∷ ids) (read_back-id scope c.entry.entry_id published _ h1)
          (read_all-ids scope candidates h2)

  -- The entries that are returned are those of the publications, one by one.
  pub publish_many-ids :
      (scope : ContentScope) (entries : List Publication) (actor : Actor) {s t : Store}
      {found : List ContentEntry}
      → Returns (publish_many engine scope entries actor) s found t
      → entry_ids found ≡ map (λ (p : Publication). p.entry_id) entries
  unfolding publish_many
  publish_many-ids scope [] actor h = ap entry_ids (sym (return-Returns h).0)
  publish_many-ids scope (first ∷ rest) actor h =
      let (distinct, s1, h1, k1) = >->-Returns h in
      let (outcome, s2, h2, k2) = >->-Returns (transaction-Returns k1) in
      let (cs, s3, h3, k3) = >->-Returns k2 in
      let (at, s4, h4, k4) = >->-Returns k3 in
      let (done, s5, h5, k5) = >->-Returns k4 in
      let (read, e2) = query-Returns _ h2 in
      let (prepared, e3) = check-Returns h3 in
      let (named, checked) = prepared_all scope s1.tables (first ∷ rest) (read ∙ prepared) in
      read_all-ids scope cs k5 ∙ ap (map (λ (p : Publication). p.entry_id)) named
