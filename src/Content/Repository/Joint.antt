-- ===== src/Content/Repository/Joint.antt =====
-- What an operation that is to publish several entries together has found when it starts to write.
use grid_story.Prelude.{
  ℕ, String, false, some, List, [], ◌∷◌, string_eq, and_then-eq-some, map, map_each, ok, Result,
  or_throw, ◌>>◌, throw_if, ◌≡◌, refl, sym, ap, ap₂, ◌∙◌, subst, inl, inr, Member, Member-cons,
  not-Member-nil, >>=-eq-ok, Returns, >->-Returns, option_eq,
}
use grid_story.Context.{ContentScope, ContentPerspective, draft, published, scope_eq}
use grid_story.Releases.Store.{Actor}
use grid_story.Content.{Entry, Revision, EntryRow, ContentEntry, Tables, Store, Failure}
use grid_story.Content.Statements.{
  Engine, find_entry, entry_row, find_revision, revision_row, revision_join, return,
}
use grid_story.Content.Statements.Returns.{
  check-Returns, query-Returns, return-Returns, transaction-Returns, now-Returns, or_throw-eq-ok,
  throw_if-eq-ok,
}
use grid_story.Content.Repository.{
  Publication, Prepared, prepare, publish_all, publish_many, read_all, published_differs,
  differs_from,
}
use grid_story.Content.Repository.Commits.{tables_of, read_back-Returns}

pub some-path {ℓ} : {A : Type ℓ} {a b : A} → some a ≡ some b → a ≡ b
some-path h = cc h

-- The row of an entry, and the pins that the machine sees.
pub row-pins :
    (scope : ContentScope) (id : String) (perspective : ContentPerspective) (tables : Tables)
    {row : EntryRow}
    → entry_row scope id perspective tables ≡ some row
    → find_entry scope id tables ≡ some row.entry
unfolding entry_row
row-pins scope id perspective tables h =
    let (entry, found, joined) = and_then-eq-some (find_entry scope id tables) _ h in
    let (revision_id, pointed, k) = and_then-eq-some (revision_join perspective entry) _ joined in
    let (revision, stored, row) = and_then-eq-some (find_revision revision_id tables) _ k in
    let same : record { entry = entry; fields = revision.fields } ≡ _ = some-path row in
    found ∙ ap (λ (r : EntryRow). some r.entry) same

list_is {ℓ} :
    {A : Type ℓ} {xs ys : List A} → ◌≡◌ {A = Result Failure (List A)} (ok xs) (ok ys) → xs ≡ ys
list_is h = cc h

-- The first loop of `publishMany` let the publication pass.
pub record IsPrepared (scope : ContentScope) (tables : Tables) (c : Prepared) : Type 0 where
  pub seen : entry_row scope c.entry.entry_id draft tables ≡ some c.current
  pub draft_kept :
      differs_from c.entry.expected_draft_revision_id c.current.entry.current_draft_revision_id
      ≡ false
  pub published_kept :
      published_differs c.entry.expected_published_revision_id c.current.entry.published_revision_id
      ≡ false
  pub target : Entry × Revision
  pub target_found :
      revision_row scope c.entry.entry_id c.entry.target_revision_id tables ≡ some target

prepared_is : {a b : Prepared} → ◌≡◌ {A = Result Failure Prepared} (ok a) (ok b) → a ≡ b
prepared_is h = cc h

prepare-IsPrepared :
    (scope : ContentScope) (tables : Tables) (p : Publication) {c : Prepared}
    → prepare scope tables p ≡ ok c
    → (c.entry ≡ p) × IsPrepared scope tables c
unfolding prepare
prepare-IsPrepared scope tables p h =
    let (current, h1, k1) = >>=-eq-ok (or_throw (entry_row scope p.entry_id draft tables) _) _ h in
    let (u, checked, k2) = >>=-eq-ok (throw_if _ _ >> throw_if _ _) _ k1 in
    let (v, h2, h3) = >>=-eq-ok (throw_if _ _) _ checked in
    let (found, h4, k4) =
      >>=-eq-ok (or_throw (revision_row scope p.entry_id p.target_revision_id tables) _) _ k2 in
    let made : Prepared = record { entry = p; current = current; fields = found.1.fields } in
    let is_it = prepared_is {a = made} k4 in
    (
      sym (ap (λ (c : Prepared). c.entry) is_it),
      subst (λ c. IsPrepared scope tables c) is_it
          (record {
            seen = or_throw-eq-ok _ _ h1;
            draft_kept = throw_if-eq-ok _ _ h2;
            published_kept = throw_if-eq-ok _ _ h3;
            target = found;
            target_found = or_throw-eq-ok _ _ h4;
          }),
    )

abbrev pub publications : List Prepared → List Publication
publications candidates = map (λ (c : Prepared). c.entry) candidates

pub prepared_all :
    (scope : ContentScope) (tables : Tables) (entries : List Publication) {cs : List Prepared}
    → map_each (prepare scope tables) entries ≡ ok cs
    → (publications cs ≡ entries) × ((c : Prepared) → Member c cs → IsPrepared scope tables c)
prepared_all scope tables [] h =
    let none_left = list_is h in
    (
      ap publications (sym none_left),
      λ c m. absurd (not-Member-nil (subst (λ xs. Member c xs) (sym none_left) m)),
    )
prepared_all scope tables (p ∷ entries) h =
    let (c, h1, k1) = >>=-eq-ok (prepare scope tables p) _ h in
    let (cs, h2, k2) = >>=-eq-ok (map_each (prepare scope tables) entries) _ k1 in
    let (same, one) = prepare-IsPrepared scope tables p h1 in
    let (rest, all) = prepared_all scope tables entries h2 in
    let whole = list_is k2 in
    (
      ap publications (sym whole) ∙ ap₂ (λ q qs. q ∷ qs) same rest,
      λ d m. elim (Member-cons (subst (λ xs. Member d xs) (sym whole) m)) [
        | inl e ↦ subst (λ r. IsPrepared scope tables r) (sym e) one
        | inr n ↦ all d n
      ],
    )

module _ (engine : Engine) where
  read_all-Returns :
      (scope : ContentScope) (candidates : List Prepared) {s t : Store} {found : List ContentEntry}
      → Returns (read_all engine scope candidates) s found t
      → s ≡ t
  unfolding read_all
  read_all-Returns scope [] h = (return-Returns h).1
  read_all-Returns scope (c ∷ candidates) h =
      let (first, s1, h1, k1) = >->-Returns h in
      let (rest, s2, h2, k2) = >->-Returns k1 in
      read_back-Returns engine scope c.entry.entry_id published _ h1
      ∙ read_all-Returns scope candidates h2
      ∙ (return-Returns k2).1

  -- The second loop runs on what the first one let pass.
  pub record Joint (scope : ContentScope) (actor : Actor) (entries : List Publication) (s t : Store)
      : Type 0 where
    pub candidates : List Prepared
    pub named : publications candidates ≡ entries
    pub checked : (c : Prepared) → Member c candidates → IsPrepared scope s.tables c
    pub at : ℕ
    pub start : Store
    pub unchanged : s.tables ≡ start.tables
    pub looped : Returns (publish_all engine scope actor at candidates) start tt t

  pub publish_many-Returns :
      (scope : ContentScope) (entries : List Publication) (actor : Actor) {s t : Store}
      {found : List ContentEntry}
      → Returns (publish_many engine scope entries actor) s found t
      → Joint scope actor entries s t
  unfolding publish_many publish_all return
  publish_many-Returns scope [] actor {s} {t} h = record {
    candidates = [];
    named = refl;
    checked = λ c m. absurd (not-Member-nil m);
    at = 0;
    start = t;
    unchanged = ap tables_of (return-Returns h).1;
    looped = record { run = refl };
  }
  publish_many-Returns scope (first ∷ rest) actor {s} {t} h =
      let entries = first ∷ rest in
      let (distinct, s1, h1, k1) = >->-Returns h in
      let (outcome, s2, h2, k2) = >->-Returns (transaction-Returns k1) in
      let (cs, s3, h3, k3) = >->-Returns k2 in
      let (at, s4, h4, k4) = >->-Returns k3 in
      let (done, s5, h5, k5) = >->-Returns k4 in
      let e1 = (check-Returns h1).1 in
      let (read, e2) = query-Returns _ h2 in
      let (prepared, e3) = check-Returns h3 in
      let (named, checked) = prepared_all scope s1.tables entries (read ∙ prepared) in
      record {
        candidates = cs;
        named = named;
        checked =
            subst (λ (x : Store). (c : Prepared) → Member c cs → IsPrepared scope x.tables c)
              (sym e1) checked;
        at = at;
        start = s4;
        unchanged = ap tables_of (e1 ∙ e2 ∙ e3) ∙ now-Returns engine h4;
        looped =
            subst (λ x. Returns (publish_all engine scope actor at cs) s4 tt x)
              (read_all-Returns scope cs k5) h5;
      }
