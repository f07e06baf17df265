-- ===== src/Content/Shelves.antt =====
-- What the changes of the tables are to the abstract machine.
use grid_story.Prelude.{
  String, Bool, true, false, not, ◌&&◌, Option, none, some, List, ◌∷◌, ◌==◌, string_eq,
  if◌then◌else◌, and_then, find, keep, any, ◌≡◌, refl, sym, ap, ap₂, ◌∙◌, Bool-cases, inl, inr,
  ==_refl, ==_comm, Member, any-false_iff, option_eq,
}
use grid_story.Context.{ContentScope, scope_eq}
use grid_story.Content.{Entry}
use grid_story.Content.Statements.{is_entry, update_where}
use grid_story.Content.Rows.{find-update_where, found_row, find-keep_others}
use grid_story.Content.Commands.{pins_of, shelf_of, Change, placed, removed, changed, apply}

-- Changing the rows of an entry changes its pins.
pub shelf_of-update_where :
    (scope : ContentScope) (id : String) (f : Entry → Entry) (change : Change) (rows : List Entry)
    → ((e : Entry) → (f e).scope ≡ e.scope)
    → ((e : Entry) → (f e).id ≡ e.id)
    → changed change none ≡ none
    → ((e : Entry) → changed change (some (pins_of e)) ≡ some (pins_of (f e)))
    → (other_scope : ContentScope) (other_id : String)
    → shelf_of (update_where (is_entry scope id) f rows) other_scope other_id
      ≡ apply scope (id, change) (shelf_of rows) other_scope other_id
shelf_of-update_where scope id f change rows same_scope same_id absent present s i =
    ap (λ o. and_then o (λ e. some (pins_of e)))
      (find-update_where (is_entry s i) (is_entry scope id) f rows
        (λ e. ap₂ (λ a b. (a == s) && (b == i)) (same_scope e) (same_id e)))
    ∙ go (find (is_entry s i) rows) refl
  where
    go :
        (o : Option Entry)
        → find (is_entry s i) rows ≡ o
        → and_then
            (and_then o (λ e. some (if is_entry scope id e then f e else e)))
            (λ e. some (pins_of e))
          ≡ (if (s == scope) && (i == id)
              then changed change (and_then o (λ e. some (pins_of e)))
              else and_then o (λ e. some (pins_of e)))
    go none h = elim (Bool-cases ((s == scope) && (i == id))) [
      | inl t ↦ rw t (sym absent)
      | inr t ↦ rw t refl
    ]
    go (some e) h =
        let (a, b, m) = found_row s i rows h in
        let same : is_entry scope id e ≡ ((s == scope) && (i == id)) =
          ap₂ (λ x y. (x == scope) && (y == id)) a b in
        elim (Bool-cases ((s == scope) && (i == id))) [
          | inl t ↦ rw (same, t) (sym (present e))
          | inr t ↦ rw (same, t) refl
        ]

-- Deleting them removes it.
pub shelf_of-keep :
    (scope : ContentScope) (id : String) (rows : List Entry) (s : ContentScope) (i : String)
    → shelf_of (keep (λ e. not (is_entry scope id e)) rows) s i
      ≡ apply scope (id, removed) (shelf_of rows) s i
shelf_of-keep scope id rows s i =
    ap (λ o. and_then o (λ e. some (pins_of e))) (find-keep_others scope id s i rows)
    ∙ go ((s == scope) && (i == id))
  where
    go :
        (b : Bool)
        → and_then (if b then none else find (is_entry s i) rows) (λ e. some (pins_of e))
          ≡ (if b then none else shelf_of rows s i)
    go true = refl
    go false = refl

module _ (new : Entry) (revision : String) (rows : List Entry) where
  -- A new entry with its first draft.
  abbrev pub with_new : List Entry
  with_new =
      update_where (λ e. e.id == new.id)
        (λ e. record e { current_draft_revision_id = some revision }) (new ∷ rows)

  absent_id :
      any (λ e. e.id == new.id) rows ≡ false
      → (e : Entry) → Member e rows
      → (e.id == new.id) ≡ false
  absent_id free e m = (any-false_iff (λ e. e.id == new.id) rows).0 free e m

  pub not_yet :
      any (λ e. e.id == new.id) rows ≡ false
      → (scope : ContentScope) → shelf_of rows scope new.id ≡ none
  not_yet free scope = go (find (is_entry scope new.id) rows) refl
    where
      go :
          (o : Option Entry)
          → find (is_entry scope new.id) rows ≡ o
          → and_then o (λ e. some (pins_of e)) ≡ none
      go none h = refl
      go (some e) h =
          let (a, b, m) = found_row scope new.id rows h in
          let other : (e.id == new.id) ≡ false = absent_id free e m in
          let same : (e.id == new.id) ≡ true = ap (λ x. x == new.id) b ∙ ==_refl new.id in
          cc (sym other ∙ same)

  pub shelf_of-with_new :
      any (λ e. e.id == new.id) rows ≡ false
      → new.published_revision_id ≡ none
      → (s : ContentScope) (i : String)
      → shelf_of with_new s i ≡ apply new.scope (new.id, placed revision) (shelf_of rows) s i
  shelf_of-with_new free unpublished s i =
      ap (λ o. and_then o (λ e. some (pins_of e)))
        (find-update_where (is_entry s i) (λ e. e.id == new.id) draw (new ∷ rows) (λ e. refl))
      ∙ go
    where
      draw : Entry → Entry
      draw e = record e { current_draft_revision_id = some revision }

      -- The two queries ask the same of the new row.
      asked : is_entry s i new ≡ ((s == new.scope) && (i == new.id))
      asked = ap₂ (λ a b. a && b) (==_comm new.scope s) (==_comm new.id i)

      old :
          (o : Option Entry)
          → find (is_entry s i) rows ≡ o
          → and_then
              (and_then o (λ e. some (if e.id == new.id then draw e else e)))
              (λ e. some (pins_of e))
            ≡ and_then o (λ e. some (pins_of e))
      old none h = refl
      old (some e) h = let (a, b, m) = found_row s i rows h in rw (absent_id free e m) refl

      go :
          and_then
            (and_then
              (find (is_entry s i) (new ∷ rows))
              (λ e. some (if e.id == new.id then draw e else e)))
            (λ e. some (pins_of e))
          ≡ apply new.scope (new.id, placed revision) (shelf_of rows) s i
      go = elim (Bool-cases (is_entry s i new)) [
        | inl t ↦ rw (t, sym asked ∙ t, ==_refl new.id, unpublished) refl
        | inr t ↦ rw (t, sym asked ∙ t) (old (find (is_entry s i) rows) refl)
      ]
