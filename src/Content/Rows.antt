-- ===== src/Content/Rows.antt =====
-- How `find`, `update_where` and the insertions act on the rows of the tables.
use grid_story.Prelude.{
  String, Bool, true, not, ◌&&◌, Option, none, some, List, [], ◌∷◌, ◌==◌, string_eq, if◌then◌else◌,
  and_then, find, find-some, keep, ◌≡◌, refl, sym, ◌∙◌, Bool-cases, inl, inr, ==-eq, Member,
  and_true,
}
use grid_story.Context.{ContentScope, scope_eq}
use grid_story.Content.{Entry}
use grid_story.Content.Statements.{is_entry, update_where}

-- Changing the rows that pass a test changes what `find` gives, when the change keeps what is
-- looked for.
pub find-update_where {ℓ} :
    {A : Type ℓ} (p test : A → Bool) (change : A → A) (rows : List A)
    → ((a : A) → p (change a) ≡ p a)
    → find p (update_where test change rows)
      ≡ and_then (find p rows) (λ a. some (if test a then change a else a))
find-update_where p test change [] h = refl
find-update_where p test change (a ∷ rows) h = elim (Bool-cases (test a)) [
  | inl t ↦ elim (Bool-cases (p a)) [
    | inl q ↦ rw (t, h a, q, t) refl
    | inr q ↦ rw (t, h a, q) (find-update_where p test change rows h)
  ]
  | inr t ↦ elim (Bool-cases (p a)) [
    | inl q ↦ rw (t, q, t) refl
    | inr q ↦ rw (t, q) (find-update_where p test change rows h)
  ]
]

-- The row that a query finds has the scope and the id that it asks for.
pub found_row :
    (scope : ContentScope) (id : String) (rows : List Entry) {row : Entry}
    → find (is_entry scope id) rows ≡ some row
    → (row.scope ≡ scope) × (row.id ≡ id) × Member row rows
found_row scope id rows {row} h =
    let (passes, m) = find-some (is_entry scope id) rows h in
    let (in_scope, of_id) = and_true (row.scope == scope) (row.id == id) passes in
    (==-eq in_scope, ==-eq of_id, m)

-- Deleting the rows of an entry hides that entry and no other.
pub find-keep_others :
    (scope : ContentScope) (id : String) (other_scope : ContentScope) (other_id : String)
    (rows : List Entry)
    → find (is_entry other_scope other_id) (keep (λ e. not (is_entry scope id e)) rows) ≡ (
        if (other_scope == scope) && (other_id == id)
        then none
        else find (is_entry other_scope other_id) rows)
find-keep_others scope id s i [] = elim (Bool-cases ((s == scope) && (i == id))) [
  | inl t ↦ rw t refl
  | inr t ↦ rw t refl
]
find-keep_others scope id s i (row ∷ rows) =
    let rest = find-keep_others scope id s i rows in
    elim (Bool-cases (is_entry s i row)) [
      | inl p ↦
          let same = same_test p in
          elim (Bool-cases (is_entry scope id row)) [
            | inl q ↦ rw q (rest ∙ hidden _ _ (sym same ∙ q))
            | inr q ↦ rw (q, p, sym same ∙ q) refl
          ]
      | inr p ↦ elim (Bool-cases (is_entry scope id row)) [
        | inl q ↦ rw (q, p) rest
        | inr q ↦ rw (q, p) rest
      ]
    ]
  where
    same_test : is_entry s i row ≡ true → is_entry scope id row ≡ ((s == scope) && (i == id))
    same_test p =
        let (a, b) = and_true (row.scope == s) (row.id == i) p in
        let in_scope : row.scope ≡ s = ==-eq a in
        let of_id : row.id ≡ i = ==-eq b in cc (in_scope, of_id)

    hidden :
        {b : Bool} (x y : Option Entry)
        → b ≡ true
        → (if b then none else x) ≡ (if b then none else y)
    hidden x y t = rw t refl
