-- ===== src/Content/Integrity.antt =====
-- The pointers of the entries: which tables are well formed, and the changes that keep them so.
use grid_story.Prelude.{
  Member-map, map-Member, Distinct-map, String, Bool, true, false, not, none, some, List, [], ◌∷◌,
  ◌==◌, string_eq, if◌then◌else◌, keep, any, map, ◌≡◌, refl, sym, ap, ◌∙◌, subst, arith, Bool-cases,
  inl, inr, Member, here, there, Member-cons, keep-Member, Member-keep, Distinct, ==-eq, ==_refl,
  any-false_iff,
}
use grid_story.Context.{ContentScope, scope_eq}
use grid_story.Content.{Entry, Revision, Tables}
use grid_story.Content.Statements.{is_entry, update_where}

-- A revision of the entry is stored under the id.
abbrev pub Stored : String → String → List Revision → Type 0
Stored id entry_id revisions =
    (r : Revision) × Member r revisions × (r.id ≡ id) × (r.entry_id ≡ entry_id)

-- The draft of an entry is a stored revision of that entry, and so is what it publishes.
pub record Points (entry : Entry) (revisions : List Revision) : Type 0 where
  pub drafted :
      (draft : String) × (entry.current_draft_revision_id ≡ some draft)
      × Stored draft entry.id revisions
  pub published :
      (id : String) → entry.published_revision_id ≡ some id → Stored id entry.id revisions

abbrev pub ids : List Entry → List String
ids entries = map (λ (e : Entry). e.id) entries

-- The ids of the entries are distinct, and all of them point to revisions of their own.
pub record IsIntact (entries : List Entry) (revisions : List Revision) : Type 0 where
  pub unique : Distinct (ids entries)
  pub pointed : (e : Entry) → Member e entries → Points e revisions

abbrev pub WellFormed : Tables → Type 0
WellFormed tables = IsIntact tables.entries tables.revisions

ids-update_where :
    (test : Entry → Bool) (f : Entry → Entry) (entries : List Entry)
    → ((e : Entry) → (f e).id ≡ e.id)
    → ids (update_where test f entries) ≡ ids entries
ids-update_where test f [] h = refl
ids-update_where test f (e ∷ entries) h = elim (Bool-cases (test e)) [
  | inl t ↦ rw (t, h e, ids-update_where test f entries h) refl
  | inr t ↦ rw (t, ids-update_where test f entries h) refl
]

Stored-more :
    {id entry_id : String} (r : Revision) {revisions : List Revision}
    → Stored id entry_id revisions
    → Stored id entry_id (r ∷ revisions)
Stored-more r (found, m, a, b) = (found, there m, a, b)

pub Points-more :
    {e : Entry} (r : Revision) {revisions : List Revision}
    → Points e revisions
    → Points e (r ∷ revisions)
Points-more r h = record {
  drafted = let (draft, a, b) = h.drafted in (draft, a, Stored-more r b);
  published = λ id e. Stored-more r (h.published id e);
}

-- Changing some rows, so that each points to revisions of its own.
pub update_where-IsIntact :
    (test : Entry → Bool) (f : Entry → Entry) (entries : List Entry) (before after : List Revision)
    → IsIntact entries before
    → ((e : Entry) → (f e).id ≡ e.id)
    → ((e : Entry) → Member e entries → test e ≡ true → Points (f e) after)
    → ((e : Entry) → Points e before → Points e after)
    → IsIntact (update_where test f entries) after
update_where-IsIntact test f entries before after h same changed others = record {
  unique = subst (λ xs. Distinct xs) (sym (ids-update_where test f entries same)) h.unique;
  pointed = λ e m. go e (Member-map (λ row. if test row then f row else row) entries m);
}
  where
    go :
        (e : Entry)
        → (row : Entry) × Member row entries × (e ≡ (if test row then f row else row))
        → Points e after
    go e (row, m, eq) = elim (Bool-cases (test row)) [
      | inl t ↦
          let is_it : e ≡ f row = eq ∙ rw t refl in
          subst (λ x. Points x after) (sym is_it) (changed row m t)
      | inr t ↦
          let is_it : e ≡ row = eq ∙ rw t refl in
          subst (λ x. Points x after) (sym is_it) (others row (h.pointed row m))
    ]

-- A new entry, whose draft is a new revision.
pub insert-IsIntact :
    (new : Entry) (r : Revision) (entries : List Entry) (revisions : List Revision)
    → IsIntact entries revisions
    → any (λ e. e.id == new.id) entries ≡ false
    → new.published_revision_id ≡ none
    → r.entry_id ≡ new.id
    → IsIntact
        (update_where
          (λ e. e.id == new.id)
          (λ e. record e { current_draft_revision_id = some r.id })
          (new ∷ entries))
        (r ∷ revisions)
insert-IsIntact new r entries revisions h free unpublished of_entry = record {
  unique =
      subst (λ xs. Distinct xs)
        (sym (ids-update_where (λ e. e.id == new.id) draw (new ∷ entries) (λ e. refl)))
        (absent, h.unique);
  pointed = λ e m.
      go e (Member-map (λ row. if row.id == new.id then draw row else row) (new ∷ entries) m);
}
  where
    draw : Entry → Entry
    draw e = record e { current_draft_revision_id = some r.id }

    other : (e : Entry) → Member e entries → (e.id == new.id) ≡ false
    other e m = (any-false_iff (λ e. e.id == new.id) entries).0 free e m

    absent : Member new.id (ids entries) → ⊥
    absent m =
        let (e, k, eq) = Member-map (λ (e : Entry). e.id) entries m in
        let same : (e.id == new.id) ≡ true = ap (λ x. x == new.id) (sym eq) ∙ ==_refl new.id in
        cc (sym (other e k) ∙ same)

    fresh : Points (draw new) (r ∷ revisions)
    fresh = record {
      drafted = (r.id, refl, (r, here refl, refl, of_entry));
      published = λ id e. cc (sym unpublished ∙ e);
    }

    go :
        (e : Entry)
        → (row : Entry) × Member row (new ∷ entries)
          × (e ≡ (if row.id == new.id then draw row else row))
        → Points e (r ∷ revisions)
    go e (row, m, eq) = elim (Member-cons m) [
      | inl p ↦
          let is_new : e ≡ draw new =
            eq ∙ ap (λ x. if x.id == new.id then draw x else x) p ∙ rw (==_refl new.id) refl in
          subst (λ x. Points x (r ∷ revisions)) (sym is_new) fresh
      | inr n ↦
          let is_row : e ≡ row = eq ∙ rw (other row n) refl in
          subst (λ x. Points x (r ∷ revisions)) (sym is_row) (Points-more r (h.pointed row n))
    ]

Distinct-keep :
    (p : Entry → Bool) (entries : List Entry)
    → Distinct (ids entries)
    → Distinct (ids (keep p entries))
Distinct-keep p [] d = tt
Distinct-keep p (e ∷ entries) (new, d) = elim (Bool-cases (p e)) [
  | inl t ↦ rw t (λ m. new (still m), Distinct-keep p entries d)
  | inr t ↦ rw t (Distinct-keep p entries d)
]
  where
    still : Member e.id (ids (keep p entries)) → Member e.id (ids entries)
    still m =
        let (row, k, eq) = Member-map (λ (e : Entry). e.id) (keep p entries) m in
        subst (λ x. Member x (ids entries)) (sym eq)
          (map-Member (λ (e : Entry). e.id) entries (keep-Member p entries k).0)

-- Deleting an entry with its revisions.
pub delete-IsIntact :
    (scope : ContentScope) (id : String) (entries : List Entry) (revisions : List Revision)
    (old : Entry)
    → IsIntact entries revisions
    → Member old entries
    → old.scope ≡ scope
    → old.id ≡ id
    → IsIntact
        (keep (λ e. not (is_entry scope id e)) entries)
        (keep (λ r. not (r.entry_id == id)) revisions)
delete-IsIntact scope id entries revisions old h there_is in_scope of_id = record {
  unique = Distinct-keep (λ e. not (is_entry scope id e)) entries h.unique;
  pointed = λ e m.
      let (k, t) = keep-Member (λ e. not (is_entry scope id e)) entries m in
      let points = h.pointed e k in
      record {
        drafted = let (d, a, b) = points.drafted in (d, a, still e k t b);
        published = λ p q. still e k t (points.published p q);
      };
}
  where
    other_id :
        (e : Entry) → Member e entries → not (is_entry scope id e) ≡ true → (e.id == id) ≡ false
    other_id e m t = elim (Bool-cases (e.id == id)) [
      | inl q ↦
          let same_id : e.id ≡ id = ==-eq q in
          let same : e ≡ old =
            Distinct-map (λ (e : Entry). e.id) entries h.unique m there_is (same_id ∙ sym of_id) in
          let is_scope : e.scope ≡ scope = ap (λ (e : Entry). e.scope) same ∙ in_scope in
          let passes : is_entry scope id e ≡ true =
            rw (ap (λ s. s == scope) is_scope ∙ ==_refl scope, q) refl in
          ground (arith, t, passes)
      | inr q ↦ q
    ]

    still :
        {d : String} (e : Entry)
        → Member e entries
        → not (is_entry scope id e) ≡ true
        → Stored d e.id revisions
        → Stored d e.id (keep (λ r. not (r.entry_id == id)) revisions)
    still e m t (r, k, a, b) = (
      r,
      Member-keep (λ r. not (r.entry_id == id)) revisions k
          (ap (λ x. not (x == id)) b ∙ ap not (other_id e m t)),
      a,
      b,
    )
