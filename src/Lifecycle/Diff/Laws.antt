-- ===== src/Lifecycle/Diff/Laws.antt =====
-- Counting the risks of a list of changes, and maps of documents.
use grid_story.Prelude.{
  ◌+◌, String, ◌≡◌, refl, ap, inl, inr, Bool, true, false, ◌&&◌, not, some, List, [], ◌∷◌, map,
  arith, Member, not-Member-nil, Member-cons, lookup, insert, insert_all, has_key, any, nat_beq,
  length, ◌==◌, string_eq, eq_iff,
}
use grid_story.Lifecycle.Changes.{SchemaChange, safe, destructive}
use grid_story.Lifecycle.Diff.{RiskSummary, count_one, count_risks, index_by}

abbrev pub destroys : SchemaChange → Bool
destroys c = elim c.risk [ destructive ↦ true | _ ↦ false ]

abbrev pub needs_review : SchemaChange → Bool
needs_review c = elim c.risk [ safe ↦ false | _ ↦ true ]

pub destructive_count-zero :
    (s : RiskSummary) (cs : List SchemaChange)
    → nat_beq (count_risks s cs).destructive_count 0
      ≡ (nat_beq s.destructive_count 0 && not (any destroys cs))
unfolding count_risks
destructive_count-zero s [] = ground arith
destructive_count-zero s (c ∷ cs) = ground (arith, destructive_count-zero (count_one c.risk s) cs)

pub count_risks-total :
    (s : RiskSummary) (cs : List SchemaChange)
    → (count_risks s cs).safe_count
        + (count_risks s cs).backfill_count
        + (count_risks s cs).destructive_count
      ≡ s.safe_count + s.backfill_count + s.destructive_count + length cs
unfolding count_risks
count_risks-total s [] = omega arith
count_risks-total s (c ∷ cs) = ground (arith, count_risks-total (count_one c.risk s) cs)

module _ {ℓ} {V : Type ℓ} where
  -- A map finds each of its entries, if no key occurs twice.
  abbrev pub KeysDistinct : List (String × V) → Type 0
  KeysDistinct [] = Unit
  KeysDistinct ((k, v) ∷ m) = (has_key k m ≡ false) × KeysDistinct m

  insert-KeysDistinct :
      (k : String) (v : V) (m : List (String × V)) → KeysDistinct m → KeysDistinct (insert k v m)
  insert-KeysDistinct k v [] d = (refl, tt)
  insert-KeysDistinct k v ((j, w) ∷ m) d =
      ground (arith, insert-KeysDistinct k v m d.1, absent k j v m, eq_iff j k)
    where
      absent :
          (k j : String) (v : V) (m : List (String × V))
          → (j == k) ≡ false
          → has_key j m ≡ false
          → has_key j (insert k v m) ≡ false
      absent k j v [] n h = ground (arith, eq_iff k j, eq_iff j k)
      absent k j v ((i, w) ∷ m) n h =
          ground (arith, absent k j v m n, eq_iff i k, eq_iff i j, eq_iff j k)

  insert_all-KeysDistinct :
      (m es : List (String × V)) → KeysDistinct m → KeysDistinct (insert_all m es)
  insert_all-KeysDistinct m [] d = d
  insert_all-KeysDistinct m ((k, v) ∷ es) d =
      insert_all-KeysDistinct (insert k v m) es (insert-KeysDistinct k v m d)

  pub index_by-KeysDistinct :
      (id : V → String) (values : List V) → KeysDistinct (index_by id values)
  unfolding index_by
  index_by-KeysDistinct id values = insert_all-KeysDistinct [] (map (λ v. (id v, v)) values) tt

  Member-has_key :
      (k : String) (v : V) (m : List (String × V)) → Member (k, v) m → has_key k m ≡ true
  Member-has_key k v [] h = absurd (not-Member-nil h)
  Member-has_key k v ((j, w) ∷ m) h = elim (Member-cons h) [
    | inl e ↦ let same : k ≡ j = ap (λ (q : String × V). q.0) e in ground (arith, eq_iff j k)
    | inr n ↦ ground (arith, Member-has_key k v m n)
  ]

  pub Member-lookup :
      (k : String) (v : V) (m : List (String × V))
      → KeysDistinct m
      → Member (k, v) m
      → lookup k m ≡ some v
  Member-lookup k v [] d h = absurd (not-Member-nil h)
  Member-lookup k v ((j, w) ∷ m) d h = elim (Member-cons h) [
    | inl e ↦
        let same : k ≡ j = ap (λ (q : String × V). q.0) e in
        let value : v ≡ w = ap (λ (q : String × V). q.1) e in ground (arith, eq_iff j k)
    | inr n ↦
        let found = Member-has_key k v m n in ground (arith, eq_iff j k, Member-lookup k v m d.1 n)
  ]
