-- ===== src/Content/Statements/Sequences.antt =====
-- packages/core/src/sqlite-repository.ts: the sequence numbers of the audit events of an entry.
use grid_story.Prelude.{
  ℕ, ◌<◌, String, Bool, true, false, ◌&&◌, ◌||◌, Option, none, some, List, [], ◌∷◌, ◌==◌, string_eq,
  nat_eq, any, ltb, if◌then◌else◌, ◌≡◌, refl, ==-eq, subst, arith, Bool-cases, inl, inr,
}
use grid_story.Content.{AuditRow}
use grid_story.Content.Statements.{last_audit, later_of, sequence_of}

later_bound :
    (row : AuditRow) (rest : Option AuditRow) (k : ℕ)
    → sequence_of (some (later_of row rest)) < k
    → (row.sequence < k) × (sequence_of rest < k)
later_bound row none k h = (h, omega (arith, h))
later_bound row (some other) k h = go (ltb row.sequence other.sequence) refl h
  where
    go :
        (b : Bool)
        → ltb row.sequence other.sequence ≡ b
        → sequence_of (some (if b then other else row)) < k
        → (row.sequence < k) × (other.sequence < k)
    go true t h = (ground (arith, h, t), h)
    go false f h = (h, ground (arith, h, f))

pub smaller_differs : (a k : ℕ) → a < k → (a == k) ≡ false
smaller_differs a k less = elim (Bool-cases (a == k)) [
  | inl t ↦ let same : a ≡ k = ==-eq t in absurd (omega (arith, same, less))
  | inr f ↦ f
]

both_false : (a b : Bool) → (a || b) ≡ false → (a ≡ false) × (b ≡ false)
both_false false b h = (refl, h)
both_false true b h = cc h

-- A number after the last one is new, and so is the key with a new id.
pub audit_keys_free :
    (id new_id : String) (k : ℕ) (rows : List AuditRow)
    → sequence_of (last_audit id rows) < k
    → any (λ a. a.id == new_id) rows ≡ false
    → any (λ a. (a.id == new_id) || ((a.entry_id == id) && (a.sequence == k))) rows ≡ false
audit_keys_free id new_id k [] later new = refl
audit_keys_free id new_id k (row ∷ rows) later new =
    let (other, rest_new) = both_false (row.id == new_id) (any (λ a. a.id == new_id) rows) new in
    elim (Bool-cases (row.entry_id == id)) [
      | inl t ↦
          let (less, bound) = later_bound row (last_audit id rows) k (largest t) in
          rw (other, t, smaller_differs row.sequence k less)
            (audit_keys_free id new_id k rows bound rest_new)
      | inr f ↦ rw (other, f) (audit_keys_free id new_id k rows (passed f) rest_new)
    ]
  where
    largest :
        (row.entry_id == id) ≡ true → sequence_of (some (later_of row (last_audit id rows))) < k
    largest t =
        subst
          (λ b.
            sequence_of (if b then some (later_of row (last_audit id rows)) else last_audit id rows)
            < k)
          t later

    passed : (row.entry_id == id) ≡ false → sequence_of (last_audit id rows) < k
    passed f =
        subst
          (λ b.
            sequence_of (if b then some (later_of row (last_audit id rows)) else last_audit id rows)
            < k)
          f later
