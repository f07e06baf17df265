-- ===== src/Lifecycle/Plan/Laws.antt =====
-- What a migration plan says of the changes that it is for.
use grid_story.Prelude.{
  ℕ, zero, suc, ◌+◌, String, ◌≡◌, refl, ap, sym, ◌∙◌, ◌↔◌, ◌⊎◌, inl, inr, Bool, true, false, ◌||◌,
  not, some, List, [], ◌∷◌, arith, any, keep, get_elem?, Bool-cases,
}
use mathlib.Core.Option
use grid_story.Lifecycle.Document.{SchemaIrDocument}
use grid_story.Lifecycle.Changes.{SchemaChange, SchemaChangeRisk}
use grid_story.Lifecycle.Diff.{SchemaDiff, diff_schema_ir}
use grid_story.Lifecycle.Diff.Laws.{destroys, needs_review}
use grid_story.Lifecycle.Diff.Compatible.{diff_schema_ir-compatible, diff_schema_ir-changes}
use grid_story.Lifecycle.Diff.Same.{diff_changes_self}
use grid_story.Lifecycle.Plan.{
  MigrationStep, is_backfill, is_destructive, is_nonempty, with_risk, rollback_of, step_for,
  steps_from, plan_for, create_schema_migration_plan, no_lock, automatic, unavailable,
}

is_nonempty-keep {ℓ} :
    {A : Type ℓ} (p : A → Bool) (xs : List A) → is_nonempty (keep p xs) ≡ any p xs
is_nonempty-keep p [] = refl
is_nonempty-keep p (x ∷ xs) = ground (arith, is_nonempty-keep p xs)

-- The risks of the steps are those of the changes.
any-steps_from :
    (t : SchemaChangeRisk → Bool) (n : ℕ) (cs : List SchemaChange)
    → any (λ s. t s.risk) (steps_from n cs) ≡ any (λ c. t c.risk) cs
unfolding steps_from step_for
any-steps_from t n [] = refl
any-steps_from t n (c ∷ cs) = ap (λ b. t c.risk || b) (any-steps_from t (n + 1) cs)

any-with_risk :
    (t : SchemaChangeRisk → Bool) (cs : List SchemaChange)
    → is_nonempty (with_risk t (steps_from 0 cs)) ≡ any (λ c. t c.risk) cs
any-with_risk t cs = is_nonempty-keep (λ s. t s.risk) (steps_from 0 cs) ∙ any-steps_from t 0 cs

needs_review_split :
    (cs : List SchemaChange)
    → (any (λ c. is_destructive c.risk) cs || any (λ c. is_backfill c.risk) cs)
      ≡ any needs_review cs
needs_review_split [] = refl
needs_review_split (c ∷ cs) = ground (arith, needs_review_split cs)

destroys_same : (cs : List SchemaChange) → any (λ c. is_destructive c.risk) cs ≡ any destroys cs
destroys_same [] = refl
destroys_same (c ∷ cs) = ground (arith, destroys_same cs)

scan_needs_review :
    (n : ℕ) (cs : List SchemaChange)
    → any (λ s. s.requires_data_scan) (steps_from n cs) ≡ true
    → any needs_review cs ≡ true
unfolding steps_from step_for
scan_needs_review n [] h = cc
scan_needs_review n (c ∷ cs) h = ground (arith, scan_needs_review (n + 1) cs)

add-zero_sym : (n : ℕ) → n ≡ n + 0
add-zero_sym n = omega arith

add_step : (n i : ℕ) → n + 1 + i ≡ n + suc i
add_step n i = omega arith

zero_plus : (i : ℕ) → 0 + i ≡ i
zero_plus i = omega arith

steps_from-get :
    (n i : ℕ) (cs : List SchemaChange)
    → get_elem? (steps_from n cs) i ≡ Option.map (λ c. step_for (n + i) c) (get_elem? cs i)
unfolding steps_from
steps_from-get n i [] = refl
steps_from-get n zero (c ∷ cs) = ap (λ k. some (step_for k c)) (add-zero_sym n)
steps_from-get n (suc i) (c ∷ cs) =
    steps_from-get (n + 1) i cs
    ∙ ap (λ k. Option.map (λ d. step_for k d) (get_elem? cs i)) (add_step n i)

rollback_of-unavailable : (a b : Bool) → (rollback_of a b ≡ unavailable) ↔ (a ≡ true)
rollback_of-unavailable a b = (λ h. ground arith, λ h. ground arith)

-- A plan asks for approval exactly when some change is not safe, a data scan is planned only then,
-- and the step at each position is that of the change at this position.
pub plan_for_steps :
    (plan_id : String → String → List MigrationStep → String) (diff : SchemaDiff) (i : ℕ)
    → ((plan_for plan_id diff).approval_required ≡ any needs_review diff.changes)
      × (((plan_for plan_id diff).data_scan_required ≡ false)
          ⊎ ((plan_for plan_id diff).approval_required ≡ true))
      × (get_elem? (plan_for plan_id diff).steps i
          ≡ Option.map (λ c. step_for i c) (get_elem? diff.changes i))
unfolding plan_for
plan_for_steps plan_id diff i = (
  asks,
  elim (Bool-cases (any (λ s. s.requires_data_scan) (steps_from 0 diff.changes))) [
    | inl t ↦ inr (asks ∙ scan_needs_review 0 diff.changes t)
    | inr f ↦ inl f
  ],
  steps_from-get 0 i diff.changes
      ∙ ap (λ k. Option.map (λ d. step_for k d) (get_elem? diff.changes i)) (zero_plus i),
)
  where
    asks :
        (is_nonempty (with_risk is_destructive (steps_from 0 diff.changes))
          || is_nonempty (with_risk is_backfill (steps_from 0 diff.changes)))
        ≡ any needs_review diff.changes
    asks =
        rw (any-with_risk is_destructive diff.changes, any-with_risk is_backfill diff.changes)
          (needs_review_split diff.changes)

-- A migration cannot be rolled back exactly when its documents are not compatible.
pub rollback_iff :
    (precedes : String → String → Bool) (fingerprint : SchemaIrDocument → String)
    (plan_id : String → String → List MigrationStep → String) (before after : SchemaIrDocument)
    → ((create_schema_migration_plan precedes fingerprint plan_id before after).rollback_mode
        ≡ unavailable)
      ↔ ((diff_schema_ir precedes fingerprint before after).compatible ≡ false)
unfolding create_schema_migration_plan plan_for
rollback_iff precedes fingerprint plan_id before after = (
  λ h. verdict ∙ ap not (sym found ∙ (rollback_of-unavailable _ _).0 h),
  λ h. (rollback_of-unavailable _ _).1 (found ∙ not_false _ (sym verdict ∙ h)),
)
  where
    changes : List SchemaChange
    changes = (diff_schema_ir precedes fingerprint before after).changes

    found : is_nonempty (with_risk is_destructive (steps_from 0 changes)) ≡ any destroys changes
    found = any-with_risk is_destructive changes ∙ destroys_same changes

    verdict :
        (diff_schema_ir precedes fingerprint before after).compatible ≡ not (any destroys changes)
    verdict = diff_schema_ir-compatible precedes fingerprint before after

    not_false : (b : Bool) → not b ≡ false → b ≡ true
    not_false b h = ground arith

plan_for-nil :
    (plan_id : String → String → List MigrationStep → String) (diff : SchemaDiff)
    → diff.changes ≡ []
    → ((plan_for plan_id diff).steps ≡ [])
      × ((plan_for plan_id diff).approval_required ≡ false)
      × ((plan_for plan_id diff).lock ≡ no_lock)
      × ((plan_for plan_id diff).data_scan_required ≡ false)
      × ((plan_for plan_id diff).rollback_mode ≡ automatic)
unfolding plan_for steps_from
plan_for-nil plan_id diff e = rw e (refl, refl, refl, refl, refl)

-- Between a document and itself nothing is to do: no step, no approval, no lock, no data scan, an
-- automatic rollback, and the documents are compatible.
pub plan_self :
    (precedes : String → String → Bool) (fingerprint : SchemaIrDocument → String)
    (plan_id : String → String → List MigrationStep → String) (d : SchemaIrDocument)
    → let plan = create_schema_migration_plan precedes fingerprint plan_id d d in
      (plan.steps ≡ [])
      × (plan.approval_required ≡ false)
      × (plan.lock ≡ no_lock)
      × (plan.data_scan_required ≡ false)
      × (plan.rollback_mode ≡ automatic)
      × ((diff_schema_ir precedes fingerprint d d).compatible ≡ true)
unfolding create_schema_migration_plan
plan_self precedes fingerprint plan_id d =
    let (a, b, c, e, f) =
      plan_for-nil plan_id (diff_schema_ir precedes fingerprint d d) unchanged in
    (
      a,
      b,
      c,
      e,
      f,
      diff_schema_ir-compatible precedes fingerprint d d
          ∙ ap (λ cs. not (any destroys cs)) unchanged,
    )
  where
    unchanged : (diff_schema_ir precedes fingerprint d d).changes ≡ []
    unchanged = diff_schema_ir-changes precedes fingerprint d d ∙ diff_changes_self precedes d
