-- ===== src/Lifecycle/Plan.antt =====
-- packages/schema/src/lifecycle.ts: the migration plan for a list of changes.
pub mod Laws
use Prim.Native.Char.{code}
use Prim.Native.String
use grid_story.Prelude.{
  ℕ, suc, ◌+◌, ◌<◌, String, Bool, true, false, ◌&&◌, ◌||◌, not, Option, none, some, List, [], ◌∷◌,
  ◌++◌, map, ltb, nat_beq, any, keep, length, if◌then◌else◌,
}
use grid_story.Canonical.{◌<>◌}
use grid_story.Context.Text.{decimal, is_empty}
use grid_story.Lifecycle.Document.{SchemaIrDocument}
use grid_story.Lifecycle.Changes.{
  SchemaChangeRisk, safe, backfill, destructive, SchemaChangeKind, SchemaChangeImpact, Identity,
  SchemaChange, kind_name, join_identity,
}
use grid_story.Lifecycle.Diff.{SchemaDiff, RiskSummary, diff_schema_ir}

pub record MigrationStep : Type 0 where
  pub id : String
  pub change_id : String
  pub operation : SchemaChangeKind
  pub risk : SchemaChangeRisk
  pub summary : String
  pub identity : Identity
  pub reversible : Bool
  pub requires_data_scan : Bool
  pub backfill_hook : Option String
  pub impact : SchemaChangeImpact

pub data LockEstimate : Type 0 where
  no_lock short long : LockEstimate

pub data RollbackMode : Type 0 where
  automatic manual unavailable : RollbackMode

pub record SchemaMigrationPlan : Type 0 where
  pub id : String
  pub from_fingerprint : String
  pub to_fingerprint : String
  pub approval_required : Bool
  pub approval_reasons : List String
  pub lock : LockEstimate
  pub data_scan_required : Bool
  pub rollback_mode : RollbackMode
  pub rollback_reason : String
  pub summary : RiskSummary
  pub steps : List MigrationStep

abbrev pub is_safe : SchemaChangeRisk → Bool
is_safe safe = true
is_safe _ = false

abbrev pub is_backfill : SchemaChangeRisk → Bool
is_backfill backfill = true
is_backfill _ = false

abbrev pub is_destructive : SchemaChangeRisk → Bool
is_destructive destructive = true
is_destructive _ = false

-- `text.replaceAll('-', '_')`.
replace_dashes : String → String
replace_dashes String.[] = String.[]
replace_dashes (String.◌∷◌ c s) =
    (if nat_beq (code c) b'-' then "_" else String.◌∷◌ c String.[]) <> replace_dashes s

unfoldable pub hook_for : SchemaChange → Option String
unfolding replace_dashes kind_name
hook_for item =
    if is_safe item.risk
    then none
    else some (replace_dashes (kind_name item.kind) <> ("_" <> join_identity "_" item.identity))

-- `String(n).padStart(3, '0')`.
pad_three : ℕ → String
unfolding decimal
pad_three n =
    if ltb n 10 then "00" <> decimal n else if ltb n 100 then "0" <> decimal n else decimal n

-- The step of the change at a position of the list.
unfoldable pub step_for : ℕ → SchemaChange → MigrationStep
unfolding pad_three hook_for
step_for index item = record {
  id = "step-" <> pad_three (index + 1);
  change_id = item.id;
  operation = item.kind;
  risk = item.risk;
  summary = item.summary;
  identity = item.identity;
  reversible = not (is_destructive item.risk);
  requires_data_scan = not (is_safe item.risk) && item.impact.entries;
  backfill_hook = hook_for item;
  impact = item.impact;
}

unfoldable pub steps_from : ℕ → List SchemaChange → List MigrationStep
unfolding step_for
steps_from index [] = []
steps_from index (item ∷ items) = step_for index item ∷ steps_from (index + 1) items

abbrev pub is_nonempty {ℓ} : {A : Type ℓ} → List A → Bool
is_nonempty [] = false
is_nonempty (x ∷ xs) = true

abbrev with_risk : (SchemaChangeRisk → Bool) → List MigrationStep → List MigrationStep
with_risk test steps = keep (λ s. test s.risk) steps

abbrev lock_of : Bool → Bool → LockEstimate
lock_of true b = long
lock_of false true = short
lock_of false false = no_lock

abbrev rollback_of : Bool → Bool → RollbackMode
rollback_of true b = unavailable
rollback_of false true = manual
rollback_of false false = automatic

abbrev rollback_reason_of : RollbackMode → String
rollback_reason_of unavailable = "At least one destructive step cannot restore removed data."
rollback_reason_of manual = "Backfilled content requires an explicit reverse transform."
rollback_reason_of automatic = "All changes are metadata-only or additive."

-- `plan_id` is the id made of the plan's fingerprints and steps: `migration_` and the first 20
-- digits of the SHA-256 of their canonical text.
unfoldable pub plan_for :
    (String → String → List MigrationStep → String) → SchemaDiff → SchemaMigrationPlan
unfolding steps_from
plan_for plan_id diff =
    let steps = steps_from 0 diff.changes in
    let destructive_steps = with_risk is_destructive steps in
    let backfill_steps = with_risk is_backfill steps in
    let some_destructive = is_nonempty destructive_steps in
    let some_backfill = is_nonempty backfill_steps in
    record {
      id = plan_id diff.from_fingerprint diff.to_fingerprint steps;
      from_fingerprint = diff.from_fingerprint;
      to_fingerprint = diff.to_fingerprint;
      approval_required = some_destructive || some_backfill;
      approval_reasons = map (λ s. s.summary) (destructive_steps ++ backfill_steps);
      lock = lock_of some_destructive some_backfill;
      data_scan_required = any (λ s. s.requires_data_scan) steps;
      rollback_mode = rollback_of some_destructive some_backfill;
      rollback_reason = rollback_reason_of (rollback_of some_destructive some_backfill);
      summary = diff.summary;
      steps = steps;
    }

unfoldable pub create_schema_migration_plan :
    (String → String → Bool)
    → (SchemaIrDocument → String)
    → (String → String → List MigrationStep → String)
    → SchemaIrDocument
    → SchemaIrDocument
    → SchemaMigrationPlan
create_schema_migration_plan precedes fingerprint plan_id before after =
    plan_for plan_id (diff_schema_ir precedes fingerprint before after)
