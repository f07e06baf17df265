-- ===== src/Lifecycle/Deployment/Tests.antt =====
-- Two small documents, at which the theorems on the schema lifecycle apply.
use grid_story.Prelude.{
  String, Bool, ◌≡◌, refl, ap, ◌≢◌, inl, inr, true, false, none, some, List, [], ◌∷◌, arith,
  not-Member-nil, Member-cons, eq_iff, ok, sort,
}
use grid_story.Lifecycle.Changes.{change, same, kind_name}
use text.Mathlib.Text.{is_lt}
use Prim.Native.String.{compare}
use grid_story.Canonical.{object, end, undefined, canonical_stringify, insert_entry, keep_entry}
use grid_story.Lifecycle.Document.{NormalizedField, NormalizedSchema, SchemaIrDocument}
use grid_story.Lifecycle.Diff.{
  index_by, diff_schema_ir, diff_changes, diff_schemas, diff_components, diff_schema, schema_parts,
  diff_fields, diff_field, diff_named_contracts, version_changes, count_risks, is_structural,
}
use grid_story.Lifecycle.Plan.{create_schema_migration_plan, plan_for, unavailable}
use grid_story.Lifecycle.Plan.Laws.{rollback_iff}
use grid_story.Lifecycle.Drift.{generated_types_fingerprint, SchemaDriftInput, detect_schema_drift}
use grid_story.Lifecycle.Drift.Laws.{in_sync_iff}
use grid_story.Lifecycle.Deployment.{
  Tools, Store, SchemaDeployment, check_entry, assess, deployment_of, deploy_source, drift,
}
use grid_story.Lifecycle.Deployment.Laws.{AllValid, deploy_source_iff, deploy-drift, redeploy}

abbrev by_codes : String → String → Bool
by_codes a b = is_lt (compare a b)

abbrev title : NormalizedField
title = record {
  id = "f1";
  name = "title";
  label = "Title";
  required = true;
  type = "text";
  constraints = object end;
}

abbrev page : List NormalizedField → NormalizedSchema
page fields = record {
  id = "page";
  name = "Page";
  description = "";
  version = 1;
  collection = "pages";
  route = undefined;
  localization = undefined;
  fields = fields;
  objects = [];
  taxonomies = [];
}

abbrev full : SchemaIrDocument
full = record { schemas = page (title ∷ []) ∷ []; components = [] }

abbrev bare : SchemaIrDocument
bare = record { schemas = page [] ∷ []; components = [] }

abbrev print : SchemaIrDocument → String
print d = "fp"

abbrev tools : Tools
tools = record {
  precedes = by_codes;
  fingerprint = print;
  plan_id = λ from to steps. "migration_1";
  sha256 = λ text. "hash";
  generate = λ d. "types";
  validate = λ schema content components. (true, []);
}

abbrev stored : Store
stored = record {
  deployment = none;
  entries = record { id = "e1"; content_type = "page"; content = object end } ∷ [];
}

-- Without its title the page is not compatible.
removed_field : (diff_schema_ir by_codes print full bare).compatible ≡ false
unfolding diff_schema_ir diff_changes diff_schemas diff_components diff_schema schema_parts
    diff_fields diff_field diff_named_contracts version_changes count_risks index_by change sort
    same is_structural kind_name canonical_stringify insert_entry keep_entry
removed_field = refl

rollback_iff_example :
    (create_schema_migration_plan by_codes print tools.plan_id full bare).rollback_mode
    ≡ unavailable
rollback_iff_example = (rollback_iff by_codes print tools.plan_id full bare).1 removed_field

abbrev synced : SchemaDriftInput
synced = record {
  source = full;
  deployed = some full;
  database_fingerprint = some "fp";
  generated_types = some "types";
}

fp_named : ◌≢◌ {A = String} "fp" ""
fp_named = ground (arith, eq_iff "fp" "")

hash_named : ◌≢◌ {A = String} "hash" ""
hash_named = ground (arith, eq_iff "hash" "")

types_named : ◌≢◌ {A = String} "types" ""
types_named = ground (arith, eq_iff "types" "")

in_sync_iff_example : (detect_schema_drift print tools.sha256 tools.generate synced).in_sync ≡ true
unfolding generated_types_fingerprint
in_sync_iff_example =
    (in_sync_iff print tools.sha256 tools.generate synced).1
      (fp_named, (fp_named, refl), (fp_named, refl), (hash_named, refl))

abbrev deployed_full : Store
deployed_full = record stored {
  deployment = some (record {
    document = full;
    fingerprint = "fp";
    generated_types = "types";
    generated_types_fingerprint = "hash";
    migration_plan_id = none;
    actor_id = "u1";
  });
}

full_valid : AllValid tools full stored.entries
unfolding check_entry index_by
full_valid e m = elim (Member-cons m) [
  | inl p ↦ ap (λ y. (check_entry tools full y).0) p
  | inr n ↦ absurd (not-Member-nil n)
]

first_plan : Store → SchemaDeployment
first_plan s = deployment_of tools full (assess tools full s).plan "u1"

approved : some "migration_1" ≡ some (assess tools full stored).plan.id
unfolding assess create_schema_migration_plan plan_for
approved = refl

has_steps : (assess tools full stored).plan.steps ≢ []
unfolding assess create_schema_migration_plan plan_for diff_schema_ir diff_changes sort diff_schemas
    diff_components
has_steps e = cc e

deploy_source_iff_example :
    deploy_source tools full "u1" (some "migration_1") true stored
    ≡ ok (first_plan stored, record stored { deployment = some (first_plan stored) })
unfolding first_plan deployment_of generated_types_fingerprint assess create_schema_migration_plan
    plan_for diff_schema_ir diff_changes sort diff_schemas diff_components
deploy_source_iff_example =
    (deploy_source_iff tools full "u1" (some "migration_1") true stored (first_plan stored)
        (record stored { deployment = some (first_plan stored) })).1
      (
        full_valid,
        inr (refl, approved),
        (refl, refl, refl, refl, inr (has_steps, refl), refl),
        refl,
      )

deploy-drift_example :
    (drift tools full (record stored { deployment = some (first_plan stored) })).in_sync ≡ true
deploy-drift_example =
    deploy-drift tools full "u1" (some "migration_1") true stored (first_plan stored)
      (record stored { deployment = some (first_plan stored) }) fp_named types_named hash_named
      deploy_source_iff_example

redeploy_example :
    (again : SchemaDeployment) × (deploy_source tools full "u2" none false deployed_full
      ≡ ok (again, record deployed_full { deployment = some again }))
    × (again.migration_plan_id ≡ none)
    × (again.document ≡ full)
redeploy_example = redeploy tools full "u2" deployed_full _ refl refl full_valid
