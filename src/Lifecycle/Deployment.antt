-- ===== src/Lifecycle/Deployment.antt =====
-- packages/core/src/schema-lifecycle-service.ts: assessing and deploying the source schema of a
-- scope. The state is what the repository holds for the scope: its deployment and its draft entries.
-- `validate` is `validateContent` of packages/schema/src/validation.ts.
pub mod Laws
mod Tests
use grid_story.Prelude.{
  ℕ, suc, ◌+◌, String, Bool, true, false, ◌&&◌, ◌||◌, not, Option, none, some, List, [], ◌∷◌, ◌++◌,
  any, map, lookup, insert, or_else, is_some, if◌then◌else◌, ◌==◌, string_eq, option_eq, contains,
  ok, err, Result, ◌>>=◌, ◌>>◌, throw_if, push_if, length,
}
use mathlib.Core.Option
use grid_story.Errors.{Outcome, grid_story_error, GridStoryError}
use grid_story.Canonical.{Json, ◌<>◌}
use grid_story.Context.Text.{truthy}
use grid_story.Lifecycle.Document.{SchemaIrDocument, NormalizedSchema, ComponentManifest}
use grid_story.Lifecycle.Diff.{index_by}
use grid_story.Lifecycle.Plan.{
  MigrationStep, SchemaMigrationPlan, create_schema_migration_plan, is_nonempty,
}
use grid_story.Lifecycle.Drift.{
  SchemaDriftReport, SchemaDriftInput, detect_schema_drift, generated_types_fingerprint,
}

pub record SchemaDeployment : Type 0 where
  pub document : SchemaIrDocument
  pub fingerprint : String
  pub generated_types : String
  pub generated_types_fingerprint : String
  pub migration_plan_id : Option String
  pub actor_id : String

pub record Entry : Type 0 where
  pub id : String
  pub content_type : String
  pub content : Json

pub record Store : Type 0 where
  pub deployment : Option SchemaDeployment
  pub entries : List Entry

pub record ValidationIssue : Type 0 where
  pub code : String
  pub path : List String
  pub message : String

pub record SchemaImpactEntry : Type 0 where
  pub entry_id : String
  pub content_type : String
  pub issues : List ValidationIssue

pub record SchemaMigrationAssessment : Type 0 where
  pub plan : SchemaMigrationPlan
  pub scanned_entries : ℕ
  pub affected_entries : ℕ
  pub by_content_type : List (String × ℕ)
  pub invalid_entries : List SchemaImpactEntry

-- What the service takes from the other parts: the collation, the fingerprint and the plan's id of
-- canonical.ts, the hash, the text of typegen.ts and the verdict of validation.ts with its issues.
pub record Tools : Type 0 where
  pub precedes : String → String → Bool
  pub fingerprint : SchemaIrDocument → String
  pub plan_id : String → String → List MigrationStep → String
  pub sha256 : String → String
  pub generate : SchemaIrDocument → String
  pub validate : NormalizedSchema → Json → List ComponentManifest → Bool × List ValidationIssue

abbrev empty_document : SchemaIrDocument
empty_document = record { schemas = []; components = [] }

-- The ids of the content types that the steps name; an empty id is skipped.
affected_schema_ids : List MigrationStep → List String
affected_schema_ids [] = []
affected_schema_ids (s ∷ steps) = elim s.identity.schema_id [
  | none ↦ affected_schema_ids steps
  | some id ↦ push_if (not (id == "")) id ++ affected_schema_ids steps
]

pub is_affected : List MigrationStep → Entry → Bool
unfolding affected_schema_ids
is_affected steps entry =
    any (λ s. truthy s.identity.component_id) steps
    || contains (affected_schema_ids steps) entry.content_type

-- `byContentType[type] = (byContentType[type] ?? 0) + 1`.
abbrev count_type : String → List (String × ℕ) → List (String × ℕ)
count_type t counts = insert t (or_else (lookup t counts) 0 + 1) counts

abbrev removed_issue : String → ValidationIssue
removed_issue content_type = record {
  code = "invalid_type";
  path = [];
  message = "Content type " <> (content_type <> " is removed by this schema.");
}

abbrev pub data_required : GridStoryError
data_required =
    grid_story_error
      "Schema deployment would leave stored content invalid. Complete the generated backfill hooks first."
      "schema_migration_data_required" 409

abbrev pub approval_required_error : GridStoryError
approval_required_error =
    grid_story_error "Schema migration approval is required for the exact generated plan."
      "schema_migration_approval_required" 409

module _ (tools : Tools) where
  -- The verdict on one entry under the candidate document.
  pub check_entry : SchemaIrDocument → Entry → Bool × List ValidationIssue
  check_entry candidate entry =
      elim (lookup entry.content_type (index_by (λ s. s.id) candidate.schemas)) [
        | none ↦ (false, removed_issue entry.content_type ∷ [])
        | some schema ↦ tools.validate schema entry.content candidate.components
      ]

  pub invalid_of : SchemaIrDocument → List Entry → List SchemaImpactEntry
  unfolding check_entry
  invalid_of candidate [] = []
  invalid_of candidate (entry ∷ entries) =
      push_if (not (check_entry candidate entry).0) (record {
        entry_id = entry.id;
        content_type = entry.content_type;
        issues = (check_entry candidate entry).1;
      })
      ++ invalid_of candidate entries

  affected_of : List MigrationStep → List Entry → ℕ × List (String × ℕ) → ℕ × List (String × ℕ)
  affected_of steps [] counts = counts
  affected_of steps (entry ∷ entries) counts = affected_of steps entries (
      if is_affected steps entry
      then (counts.0 + 1, count_type entry.content_type counts.1)
      else counts)

  pub assess : SchemaIrDocument → Store → SchemaMigrationAssessment
  unfolding affected_of
  assess candidate store =
      let before = or_else (Option.map (λ d. d.document) store.deployment) empty_document in
      let plan =
        create_schema_migration_plan tools.precedes tools.fingerprint tools.plan_id before
          candidate in
      let counts = affected_of plan.steps store.entries (0, []) in
      record {
        plan = plan;
        scanned_entries = length store.entries;
        affected_entries = counts.0;
        by_content_type = counts.1;
        invalid_entries = invalid_of candidate store.entries;
      }

  -- What `deploySource` saves.
  pub deployment_of : SchemaIrDocument → SchemaMigrationPlan → String → SchemaDeployment
  deployment_of source plan actor_id = record {
    document = source;
    fingerprint = tools.fingerprint source;
    generated_types = tools.generate source;
    generated_types_fingerprint =
        generated_types_fingerprint tools.fingerprint tools.sha256 tools.generate source;
    migration_plan_id = if is_nonempty plan.steps then some plan.id else none;
    actor_id = actor_id;
  }

  pub deploy_source :
      SchemaIrDocument → String → Option String → Bool → Store → Outcome (SchemaDeployment × Store)
  unfolding deployment_of
  deploy_source source actor_id expected_plan_id approved store =
      let assessment = assess source store in
      let deployment = deployment_of source assessment.plan actor_id in
      throw_if (is_nonempty assessment.invalid_entries) data_required
      >> (throw_if
            (assessment.plan.approval_required
              && (not approved || not (option_eq.test expected_plan_id (some assessment.plan.id))))
            approval_required_error
          >> ok (deployment, record store { deployment = some deployment }))

  pub initialize : SchemaIrDocument → String → Store → Outcome (SchemaDeployment × Store)
  initialize source actor_id store = elim store.deployment [
    | some current ↦ ok (current, store)
    | none ↦ deploy_source source actor_id none false store
  ]

  pub drift : SchemaIrDocument → Store → SchemaDriftReport
  drift source store = detect_schema_drift tools.fingerprint tools.sha256 tools.generate (record {
    source = source;
    deployed = Option.map (λ d. d.document) store.deployment;
    database_fingerprint = Option.map (λ d. d.fingerprint) store.deployment;
    generated_types = Option.map (λ d. d.generated_types) store.deployment;
  })
