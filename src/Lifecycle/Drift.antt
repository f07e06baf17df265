-- ===== src/Lifecycle/Drift.antt =====
-- packages/schema/src/lifecycle.ts: drift between the source document, the deployed one, the stored
-- fingerprint and the generated types. The hash and the generated text of canonical.ts and
-- typegen.ts are parameters.
pub mod Laws
use grid_story.Prelude.{
  String, Bool, true, false, ◌&&◌, not, Option, none, some, List, [], ◌∷◌, all, if◌then◌else◌, ◌==◌,
  string_eq,
}
use mathlib.Core.Option
use grid_story.Context.Text.{is_empty, truthy}
use grid_story.Lifecycle.Document.{SchemaIrDocument}

pub data DriftSource : Type 0 where
  source deployed database generated_types : DriftSource

pub data DriftStatus : Type 0 where
  match drift missing : DriftStatus

pub record DriftState : Type 0 where
  pub source : DriftSource
  pub expected_fingerprint : String
  pub actual_fingerprint : Option String
  pub status : DriftStatus

pub record SchemaDriftReport : Type 0 where
  pub in_sync : Bool
  pub source_fingerprint : String
  pub expected_generated_types_fingerprint : String
  pub states : List DriftState

pub record SchemaDriftInput : Type 0 where
  pub source : SchemaIrDocument
  pub deployed : Option SchemaIrDocument
  pub database_fingerprint : Option String
  pub generated_types : Option String

abbrev pub is_match : DriftStatus → Bool
is_match match = true
is_match _ = false

-- An absent or empty fingerprint is missing.
abbrev pub status_of : String → Option String → DriftStatus
status_of expected none = missing
status_of expected (some actual) =
    if is_empty actual then missing else if actual == expected then match else drift

abbrev pub unless_empty : Option String → Option String
unless_empty none = none
unless_empty (some s) = if is_empty s then none else some s

pub drift_state : DriftSource → String → Option String → DriftState
drift_state origin expected actual = record {
  source = origin;
  expected_fingerprint = expected;
  actual_fingerprint = unless_empty actual;
  status = status_of expected actual;
}

module _ (fingerprint : SchemaIrDocument → String) (sha256 : String → String)
    (generate : SchemaIrDocument → String) where
  unfoldable pub generated_types_fingerprint : SchemaIrDocument → String
  generated_types_fingerprint document = sha256 (generate document)

  pub detect_schema_drift : SchemaDriftInput → SchemaDriftReport
  unfolding drift_state generated_types_fingerprint
  detect_schema_drift input =
      let source_fingerprint = fingerprint input.source in
      let expected = generated_types_fingerprint input.source in
      let deployed_fingerprint = Option.map fingerprint input.deployed in
      let generated_fingerprint = Option.map sha256 (unless_empty input.generated_types) in
      let states =
        drift_state source source_fingerprint (some source_fingerprint)
        ∷ (drift_state deployed source_fingerprint deployed_fingerprint
            ∷ (drift_state database source_fingerprint input.database_fingerprint
                ∷ (drift_state generated_types expected generated_fingerprint ∷ []))) in
      record {
        in_sync = all (λ item. is_match item.status) states;
        source_fingerprint = source_fingerprint;
        expected_generated_types_fingerprint = expected;
        states = states;
      }
