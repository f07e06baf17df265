-- ===== src/Lifecycle/Diff.antt =====
-- packages/schema/src/lifecycle.ts: the changes from one document to another.
pub mod Laws
pub mod Kept
pub mod Parts
pub mod Compatible
pub mod Same
use grid_story.Prelude.{
  ℕ, suc, ◌+◌, String, Bool, true, false, ◌&&◌, ◌||◌, not, Option, none, some, List, [], ◌∷◌, ◌++◌,
  map, ltb, nat_beq, if◌then◌else◌, ◌==◌, string_eq, bool_eq, lookup, insert_all, has_key, any,
  push_if, gather, sort,
}
use grid_story.Canonical.{Json, ◌<>◌}
use grid_story.Lifecycle.Document.{
  NormalizedField, NamedContract, NormalizedSchema, ComponentManifest, SchemaIrDocument,
}
use grid_story.Lifecycle.Changes.{
  SchemaChangeRisk, safe, backfill, destructive, SchemaChangeKind, SchemaChange, same, change,
  is_kind, of_schema, of_field, of_component, schema_added, schema_removed, schema_metadata_changed,
  schema_version_changed, schema_version_required, schema_collection_changed, schema_route_changed,
  schema_localization_changed, field_added, field_removed, field_renamed, field_type_changed,
  field_required_changed, field_constraints_changed, field_metadata_changed, object_added,
  object_removed, object_changed, taxonomy_added, taxonomy_removed, taxonomy_changed,
  component_added, component_removed, component_version_changed, component_version_required,
  component_contract_changed, kind_name, ContractKind, object, taxonomy, contract_name,
  removed_kind, changed_kind, added_kind,
}
use grid_story.Context.Text.{decimal}

-- `new Map(values.map((value) => [value.id, value]))`.
unfoldable pub index_by {ℓ} : {V : Type ℓ} → (V → String) → List V → List (String × V)
index_by id values = insert_all [] (map (λ v. (id v, v)) values)

unfoldable pub is_structural : SchemaChange → Bool
is_structural item =
    not (is_kind item.kind schema_metadata_changed)
    && not (is_kind item.kind field_metadata_changed)

-- The last changes of a schema: its version.
unfoldable pub version_changes :
    String → NormalizedSchema → NormalizedSchema → Bool → List SchemaChange
version_changes schema_id schema next structural_changes =
    if not (nat_beq schema.version next.version)
    then change schema_version_changed
        (if ltb schema.version next.version then safe else destructive) (of_schema schema_id)
        ("Change schema version "
          <> (decimal schema.version <> (" to " <> (decimal next.version <> "."))))
      ∷ []
    else push_if structural_changes (
        change schema_version_required destructive (of_schema schema_id) (
          "Structural changes require advancing schema version "
          <> (decimal schema.version <> ".")))

module _ (precedes : String → String → Bool) where
  unfoldable pub diff_field :
      String → String → NormalizedField → Option NormalizedField → List SchemaChange
  diff_field schema_id field_id field none =
      change field_removed destructive (of_field schema_id field_id)
        ("Remove field " <> (field.name <> "."))
      ∷ []
  diff_field schema_id field_id field (some next) =
      push_if (not (field.name == next.name)) (
        change field_renamed backfill (of_field schema_id field_id)
          ("Rename field " <> (field.name <> (" to " <> (next.name <> ".")))))
      ++ (if not (field.type == next.type)
          then change field_type_changed destructive (of_field schema_id field_id) (
              "Change "
              <> (next.name <> (" from " <> (field.type <> (" to " <> (next.type <> "."))))))
            ∷ []
          else push_if (not (field.required == next.required)) (
              change field_required_changed (if next.required then backfill else safe)
                (of_field schema_id field_id)
                (next.name
                  <> (" becomes " <> ((if next.required then "required" else "optional") <> "."))))
            ++ (push_if (not (same precedes field.constraints next.constraints)) (
                  change field_constraints_changed backfill (of_field schema_id field_id)
                    ("Change validation or structure constraints for " <> (next.name <> ".")))
                ++ push_if (not (field.label == next.label)) (
                    change field_metadata_changed safe (of_field schema_id field_id)
                      ("Change display metadata for " <> (next.name <> ".")))))

  unfoldable pub added_field : String → String → NormalizedField → SchemaChange
  added_field schema_id field_id field =
      change field_added (if field.required then backfill else safe) (of_field schema_id field_id) (
        "Add "
        <> ((if field.required then "required" else "optional")
            <> (" field " <> (field.name <> "."))))

  unfoldable pub diff_fields :
      String → List NormalizedField → List NormalizedField → List SchemaChange
  unfolding index_by
  diff_fields schema_id before_fields after_fields =
      let before = index_by (λ f. f.id) before_fields in
      let after = index_by (λ f. f.id) after_fields in
      gather (λ e. diff_field schema_id e.0 e.1 (lookup e.0 after)) before
      ++ gather (λ e. push_if (not (has_key e.0 before)) (added_field schema_id e.0 e.1)) after

  unfoldable pub diff_contract :
      String → ContractKind → String → NamedContract → Option NamedContract → List SchemaChange
  diff_contract schema_id kind id value none =
      change (removed_kind kind) destructive (of_field schema_id id)
        ("Remove " <> (contract_name kind <> (" " <> (id <> "."))))
      ∷ []
  diff_contract schema_id kind id value (some next) =
      push_if (not (same precedes value.value next.value)) (
        change (changed_kind kind) backfill (of_field schema_id id)
          ("Change " <> (contract_name kind <> (" " <> (id <> ".")))))

  unfoldable pub diff_named_contracts :
      String → ContractKind → List NamedContract → List NamedContract → List SchemaChange
  unfolding index_by
  diff_named_contracts schema_id kind before_values after_values =
      let before = index_by (λ v. v.id) before_values in
      let after = index_by (λ v. v.id) after_values in
      gather (λ e. diff_contract schema_id kind e.0 e.1 (lookup e.0 after)) before
      ++ gather
          (λ e. push_if (not (has_key e.0 before)) (
            change (added_kind kind) safe (of_field schema_id e.0)
              ("Add " <> (contract_name kind <> (" " <> (e.0 <> "."))))))
          after

  -- The changes of a schema that is in both documents, but for its version.
  unfoldable pub schema_parts : String → NormalizedSchema → NormalizedSchema → List SchemaChange
  schema_parts schema_id schema next =
      push_if (not (schema.name == next.name) || not (schema.description == next.description)) (
        change schema_metadata_changed safe (of_schema schema_id)
          ("Change metadata for content type " <> (schema_id <> ".")))
      ++ (push_if (not (schema.collection == next.collection)) (
            change schema_collection_changed destructive (of_schema schema_id)
              ("Change collection " <> (schema.collection <> (" to " <> (next.collection <> ".")))))
          ++ (push_if (not (same precedes schema.route next.route)) (
                change schema_route_changed backfill (of_schema schema_id)
                  ("Change canonical route for " <> (schema_id <> ".")))
              ++ (push_if (not (same precedes schema.localization next.localization)) (
                    change schema_localization_changed backfill (of_schema schema_id)
                      ("Change localized fields for " <> (schema_id <> ".")))
                  ++ (diff_fields schema_id schema.fields next.fields
                      ++ (diff_named_contracts schema_id object schema.objects next.objects
                          ++ diff_named_contracts schema_id taxonomy schema.taxonomies
                              next.taxonomies)))))

  unfoldable pub diff_schema :
      String → NormalizedSchema → Option NormalizedSchema → List SchemaChange
  diff_schema schema_id schema none =
      change schema_removed destructive (of_schema schema_id)
        ("Remove content type " <> (schema.name <> "."))
      ∷ []
  diff_schema schema_id schema (some next) =
      let parts = schema_parts schema_id schema next in
      parts ++ version_changes schema_id schema next (any is_structural parts)

  unfoldable pub diff_schemas : SchemaIrDocument → SchemaIrDocument → List SchemaChange
  unfolding index_by
  diff_schemas before_document after_document =
      let before = index_by (λ s. s.id) before_document.schemas in
      let after = index_by (λ s. s.id) after_document.schemas in
      gather (λ e. diff_schema e.0 e.1 (lookup e.0 after)) before
      ++ gather
          (λ e.
            push_if (not (has_key e.0 before))
              (change schema_added safe (of_schema e.0) ("Add content type " <> (e.1.name <> "."))))
          after

  unfoldable pub diff_component :
      String → ComponentManifest → Option ComponentManifest → List SchemaChange
  diff_component component_id component none =
      change component_removed destructive (of_component component_id)
        ("Remove component " <> (component.name <> "."))
      ∷ []
  diff_component component_id component (some next) =
      push_if (not (nat_beq component.version next.version)) (
        change component_version_changed backfill (of_component component_id) (
          "Change component "
          <> (component_id
              <> (" from version "
                  <> (decimal component.version <> (" to " <> (decimal next.version <> ".")))))))
      ++ (if not (same precedes component.contract next.contract)
          then change component_contract_changed backfill (of_component component_id)
              ("Change component contract " <> (component_id <> "."))
            ∷ push_if (nat_beq component.version next.version) (
                change component_version_required destructive (of_component component_id) (
                  "Component contract changes require advancing version "
                  <> (decimal component.version <> ".")))
          else [])

  unfoldable pub diff_components : SchemaIrDocument → SchemaIrDocument → List SchemaChange
  unfolding index_by
  diff_components before_document after_document =
      let before = index_by (λ c. c.id) before_document.components in
      let after = index_by (λ c. c.id) after_document.components in
      gather (λ e. diff_component e.0 e.1 (lookup e.0 after)) before
      ++ gather
          (λ e. push_if (not (has_key e.0 before)) (
            change component_added safe (of_component e.0) ("Add component " <> (e.1.name <> "."))))
          after

  -- The changes of `diffSchemaIr`, in the order of their ids.
  unfoldable pub diff_changes : SchemaIrDocument → SchemaIrDocument → List SchemaChange
  diff_changes before after =
      sort (λ left right. precedes left.id right.id)
        (diff_schemas before after ++ diff_components before after)

-- `Record<SchemaChangeRisk, number>`.
pub record RiskSummary : Type 0 where
  pub safe_count : ℕ
  pub backfill_count : ℕ
  pub destructive_count : ℕ

abbrev pub count_one : SchemaChangeRisk → RiskSummary → RiskSummary
count_one safe s = record s { safe_count = s.safe_count + 1 }
count_one backfill s = record s { backfill_count = s.backfill_count + 1 }
count_one destructive s = record s { destructive_count = s.destructive_count + 1 }

-- `for (const item of changes) summary[item.risk] += 1;`
unfoldable pub count_risks : RiskSummary → List SchemaChange → RiskSummary
count_risks summary [] = summary
count_risks summary (item ∷ items) = count_risks (count_one item.risk summary) items

pub record SchemaDiff : Type 0 where
  pub from_fingerprint : String
  pub to_fingerprint : String
  pub changes : List SchemaChange
  pub summary : RiskSummary
  pub compatible : Bool

-- `fingerprint` is `schemaIrFingerprint`, the SHA-256 of a document's canonical text.
unfoldable pub diff_schema_ir :
    (String → String → Bool)
    → (SchemaIrDocument → String)
    → SchemaIrDocument
    → SchemaIrDocument
    → SchemaDiff
diff_schema_ir precedes fingerprint before after =
    let changes = diff_changes precedes before after in
    let summary =
      count_risks (record { safe_count = 0; backfill_count = 0; destructive_count = 0 }) changes in
    record {
      from_fingerprint = fingerprint before;
      to_fingerprint = fingerprint after;
      changes = changes;
      summary = summary;
      compatible = nat_beq summary.destructive_count 0;
    }
