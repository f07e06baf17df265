-- ===== src/Lifecycle/Changes.antt =====
-- packages/schema/src/lifecycle.ts: kinds of change, their risk and their impact.

use text.Mathlib.Text.{starts_with}
use grid_story.Prelude.{
  String, Bool, true, ◌&&◌, ◌||◌, not, Option, none, some, List, [], ◌∷◌, ◌==◌, string_eq, ◌≡◌,
  refl, if◌then◌else◌,
}
use grid_story.Canonical.{Json, canonical_stringify, ◌<>◌}
use grid_story.Prelude.{option_eq}

pub data SchemaChangeRisk : Type 0 where
  safe backfill destructive : SchemaChangeRisk

pub data SchemaChangeKind : Type 0 where
  schema_added schema_removed schema_metadata_changed schema_version_changed : SchemaChangeKind
  schema_version_required schema_collection_changed schema_route_changed : SchemaChangeKind
  schema_localization_changed field_added field_removed field_renamed : SchemaChangeKind
  field_type_changed field_required_changed field_constraints_changed : SchemaChangeKind
  field_metadata_changed object_added object_removed object_changed : SchemaChangeKind
  taxonomy_added taxonomy_removed taxonomy_changed component_added : SchemaChangeKind
  component_removed component_version_changed component_version_required : SchemaChangeKind
  component_contract_changed : SchemaChangeKind

-- The text of a kind.
unfoldable pub kind_name : SchemaChangeKind → String
kind_name schema_added = "schema-added"
kind_name schema_removed = "schema-removed"
kind_name schema_metadata_changed = "schema-metadata-changed"
kind_name schema_version_changed = "schema-version-changed"
kind_name schema_version_required = "schema-version-required"
kind_name schema_collection_changed = "schema-collection-changed"
kind_name schema_route_changed = "schema-route-changed"
kind_name schema_localization_changed = "schema-localization-changed"
kind_name field_added = "field-added"
kind_name field_removed = "field-removed"
kind_name field_renamed = "field-renamed"
kind_name field_type_changed = "field-type-changed"
kind_name field_required_changed = "field-required-changed"
kind_name field_constraints_changed = "field-constraints-changed"
kind_name field_metadata_changed = "field-metadata-changed"
kind_name object_added = "object-added"
kind_name object_removed = "object-removed"
kind_name object_changed = "object-changed"
kind_name taxonomy_added = "taxonomy-added"
kind_name taxonomy_removed = "taxonomy-removed"
kind_name taxonomy_changed = "taxonomy-changed"
kind_name component_added = "component-added"
kind_name component_removed = "component-removed"
kind_name component_version_changed = "component-version-changed"
kind_name component_version_required = "component-version-required"
kind_name component_contract_changed = "component-contract-changed"

pub record SchemaChangeImpact : Type 0 where
  pub entries : Bool
  pub api : Bool
  pub components : Bool
  pub queries : Bool
  pub workflows : Bool
  pub search_indexes : Bool

-- What a change is about: the ids of a schema, a field and a component.
pub record Identity : Type 0 where
  pub schema_id : Option String
  pub field_id : Option String
  pub component_id : Option String

pub record SchemaChange : Type 0 where
  pub id : String
  pub kind : SchemaChangeKind
  pub risk : SchemaChangeRisk
  pub identity : Identity
  pub open identity use *
  pub summary : String
  pub impact : SchemaChangeImpact

-- `same(left, right)`: equal canonical texts, or both without one.
unfoldable pub same : (String → String → Bool) → Json → Json → Bool
same precedes left right = canonical_stringify precedes left == canonical_stringify precedes right

pub same_refl :
    (precedes : String → String → Bool) (value : Json) → same precedes value value ≡ true
unfolding same
same_refl precedes value =
    (option_eq.test_iff (canonical_stringify precedes value) (canonical_stringify precedes value)).1
      refl

abbrev pub is_kind : SchemaChangeKind → SchemaChangeKind → Bool
is_kind a b = kind_name a == kind_name b

unfoldable pub impact : SchemaChangeKind → SchemaChangeImpact
unfolding kind_name
impact kind =
    let component = starts_with (kind_name kind) "component-" in
    let metadata =
      is_kind kind schema_metadata_changed
      || (is_kind kind schema_version_changed || is_kind kind field_metadata_changed) in
    let structural = not metadata && not component in
    let field_api =
      starts_with (kind_name kind) "field-" && not (is_kind kind field_metadata_changed) in
    let localization = is_kind kind schema_localization_changed in
    record {
      entries = structural;
      api =
          field_api
          || (localization
              || (is_kind kind schema_removed || is_kind kind schema_collection_changed));
      components = component;
      queries = field_api || (localization || is_kind kind schema_removed);
      workflows = structural || component;
      search_indexes = structural;
    }

-- `[a, b, c].filter(Boolean).join(separator)`, from the second kept part on.
abbrev present : Option String → List String → List String
present none rest = rest
present (some s) rest = if s == "" then rest else s ∷ rest

abbrev join : String → List String → String
join separator [] = ""
join separator (x ∷ []) = x
join separator (x ∷ (y ∷ ys)) = x <> (separator <> join separator (y ∷ ys))

abbrev pub join_identity : String → Identity → String
join_identity separator i =
    join separator (present i.schema_id (present i.field_id (present i.component_id [])))

unfoldable pub change : SchemaChangeKind → SchemaChangeRisk → Identity → String → SchemaChange
change kind risk identity summary = record {
  id = kind_name kind <> (":" <> join_identity ":" identity);
  kind = kind;
  risk = risk;
  identity = identity;
  summary = summary;
  impact = impact kind;
}

abbrev pub of_schema : String → Identity
of_schema id = record { schema_id = some id; field_id = none; component_id = none }

abbrev pub of_field : String → String → Identity
of_field schema_id id = record {
  schema_id = some schema_id;
  field_id = some id;
  component_id = none;
}

abbrev pub of_component : String → Identity
of_component id = record { schema_id = none; field_id = none; component_id = some id }

-- The two kinds that `diffNamedContracts` is called with, and the changes that they name.
pub data ContractKind : Type 0 where
  object taxonomy : ContractKind

abbrev pub contract_name : ContractKind → String
contract_name object = "object"
contract_name taxonomy = "taxonomy"

abbrev pub removed_kind : ContractKind → SchemaChangeKind
removed_kind object = object_removed
removed_kind taxonomy = taxonomy_removed

abbrev pub changed_kind : ContractKind → SchemaChangeKind
changed_kind object = object_changed
changed_kind taxonomy = taxonomy_changed

abbrev pub added_kind : ContractKind → SchemaChangeKind
added_kind object = object_added
added_kind taxonomy = taxonomy_added
