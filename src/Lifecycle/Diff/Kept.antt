-- ===== src/Lifecycle/Diff/Kept.antt =====
-- What a compatible document keeps of an earlier one.
use grid_story.Prelude.{
  ◌<◌, String, ◌≡◌, ◌⊎◌, ◌≢◌, Bool, true, false, Option, none, some, List, Member, lookup, any,
  string_eq,
}
use grid_story.Lifecycle.Document.{
  NormalizedField, NamedContract, NormalizedSchema, ComponentManifest, SchemaIrDocument,
}
use grid_story.Lifecycle.Changes.{same}
use grid_story.Lifecycle.Diff.{index_by, schema_parts, is_structural}

abbrev pub fields_of : NormalizedSchema → List (String × NormalizedField)
fields_of s = index_by (λ f. f.id) s.fields

abbrev pub objects_of : NormalizedSchema → List (String × NamedContract)
objects_of s = index_by (λ v. v.id) s.objects

abbrev pub taxonomies_of : NormalizedSchema → List (String × NamedContract)
taxonomies_of s = index_by (λ v. v.id) s.taxonomies

abbrev pub schemas_of : SchemaIrDocument → List (String × NormalizedSchema)
schemas_of d = index_by (λ s. s.id) d.schemas

abbrev pub components_of : SchemaIrDocument → List (String × ComponentManifest)
components_of d = index_by (λ c. c.id) d.components

module _ (precedes : String → String → Bool) where
  -- The field is still there, with its type.
  abbrev pub FieldKept : NormalizedField → Option NormalizedField → Type 0
  FieldKept f none = ⊥
  FieldKept f (some g) = f.type ≡ g.type

  abbrev pub ContractKept : Option NamedContract → Type 0
  ContractKept none = ⊥
  ContractKept (some v) = Unit

  -- The version went up, or it is the same and nothing structural changed.
  abbrev pub IsVersioned : String → NormalizedSchema → NormalizedSchema → Type 0
  IsVersioned id s t =
      (s.version < t.version)
      ⊎ ((s.version ≡ t.version) × (any is_structural (schema_parts precedes id s t) ≡ false))

  pub record SchemaKept (id : String) (s t : NormalizedSchema) : Type 0 where
    pub collection : s.collection ≡ t.collection
    pub fields :
        (e : String × NormalizedField)
        → Member e (fields_of s)
        → FieldKept e.1 (lookup e.0 (fields_of t))
    pub objects :
        (e : String × NamedContract)
        → Member e (objects_of s)
        → ContractKept (lookup e.0 (objects_of t))
    pub taxonomies :
        (e : String × NamedContract)
        → Member e (taxonomies_of s)
        → ContractKept (lookup e.0 (taxonomies_of t))
    pub versioned : IsVersioned id s t

  abbrev pub SchemaFound : String → NormalizedSchema → Option NormalizedSchema → Type 0
  SchemaFound id s none = ⊥
  SchemaFound id s (some t) = SchemaKept id s t

  -- The component is still there, and has another version if its contract differs.
  abbrev pub ComponentKept : ComponentManifest → Option ComponentManifest → Type 0
  ComponentKept c none = ⊥
  ComponentKept c (some d) = (same precedes c.contract d.contract ≡ true) ⊎ (c.version ≢ d.version)

  pub record IsCompatible (before after : SchemaIrDocument) : Type 0 where
    pub schemas :
        (e : String × NormalizedSchema)
        → Member e (schemas_of before)
        → SchemaFound e.0 e.1 (lookup e.0 (schemas_of after))
    pub components :
        (e : String × ComponentManifest)
        → Member e (components_of before)
        → ComponentKept e.1 (lookup e.0 (components_of after))
