-- ===== src/Lifecycle/Diff/Same.antt =====
-- A document compared with itself.
use grid_story.Prelude.{
  String, ◌≡◌, refl, ap, ◌∙◌, Bool, not, Option, some, List, [], ◌∷◌, ◌++◌, arith, lookup, has_key,
  gather, push_if, string_eq, eq_refl, Member, here, there, sort,
}
use grid_story.Lifecycle.Document.{
  NormalizedField, NamedContract, NormalizedSchema, ComponentManifest, SchemaIrDocument,
}
use grid_story.Lifecycle.Changes.{SchemaChange, same_refl, ContractKind, object, taxonomy}
use grid_story.Lifecycle.Diff.{
  index_by, diff_field, diff_fields, diff_contract, diff_named_contracts, schema_parts,
  version_changes, diff_schema, diff_schemas, diff_component, diff_components, diff_changes,
}
use grid_story.Lifecycle.Diff.Laws.{KeysDistinct, index_by-KeysDistinct, Member-lookup}

gather-nil {ℓ κ} :
    {A : Type ℓ} {B : Type κ} (f : A → List B) (xs : List A)
    → ((a : A) → Member a xs → f a ≡ [])
    → gather f xs ≡ []
gather-nil f [] h = refl
gather-nil f (x ∷ xs) h = rw (h x (here refl)) (gather-nil f xs (λ a m. h a (there m)))

-- The two loops over a map and itself push nothing, if an element and itself give nothing.
loops-nil {ℓ} :
    {V : Type ℓ} (m : List (String × V)) (f : String → V → Option V → List SchemaChange)
    (c : String × V → SchemaChange)
    → KeysDistinct m
    → ((id : String) (v : V) → f id v (some v) ≡ [])
    → (gather (λ e. f e.0 e.1 (lookup e.0 m)) m
        ++ gather (λ e. push_if (not (has_key e.0 m)) (c e)) m)
      ≡ []
loops-nil {V} m f c d h = rw (first, second) refl
  where
    first : gather (λ e. f e.0 e.1 (lookup e.0 m)) m ≡ []
    first =
        gather-nil (λ e. f e.0 e.1 (lookup e.0 m)) m
          (λ e n. ap (f e.0 e.1) (Member-lookup e.0 e.1 m d n) ∙ h e.0 e.1)

    second : gather (λ e. push_if (not (has_key e.0 m)) (c e)) m ≡ []
    second =
        gather-nil (λ e. push_if (not (has_key e.0 m)) (c e)) m
          (λ e n. let l = Member-lookup e.0 e.1 m d n in rw l refl)

module _ (precedes : String → String → Bool) where
  field-nil : (sid id : String) (f : NormalizedField) → diff_field precedes sid id f (some f) ≡ []
  unfolding diff_field
  field-nil sid id f =
      ground
        (arith, eq_refl f.name, eq_refl f.type, eq_refl f.label, same_refl precedes f.constraints)

  fields-nil : (sid : String) (fs : List NormalizedField) → diff_fields precedes sid fs fs ≡ []
  unfolding diff_fields
  fields-nil sid fs =
      loops-nil (index_by (λ f. f.id) fs) (diff_field precedes sid) _
        (index_by-KeysDistinct (λ f. f.id) fs) (field-nil sid)

  contract-nil :
      (sid : String) (kind : ContractKind) (id : String) (v : NamedContract)
      → diff_contract precedes sid kind id v (some v) ≡ []
  unfolding diff_contract
  contract-nil sid kind id v = ground (arith, same_refl precedes v.value)

  contracts-nil :
      (sid : String) (kind : ContractKind) (vs : List NamedContract)
      → diff_named_contracts precedes sid kind vs vs ≡ []
  unfolding diff_named_contracts
  contracts-nil sid kind vs =
      loops-nil (index_by (λ v. v.id) vs) (diff_contract precedes sid kind) _
        (index_by-KeysDistinct (λ v. v.id) vs) (contract-nil sid kind)

  parts-nil : (id : String) (s : NormalizedSchema) → schema_parts precedes id s s ≡ []
  unfolding schema_parts
  parts-nil id s = ground (
    arith,
    eq_refl s.name,
    eq_refl s.description,
    eq_refl s.collection,
    same_refl precedes s.route,
    same_refl precedes s.localization,
    fields-nil id s.fields,
    contracts-nil id object s.objects,
    contracts-nil id taxonomy s.taxonomies,
  )

  schema-nil : (id : String) (s : NormalizedSchema) → diff_schema precedes id s (some s) ≡ []
  unfolding diff_schema version_changes
  schema-nil id s = rw (parts-nil id s) (ground arith)

  component-nil : (id : String) (c : ComponentManifest) → diff_component precedes id c (some c) ≡ []
  unfolding diff_component
  component-nil id c = ground (arith, same_refl precedes c.contract)

  schemas-nil : (d : SchemaIrDocument) → diff_schemas precedes d d ≡ []
  unfolding diff_schemas
  schemas-nil d =
      loops-nil (index_by (λ s. s.id) d.schemas) (diff_schema precedes) _
        (index_by-KeysDistinct (λ s. s.id) d.schemas) schema-nil

  components-nil : (d : SchemaIrDocument) → diff_components precedes d d ≡ []
  unfolding diff_components
  components-nil d =
      loops-nil (index_by (λ c. c.id) d.components) (diff_component precedes) _
        (index_by-KeysDistinct (λ c. c.id) d.components) component-nil

  -- A document has no changes from itself.
  pub diff_changes_self : (d : SchemaIrDocument) → diff_changes precedes d d ≡ []
  unfolding diff_changes sort
  diff_changes_self d = rw (schemas-nil d, components-nil d) refl
