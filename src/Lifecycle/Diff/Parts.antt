-- ===== src/Lifecycle/Diff/Parts.antt =====
-- Which parts of a comparison are destructive.
use grid_story.Prelude.{
  ◌<◌, String, ◌≡◌, refl, sym, ◌∙◌, ◌↔◌, ◌⊎◌, Bool, false, ◌||◌, not, Option, none, some, List, [],
  ◌∷◌, ◌++◌, arith, Member, lookup, has_key, any, gather, push_if, any-gather, any-push_if,
  any-append, any-false_iff, ◌==◌, string_eq, eq_iff,
}
use grid_story.Lifecycle.Document.{
  NormalizedField, NamedContract, NormalizedSchema, ComponentManifest,
}
use grid_story.Lifecycle.Changes.{SchemaChange, change, ContractKind, object, taxonomy}
use grid_story.Lifecycle.Diff.{
  index_by, diff_field, added_field, diff_fields, diff_contract, diff_named_contracts, schema_parts,
  version_changes, diff_component,
}
use grid_story.Lifecycle.Diff.Laws.{destroys}
use grid_story.Lifecycle.Diff.Kept.{FieldKept, ContractKept, ComponentKept}

module _ (precedes : String → String → Bool) where
  field_iff :
      (sid id : String) (f : NormalizedField) (o : Option NormalizedField)
      → (any destroys (diff_field precedes sid id f o) ≡ false) ↔ FieldKept precedes f o
  unfolding diff_field change
  field_iff sid id f none = (λ h. cc, λ h. absurd h)
  field_iff sid id f (some g) =
      (λ h. ground (arith, eq_iff f.type g.type), λ h. ground (arith, eq_iff f.type g.type))

  pub contract_iff :
      (sid : String) (kind : ContractKind) (id : String) (v : NamedContract)
      (o : Option NamedContract)
      → (any destroys (diff_contract precedes sid kind id v o) ≡ false) ↔ ContractKept precedes o
  unfolding diff_contract change
  contract_iff sid kind id v none = (λ h. cc, λ h. absurd h)
  contract_iff sid kind id v (some w) = (λ h. tt, λ h. ground arith)

  -- Nothing destructive is pushed for what only the later document has.
  pub added_kept {ℓ} :
      {V : Type ℓ} (t : String × V → Bool) (c : String × V → SchemaChange) (xs : List (String × V))
      → ((e : String × V) → destroys (c e) ≡ false)
      → any destroys (gather (λ e. push_if (t e) (c e)) xs) ≡ false
  added_kept t c [] h = refl
  added_kept t c (x ∷ xs) h =
      any-append destroys (push_if (t x) (c x)) (gather (λ e. push_if (t e) (c e)) xs)
      ∙ ground (arith, any-push_if destroys (t x) (c x), h x, added_kept t c xs h)

  -- A loop over the earlier map and a loop over the later one.
  pub both_iff {ℓ} :
      {V : Type ℓ} (f : String × V → List SchemaChange) (xs : List (String × V))
      (more : List SchemaChange) (Kept : String × V → Type 0)
      → any destroys more ≡ false
      → ((e : String × V) → (any destroys (f e) ≡ false) ↔ Kept e)
      → (any destroys (gather f xs ++ more) ≡ false) ↔ ((e : String × V) → Member e xs → Kept e)
  both_iff {V} f xs more Kept none_more each = (to, from)
    where
      split : any destroys (gather f xs ++ more) ≡ any (λ e. any destroys (f e)) xs
      split =
          any-append destroys (gather f xs) more
          ∙ ground (arith, none_more, any-gather destroys f xs)

      to : any destroys (gather f xs ++ more) ≡ false → (e : String × V) → Member e xs → Kept e
      to h e m = (each e).0 ((any-false_iff (λ x. any destroys (f x)) xs).0 (sym split ∙ h) e m)

      from : ((e : String × V) → Member e xs → Kept e) → any destroys (gather f xs ++ more) ≡ false
      from h = split ∙ (any-false_iff (λ x. any destroys (f x)) xs).1 (λ e m. (each e).1 (h e m))

  added_field_harmless :
      (sid id : String) (f : NormalizedField) → destroys (added_field precedes sid id f) ≡ false
  unfolding added_field change
  added_field_harmless sid id f = ground arith

  pub fields_iff :
      (sid : String) (fs gs : List NormalizedField)
      → (any destroys (diff_fields precedes sid fs gs) ≡ false) ↔ (
          (e : String × NormalizedField)
          → Member e (index_by (λ f. f.id) fs)
          → FieldKept precedes e.1 (lookup e.0 (index_by (λ f. f.id) gs)))
  unfolding diff_fields
  fields_iff sid fs gs =
      both_iff _ (index_by (λ f. f.id) fs) _
        (λ e. FieldKept precedes e.1 (lookup e.0 (index_by (λ f. f.id) gs)))
        (added_kept (λ e. not (has_key e.0 (index_by (λ f. f.id) fs)))
          (λ e. added_field precedes sid e.0 e.1) (index_by (λ f. f.id) gs)
          (λ e. added_field_harmless sid e.0 e.1))
        (λ e. field_iff sid e.0 e.1 (lookup e.0 (index_by (λ f. f.id) gs)))

  pub contracts_iff :
      (sid : String) (kind : ContractKind) (vs ws : List NamedContract)
      → (any destroys (diff_named_contracts precedes sid kind vs ws) ≡ false) ↔ (
          (e : String × NamedContract)
          → Member e (index_by (λ v. v.id) vs)
          → ContractKept precedes (lookup e.0 (index_by (λ v. v.id) ws)))
  unfolding diff_named_contracts change
  contracts_iff sid kind vs ws =
      both_iff _ (index_by (λ v. v.id) vs) _
        (λ e. ContractKept precedes (lookup e.0 (index_by (λ v. v.id) ws)))
        (added_kept (λ e. not (has_key e.0 (index_by (λ v. v.id) vs))) _ (index_by (λ v. v.id) ws)
          (λ e. refl))
        (λ e. contract_iff sid kind e.0 e.1 (lookup e.0 (index_by (λ v. v.id) ws)))

  pub version_iff :
      (id : String) (s t : NormalizedSchema) (structural : Bool)
      → (any destroys (version_changes id s t structural) ≡ false)
        ↔ ((s.version < t.version) ⊎ ((s.version ≡ t.version) × (structural ≡ false)))
  unfolding version_changes change
  version_iff id s t structural = (λ h. ground arith, λ h. ground arith)

  pub schema_parts-destroys :
      (id : String) (s t : NormalizedSchema)
      → any destroys (schema_parts precedes id s t) ≡ (
          not (s.collection == t.collection)
          || (any destroys (diff_fields precedes id s.fields t.fields)
              || (any destroys (diff_named_contracts precedes id object s.objects t.objects)
                  || any destroys
                      (diff_named_contracts precedes id taxonomy s.taxonomies t.taxonomies))))
  unfolding schema_parts change
  schema_parts-destroys id s t = simp (any-append, any-push_if) (ground arith)

  pub component_iff :
      (id : String) (c : ComponentManifest) (o : Option ComponentManifest)
      → (any destroys (diff_component precedes id c o) ≡ false) ↔ ComponentKept precedes c o
  unfolding diff_component change
  component_iff id c none = (λ h. cc, λ h. absurd h)
  component_iff id c (some d) = (λ h. ground arith, λ h. ground arith)
