-- ===== src/Lifecycle/Deployment/Laws.antt =====
-- When a deployment is accepted, and what it leaves behind.
use grid_story.Prelude.{
  String, ◌≡◌, refl, ap, sym, ◌∙◌, ◌≢◌, ◌↔◌, ◌⊎◌, inl, inr, Bool, true, false, ◌&&◌, ◌||◌, not,
  Option, none, some, List, [], ◌∷◌, arith, Member, here, there, not-Member-nil, ok, ◌>>◌, throw_if,
  option_eq, string_eq, if◌then◌else◌,
}
use grid_story.Errors.{GridStoryError}
use grid_story.Lifecycle.Document.{SchemaIrDocument}
use grid_story.Lifecycle.Plan.{
  MigrationStep, SchemaMigrationPlan, is_nonempty, create_schema_migration_plan,
}
use grid_story.Lifecycle.Plan.Laws.{plan_self}
use grid_story.Lifecycle.Drift.{unless_empty, generated_types_fingerprint}
use grid_story.Lifecycle.Drift.Laws.{in_sync_iff}
use grid_story.Lifecycle.Deployment.{
  Tools, Store, Entry, SchemaDeployment, check_entry, invalid_of, assess, deployment_of,
  deploy_source, drift, data_required, approval_required_error,
}

guards {ℓ} :
    {A : Type ℓ} (a b : Bool) (e f : GridStoryError) (x : A) {y : A}
    → (throw_if a e >> (throw_if b f >> ok x)) ≡ ok y
    → (a ≡ false) × (b ≡ false) × (x ≡ y)
guards true b e f x h = cc
guards false true e f x h = cc
guards false false e f x h = (refl, refl, cc)

module _ (tools : Tools) where
  -- Every stored draft is valid under the document.
  abbrev pub AllValid : SchemaIrDocument → List Entry → Type 0
  AllValid source entries = (e : Entry) → Member e entries → (check_entry tools source e).0 ≡ true

  invalid_of-nil :
      (source : SchemaIrDocument) (es : List Entry)
      → (is_nonempty (invalid_of tools source es) ≡ false) ↔ AllValid source es
  unfolding invalid_of
  invalid_of-nil source es = (to es, from es)
    where
      to : (xs : List Entry) → is_nonempty (invalid_of tools source xs) ≡ false → AllValid source xs
      to [] h e m = absurd (not-Member-nil m)
      to (x ∷ xs) h e (here p) = ap (λ y. (check_entry tools source y).0) p ∙ ground arith
      to (x ∷ xs) h e (there m) = to xs (ground arith) e m

      from :
          (xs : List Entry) → AllValid source xs → is_nonempty (invalid_of tools source xs) ≡ false
      from [] h = refl
      from (x ∷ xs) h =
          let first = h x (here refl) in let rest = from xs (λ e m. h e (there m)) in ground arith

  -- The plan needs no approval, or the caller approves exactly this plan.
  abbrev pub IsApproved : SchemaMigrationPlan → Option String → Bool → Type 0
  IsApproved plan expected approved =
      (plan.approval_required ≡ false) ⊎ ((approved ≡ true) × (expected ≡ some plan.id))

  approval_iff :
      (required approved : Bool) (expected : Option String) (id : String)
      → ((required && (not approved || not (option_eq.test expected (some id)))) ≡ false)
        ↔ ((required ≡ false) ⊎ ((approved ≡ true) × (expected ≡ some id)))
  approval_iff required approved expected id =
      (λ h. to required approved (option_eq.test expected (some id)) refl h, λ h. from h)
    where
      to :
          (r a b : Bool)
          → option_eq.test expected (some id) ≡ b
          → (r && (not a || not b)) ≡ false
          → (r ≡ false) ⊎ ((a ≡ true) × (expected ≡ some id))
      to false a b e h = inl refl
      to true false b e h = cc
      to true true true e h = inr (refl, (option_eq.test_iff expected (some id)).0 e)
      to true true false e h = cc

      from :
          (required ≡ false) ⊎ ((approved ≡ true) × (expected ≡ some id))
          → (required && (not approved || not (option_eq.test expected (some id)))) ≡ false
      from (inl r) = rw r refl
      from (inr (a, e)) = let b = (option_eq.test_iff expected (some id)).1 e in ground (arith, b)

  abbrev plan_of : SchemaIrDocument → Store → SchemaMigrationPlan
  plan_of source store = (assess tools source store).plan

  accepted :
      (source : SchemaIrDocument) (actor : String) (expected : Option String) (approved : Bool)
      (store : Store)
      → AllValid source store.entries
      → IsApproved (plan_of source store) expected approved
      → deploy_source tools source actor expected approved store
        ≡ ok (
          deployment_of tools source (plan_of source store) actor,
          record store {
            deployment = some (deployment_of tools source (plan_of source store) actor);
          },
        )
  unfolding deploy_source assess
  accepted source actor expected approved store v p =
      let a = (invalid_of-nil source store.entries).1 v in
      let b =
        (approval_iff (plan_of source store).approval_required approved expected
            (plan_of source store).id).1
          p in
      rw (a, b) refl

  invalid_entries-lem :
      (source : SchemaIrDocument) (store : Store)
      → (assess tools source store).invalid_entries ≡ invalid_of tools source store.entries
  unfolding assess
  invalid_entries-lem source store = refl

  deploy_source_saves :
      (source : SchemaIrDocument) (actor : String) (expected : Option String) (approved : Bool)
      (store : Store) (d : SchemaDeployment) (next : Store)
      → (deploy_source tools source actor expected approved store ≡ ok (d, next)) ↔ (
          AllValid source store.entries
          × IsApproved (assess tools source store).plan expected approved
          × (d ≡ deployment_of tools source (assess tools source store).plan actor)
          × (next ≡ record store { deployment = some d }))
  unfolding deploy_source
  deploy_source_saves source actor expected approved store d next = (to, from)
    where
      to :
          deploy_source tools source actor expected approved store ≡ ok (d, next)
          → AllValid source store.entries
            × IsApproved (plan_of source store) expected approved
            × (d ≡ deployment_of tools source (plan_of source store) actor)
            × (next ≡ record store { deployment = some d })
      to h =
          let (a, b, e) = guards _ _ data_required approval_required_error _ h in
          let p = ap (λ (q : SchemaDeployment × Store). q.0) e in
          let q = ap (λ (q : SchemaDeployment × Store). q.1) e in
          (
            (invalid_of-nil source store.entries).0
                (ap is_nonempty (sym (invalid_entries-lem source store)) ∙ a),
            (approval_iff (plan_of source store).approval_required approved expected
                  (plan_of source store).id).0
                b,
            sym p,
            sym q ∙ ap (λ x. record store { deployment = some x }) p,
          )

      from :
          AllValid source store.entries
            × IsApproved (plan_of source store) expected approved
            × (d ≡ deployment_of tools source (plan_of source store) actor)
            × (next ≡ record store { deployment = some d })
          → deploy_source tools source actor expected approved store ≡ ok (d, next)
      from (v, p, e, f) = accepted source actor expected approved store v p ∙ cc (e, f)

  -- What a deployment of the source by an actor holds: the document, its fingerprint, the generated
  -- types with their hash, the id of the plan if the plan has steps, and the actor.
  abbrev pub Records : SchemaIrDocument → SchemaMigrationPlan → String → SchemaDeployment → Type 0
  Records source plan actor d =
      (d.document ≡ source)
      × (d.fingerprint ≡ tools.fingerprint source)
      × (d.generated_types ≡ tools.generate source)
      × (d.generated_types_fingerprint ≡ tools.sha256 (tools.generate source))
      × (((plan.steps ≡ []) × (d.migration_plan_id ≡ none))
          ⊎ ((plan.steps ≢ []) × (d.migration_plan_id ≡ some plan.id)))
      × (d.actor_id ≡ actor)

  plan_id_iff :
      (steps : List MigrationStep) (id : String) (recorded : Option String)
      → (recorded ≡ (if is_nonempty steps then some id else none))
        ↔ (((steps ≡ []) × (recorded ≡ none)) ⊎ ((steps ≢ []) × (recorded ≡ some id)))
  plan_id_iff [] id recorded =
      (λ h. inl (refl, h), λ h. elim h [ inl a ↦ a.1 | inr b ↦ absurd (b.0 refl) ])
  plan_id_iff (x ∷ xs) id recorded =
      (λ h. inr (λ e. cc, h), λ h. elim h [ inl a ↦ cc a.0 | inr b ↦ b.1 ])

  Records-deployment_of :
      (source : SchemaIrDocument) (plan : SchemaMigrationPlan) (actor : String)
      (d : SchemaDeployment)
      → (d ≡ deployment_of tools source plan actor) ↔ Records source plan actor d
  unfolding deployment_of generated_types_fingerprint
  Records-deployment_of source plan actor d = (
    λ h. (
      ap (λ (x : SchemaDeployment). x.document) h,
      ap (λ (x : SchemaDeployment). x.fingerprint) h,
      ap (λ (x : SchemaDeployment). x.generated_types) h,
      ap (λ (x : SchemaDeployment). x.generated_types_fingerprint) h,
      (plan_id_iff plan.steps plan.id d.migration_plan_id).0
          (ap (λ (x : SchemaDeployment). x.migration_plan_id) h),
      ap (λ (x : SchemaDeployment). x.actor_id) h,
    ),
    λ h.
        let (a, b, c, e, f, g) = h in
        let m = (plan_id_iff plan.steps plan.id d.migration_plan_id).1 f in
        λ i. record {
          document = a i;
          fingerprint = b i;
          generated_types = c i;
          generated_types_fingerprint = e i;
          migration_plan_id = m i;
          actor_id = g i;
        },
  )

  -- A deployment succeeds exactly when every stored draft is valid under the source schema and the
  -- migration plan needs no approval or is approved under its id. The deployment that it returns
  -- and stores holds the source document, its fingerprint, the types generated from it and their
  -- hash, the id of the plan exactly when the plan has steps, and the actor; the entries stay.
  pub deploy_source_iff :
      (source : SchemaIrDocument) (actor : String) (expected : Option String) (approved : Bool)
      (store : Store) (d : SchemaDeployment) (next : Store)
      → (deploy_source tools source actor expected approved store ≡ ok (d, next)) ↔ (
          AllValid source store.entries
          × IsApproved (assess tools source store).plan expected approved
          × Records source (assess tools source store).plan actor d
          × (next ≡ record store { deployment = some d }))
  deploy_source_iff source actor expected approved store d next =
      let saves = deploy_source_saves source actor expected approved store d next in
      let fields = Records-deployment_of source (assess tools source store).plan actor d in
      (
        λ h. let (v, a, e, n) = saves.0 h in (v, a, fields.0 e, n),
        λ h. let (v, a, r, n) = h in saves.1 (v, a, fields.1 r, n),
      )

  -- After a deployment, drift detection finds the scope in sync with the same source, if the
  -- fingerprint, the generated types and their hash are not empty texts.
  pub deploy-drift :
      (source : SchemaIrDocument) (actor : String) (expected : Option String) (approved : Bool)
      (store : Store) (d : SchemaDeployment) (next : Store)
      → tools.fingerprint source ≢ ""
      → tools.generate source ≢ ""
      → tools.sha256 (tools.generate source) ≢ ""
      → deploy_source tools source actor expected approved store ≡ ok (d, next)
      → (drift tools source next).in_sync ≡ true
  unfolding drift deployment_of generated_types_fingerprint
  deploy-drift source actor expected approved store d next nf ng nh h =
      let (v, p, e, f) = (deploy_source_saves source actor expected approved store d next).0 h in
      rw (f, e)
        ((in_sync_iff tools.fingerprint tools.sha256 tools.generate _).1
          (nf, (nf, refl), (nf, refl), rw (kept (tools.generate source) ng) (nh, refl)))
    where
      kept : (t : String) → t ≢ "" → unless_empty (some t) ≡ some t
      kept String.[] n = absurd (n refl)
      kept (String.◌∷◌ c t) n = refl

  -- The source that is deployed can be deployed again without approval, while the drafts are valid
  -- under it; such a deployment records no migration plan.
  pub redeploy :
      (source : SchemaIrDocument) (actor : String) (store : Store) (d : SchemaDeployment)
      → store.deployment ≡ some d
      → d.document ≡ source
      → AllValid source store.entries
      → (again : SchemaDeployment) × (deploy_source tools source actor none false store
          ≡ ok (again, record store { deployment = some again }))
        × (again.migration_plan_id ≡ none)
        × (again.document ≡ source)
  unfolding assess deployment_of
  redeploy source actor store d current same valid =
      let (s, a, l, g, r, c) = plan_self tools.precedes tools.fingerprint tools.plan_id source in
      (
        deployment_of tools source (plan_of source store) actor,
        accepted source actor none false store valid
            (inl (ap (λ q. q.approval_required) planned ∙ a)),
        rw (planned, s) refl,
        refl,
      )
    where
      planned :
          plan_of source store
          ≡ create_schema_migration_plan tools.precedes tools.fingerprint tools.plan_id source
              source
      planned = rw (current, same) refl
