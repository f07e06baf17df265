-- ===== src/Authorization/Meaning.antt =====
-- What an authorization decision means, said without the loops of the code.
use grid_story.Prelude.{
  String, ◌≡◌, refl, ◌↔◌, ◌⊎◌, inl, inr, ◌≢◌, true, false, Option, none, some, List, [], arith,
  Member, or_else, lookup, contains-Member, Member-contains, or_true, string_eq, eq_iff,
}
use grid_story.Context.{Restriction, AuthorizationGrant, RoleAssignment, RequestContext}
use grid_story.Context.Text.{is_empty}
use grid_story.Authorization.Actions.{GridStoryAction, action_name, RoleDefinition}
use grid_story.Authorization.{
  AuthorizationResource, includes_action, differs, excludes, lacks_type, assignment_scope_matches,
  accepts_legacy_roles, role_includes,
}

-- An absent or empty part of a restriction leaves that part of the context open.
abbrev pub Agrees : Option String → String → Type 0
Agrees none value = Unit
Agrees (some field) value = (field ≡ "") ⊎ (field ≡ value)

abbrev pub Lists : Option (List String) → String → Type 0
Lists none value = Unit
Lists (some values) value = Member value values

-- A restriction to content types asks for a resource that names its type.
abbrev pub ListsType : Option (List String) → Option String → Type 0
ListsType none content_type = Unit
ListsType (some values) none = ⊥
ListsType (some values) (some content_type) = (content_type ≢ "") × Member content_type values

pub record Covers (r : Restriction) (context : RequestContext) (resource : AuthorizationResource)
    : Type 0 where
  pub organization : Agrees r.organization_id context.organization_id
  pub tenant : Agrees r.tenant_id context.tenant_id
  pub workspace : Agrees r.workspace_id context.workspace_id
  pub site : Agrees r.site_id context.site_id
  pub environment : Lists r.environment_ids context.environment_id
  pub locale : Lists r.locales context.locale
  pub content_type : ListsType r.content_types resource.content_type

abbrev pub Includes : List String → GridStoryAction → Type 0
Includes actions action = Member "*" actions ⊎ Member (action_name action) actions

module _ (roles : List (String × RoleDefinition)) where
  abbrev pub HasRole : String → GridStoryAction → Type 0
  HasRole id action =
      (role : RoleDefinition) × (lookup id roles ≡ some role) × Includes role.actions action

  -- The three ways to be allowed.
  pub data Permitted (context : RequestContext) (action : GridStoryAction)
      (resource : AuthorizationResource) : Type 0 where
    by_assignment :
        (a : RoleAssignment)
        → Member a (or_else context.principal.role_assignments [])
        → HasRole a.role_id action
        → Covers a.restriction context resource
        → Permitted context action resource
    by_role :
        (id : String)
        → accepts_legacy_roles context.principal.authentication_method ≡ true
        → Member id context.principal.roles
        → HasRole id action
        → Permitted context action resource
    by_grant :
        (g : AuthorizationGrant)
        → Member g (or_else context.principal.grants [])
        → Includes g.actions action
        → Covers g.restriction context resource
        → Permitted context action resource

is_empty_iff : (s : String) → (is_empty s ≡ true) ↔ (s ≡ "")
is_empty_iff String.[] = (λ h. refl, λ h. refl)
is_empty_iff (String.◌∷◌ c s) = (λ h. cc, λ h. cc)

differs_iff : (f : Option String) (v : String) → (differs f v ≡ false) ↔ Agrees f v
differs_iff none v = (λ h. tt, λ h. refl)
differs_iff (some f) v = (λ h. to h, λ h. from h)
  where
    to : differs (some f) v ≡ false → Agrees (some f) v
    to h = ground (arith, is_empty_iff f, eq_iff f v)

    from : Agrees (some f) v → differs (some f) v ≡ false
    from h = ground (arith, is_empty_iff f, eq_iff f v)

excludes_iff : (f : Option (List String)) (v : String) → (excludes f v ≡ false) ↔ Lists f v
excludes_iff none v = (λ h. tt, λ h. refl)
excludes_iff (some vs) v =
    (λ h. contains-Member vs v (ground arith), λ m. let t = Member-contains vs v m in ground arith)

types_iff :
    (f : Option (List String)) (t : Option String)
    → ((lacks_type f t ≡ false) × (excludes f (or_else t "") ≡ false)) ↔ ListsType f t
types_iff none t = (λ h. tt, λ h. (refl, refl))
types_iff (some vs) none = (λ h. cc h.0, λ h. absurd h)
types_iff (some vs) (some t) = (
  λ h. (λ e. let k = (is_empty_iff t).1 e in cc h.0, (excludes_iff (some vs) t).0 h.1),
  λ h. (ground (arith, is_empty_iff t, h.0), (excludes_iff (some vs) t).1 h.1),
)

pub assignment_scope_matches_iff :
    (r : Restriction) (context : RequestContext) (resource : AuthorizationResource)
    → (assignment_scope_matches r context resource ≡ true) ↔ Covers r context resource
unfolding assignment_scope_matches
assignment_scope_matches_iff r context resource = (λ h. to h, λ c. from c)
  where
    to : assignment_scope_matches r context resource ≡ true → Covers r context resource
    to h = record {
      organization = (differs_iff r.organization_id context.organization_id).0 (ground arith);
      tenant = (differs_iff r.tenant_id context.tenant_id).0 (ground arith);
      workspace = (differs_iff r.workspace_id context.workspace_id).0 (ground arith);
      site = (differs_iff r.site_id context.site_id).0 (ground arith);
      environment = (excludes_iff r.environment_ids context.environment_id).0 (ground arith);
      locale = (excludes_iff r.locales context.locale).0 (ground arith);
      content_type =
          (types_iff r.content_types resource.content_type).0 (ground arith, ground arith);
    }

    from : Covers r context resource → assignment_scope_matches r context resource ≡ true
    from c =
        let a = (differs_iff r.organization_id context.organization_id).1 c.organization in
        let b = (differs_iff r.tenant_id context.tenant_id).1 c.tenant in
        let d = (differs_iff r.workspace_id context.workspace_id).1 c.workspace in
        let e = (differs_iff r.site_id context.site_id).1 c.site in
        let f = (excludes_iff r.environment_ids context.environment_id).1 c.environment in
        let g = (excludes_iff r.locales context.locale).1 c.locale in
        let (k, l) = (types_iff r.content_types resource.content_type).1 c.content_type in
        rw (a, b, d, e, f, g, k, l)

pub includes_action_iff :
    (actions : List String) (action : GridStoryAction)
    → (includes_action actions action ≡ true) ↔ Includes actions action
unfolding includes_action
includes_action_iff actions action = (λ h. to h, λ h. from h)
  where
    to : includes_action actions action ≡ true → Includes actions action
    to h = elim (or_true _ _ h) [
      | inl a ↦ inl (contains-Member actions "*" a)
      | inr b ↦ inr (contains-Member actions (action_name action) b)
    ]

    from : Includes actions action → includes_action actions action ≡ true
    from (inl m) = rw (Member-contains actions "*" m)
    from (inr m) = let t = Member-contains actions (action_name action) m in ground arith

pub role_includes_iff :
    (roles : List (String × RoleDefinition)) (id : String) (action : GridStoryAction)
    → (role_includes (lookup id roles) action ≡ true) ↔ HasRole roles id action
role_includes_iff roles id action = (λ h. to (lookup id roles) refl h, λ h. from h)
  where
    to :
        (o : Option RoleDefinition)
        → lookup id roles ≡ o
        → role_includes o action ≡ true
        → HasRole roles id action
    to none e h = cc
    to (some role) e h = (role, e, (includes_action_iff role.actions action).0 h)

    from : HasRole roles id action → role_includes (lookup id roles) action ≡ true
    from (role, e, h) = rw e ((includes_action_iff role.actions action).1 h)
