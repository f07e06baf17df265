-- ===== src/Context.antt =====
-- packages/schema/src/context.ts and content.ts: scopes, principals, the topology and content.
pub mod Text
use grid_story.Prelude.{
  ℕ, String, Bool, List, Option, Eq, ◌↔◌, ◌≡◌, refl, true, false, ◌==◌, string_eq, ◌&&◌, and_true,
  eq_iff, ==_refl, subst,
}

pub data ContentPerspective : Type 0 where
  draft published : ContentPerspective

pub data Status : Type 0 where
  active suspended archived locked : Status

pub record Organization : Type 0 where
  pub id : String
  pub name : String
  pub status : Status

pub record Tenant : Type 0 where
  pub id : String
  pub organization_id : String
  pub name : String
  pub status : Status

pub record Workspace : Type 0 where
  pub id : String
  pub tenant_id : String
  pub name : String
  pub status : Status

pub record Site : Type 0 where
  pub id : String
  pub workspace_id : String
  pub name : String
  pub status : Status

pub data EnvironmentKind : Type 0 where
  development preview production : EnvironmentKind

pub record Environment : Type 0 where
  pub id : String
  pub site_id : String
  pub name : String
  pub kind : EnvironmentKind
  pub status : Status

pub record LocaleConfiguration : Type 0 where
  pub code : String
  pub site_id : String
  pub label : String
  pub fallback_locale : Option String
  pub fallback_locales : Option (List String)
  pub route_prefix : Option String
  pub required : Option Bool
  pub default : Bool
  pub enabled : Bool

pub data PrincipalType : Type 0 where
  user service_account anonymous : PrincipalType

-- The part of a grant that a role assignment shares (`Omit<AuthorizationGrant, 'actions'>`).
pub record Restriction : Type 0 where
  pub organization_id : Option String
  pub tenant_id : Option String
  pub workspace_id : Option String
  pub site_id : Option String
  pub environment_ids : Option (List String)
  pub locales : Option (List String)
  pub content_types : Option (List String)

pub record AuthorizationGrant : Type 0 where
  pub actions : List String
  pub restriction : Restriction

pub record RoleAssignment : Type 0 where
  pub role_id : String
  pub restriction : Restriction

pub data AuthenticationMethod : Type 0 where
  oidc saml webauthn break_glass session service_token development anonymous : AuthenticationMethod

pub record Principal : Type 0 where
  pub id : String
  pub type : PrincipalType
  pub roles : List String
  pub role_assignments : Option (List RoleAssignment)
  pub grants : Option (List AuthorizationGrant)
  pub authentication_method : Option AuthenticationMethod

-- `ContentScope`: the six parts of a scope.
pub record ContentScope : Type 0 where
  pub organization_id : String
  pub tenant_id : String
  pub workspace_id : String
  pub site_id : String
  pub environment_id : String
  pub locale : String

-- The six parts are the same; a query asks this of a row.
abbrev pub scope_beq : ContentScope → ContentScope → Bool
scope_beq a b =
    (a.organization_id == b.organization_id)
    && ((a.tenant_id == b.tenant_id)
        && ((a.workspace_id == b.workspace_id)
            && ((a.site_id == b.site_id)
                && ((a.environment_id == b.environment_id) && (a.locale == b.locale)))))

pub scope_beq_iff : (a b : ContentScope) → (scope_beq a b ≡ true) ↔ (a ≡ b)
scope_beq_iff a b = (to, from)
  where
    to : scope_beq a b ≡ true → a ≡ b
    to h =
        let (o, h1) = and_true (a.organization_id == b.organization_id) _ h in
        let (t, h2) = and_true (a.tenant_id == b.tenant_id) _ h1 in
        let (w, h3) = and_true (a.workspace_id == b.workspace_id) _ h2 in
        let (s, h4) = and_true (a.site_id == b.site_id) _ h3 in
        let (e, l) = and_true (a.environment_id == b.environment_id) _ h4 in
        cc (
          (eq_iff a.organization_id b.organization_id).0 o,
          (eq_iff a.tenant_id b.tenant_id).0 t,
          (eq_iff a.workspace_id b.workspace_id).0 w,
          (eq_iff a.site_id b.site_id).0 s,
          (eq_iff a.environment_id b.environment_id).0 e,
          (eq_iff a.locale b.locale).0 l,
        )

    from : a ≡ b → scope_beq a b ≡ true
    from h =
        subst (λ c. scope_beq a c ≡ true) h
          (rw
            (
              ==_refl a.organization_id,
              ==_refl a.tenant_id,
              ==_refl a.workspace_id,
              ==_refl a.site_id,
              ==_refl a.environment_id,
              ==_refl a.locale,
            )
            refl)

instance abbrev pub scope_eq : Eq ContentScope
scope_eq = record { test = scope_beq; test_iff = scope_beq_iff }

pub record RequestContext : Type 0 where
  pub scope : ContentScope
  pub open scope use *
  pub perspective : ContentPerspective
  pub principal : Principal

pub record PlatformTopology : Type 0 where
  pub organizations : List Organization
  pub tenants : List Tenant
  pub workspaces : List Workspace
  pub sites : List Site
  pub environments : List Environment
  pub locales : List LocaleConfiguration

abbrev pub status_beq : Status → Status → Bool
status_beq active active = true
status_beq suspended suspended = true
status_beq archived archived = true
status_beq locked locked = true
status_beq _ _ = false

pub status_beq_iff : (a b : Status) → (status_beq a b ≡ true) ↔ (a ≡ b)
status_beq_iff active active = (λ h. refl, λ h. refl)
status_beq_iff suspended suspended = (λ h. refl, λ h. refl)
status_beq_iff archived archived = (λ h. refl, λ h. refl)
status_beq_iff locked locked = (λ h. refl, λ h. refl)
status_beq_iff _ _ = (λ h. cc, λ h. cc)

instance abbrev pub status_eq : Eq Status
status_eq = record { test = status_beq; test_iff = status_beq_iff }
