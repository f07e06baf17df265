-- ===== src/Topology.antt =====
-- packages/core/src/scope-registry.ts: which scopes a topology admits.
pub mod Laws
mod Tests
use grid_story.Prelude.{
  ℕ, String, Bool, true, false, not, ◌&&◌, Option, none, some, List, [], ◌∷◌, ◌==◌, string_eq, find,
  ok, err, ◌>>=◌, if◌then◌else◌,
}
use grid_story.Errors.{GridStoryError, Outcome, grid_story_error}
use grid_story.Context.{
  Organization, Tenant, Workspace, Site, Environment, LocaleConfiguration, PlatformTopology,
  RequestContext, active, development, production, status_eq,
}

abbrev pub invalid_scope_error : String → GridStoryError
invalid_scope_error message = grid_story_error message "invalid_scope" 400

-- `if (!found || !test(found)) throw new InvalidScopeError(message);`
pub require {ℓ} : {A : Type ℓ} → Option A → (A → Bool) → String → Outcome A
require none test message = err (invalid_scope_error message)
require (some a) test message = if test a then ok a else err (invalid_scope_error message)

module _ (topology : PlatformTopology) (input : RequestContext) where
  abbrev pub find_organization : Option Organization
  find_organization =
      find (λ candidate. candidate.id == input.organization_id) topology.organizations

  abbrev pub find_tenant : Option Tenant
  find_tenant = find (λ candidate. candidate.id == input.tenant_id) topology.tenants

  abbrev pub find_workspace : Option Workspace
  find_workspace = find (λ candidate. candidate.id == input.workspace_id) topology.workspaces

  abbrev pub find_site : Option Site
  find_site = find (λ candidate. candidate.id == input.site_id) topology.sites

  abbrev pub find_environment : Option Environment
  find_environment = find (λ candidate. candidate.id == input.environment_id) topology.environments

  abbrev pub find_locale : Site → Option LocaleConfiguration
  find_locale site =
      find (λ candidate. (candidate.site_id == site.id) && (candidate.code == input.locale))
        topology.locales

  -- `resolve`: the input itself, if every part of it is there and belongs to the part above it.
  pub resolve : Outcome RequestContext
  unfolding require
  resolve =
      require find_organization (λ organization. organization.status == active)
        "Organization is not active or does not exist."
      >>= λ organization.
          require find_tenant
            (λ tenant. (tenant.organization_id == organization.id) && (tenant.status == active))
            "Tenant does not belong to the active organization."
          >>= λ tenant.
              require find_workspace
                (λ workspace. (workspace.tenant_id == tenant.id) && (workspace.status == active))
                "Workspace does not belong to the active tenant."
              >>= λ workspace.
                  require find_site
                    (λ site. (site.workspace_id == workspace.id) && (site.status == active))
                    "Site does not belong to the active workspace."
                  >>= λ site.
                      require find_environment (λ environment. environment.site_id == site.id)
                        "Environment does not belong to the selected site."
                      >>= λ environment.
                          require (find_locale site) (λ locale. locale.enabled)
                            "Locale is not enabled for the selected site."
                          >>= λ locale. ok input

pub create_local_topology : String → PlatformTopology
create_local_topology tenant_id = record {
  organizations = record { id = "local"; name = "Local organization"; status = active } ∷ [];
  tenants =
      record { id = tenant_id; organization_id = "local"; name = "Local tenant"; status = active }
      ∷ [];
  workspaces =
      record { id = "default"; tenant_id = tenant_id; name = "Default workspace"; status = active }
      ∷ [];
  sites =
      record { id = "default"; workspace_id = "default"; name = "Default site"; status = active }
      ∷ [];
  environments =
      record {
        id = "development";
        site_id = "default";
        name = "Development";
        kind = development;
        status = active;
      }
      ∷ (record {
        id = "production";
        site_id = "default";
        name = "Production";
        kind = production;
        status = active;
      }
          ∷ []);
  locales =
      record {
        code = "en";
        site_id = "default";
        label = "English";
        fallback_locale = none;
        fallback_locales = none;
        route_prefix = none;
        required = none;
        default = true;
        enabled = true;
      }
      ∷ [];
}
