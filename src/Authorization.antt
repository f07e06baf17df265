-- ===== src/Authorization.antt =====
-- packages/core/src/authorization.ts: roles, scoped grants and the decision. The attributes of a
-- resource and of a principal, which no decision reads, are not kept.
pub mod Actions
pub mod Names
pub mod Meaning
pub mod Laws
pub mod Roles
mod Tests
use grid_story.Prelude.{
  String, ◌++◌, Bool, true, false, ◌&&◌, ◌||◌, not, Option, none, some, List, [], ◌∷◌, map, or_else,
  lookup, insert_all, if◌then◌else◌, ◌==◌, string_eq, contains, ok, Result, throw_if,
}
use Prim.Native.String
use grid_story.Errors.{Outcome, grid_story_error, GridStoryError}
use grid_story.Context.{
  Restriction, AuthorizationGrant, RoleAssignment, AuthenticationMethod, Principal, RequestContext,
  user,
}
use grid_story.Context.Text.{is_empty}
use Actions.{GridStoryAction, action_name, RoleDefinition}

pub data ResourceKind : Type 0 where
  schema component asset content search workflow release plugin : ResourceKind
  marketplace personalization experiment ai regional federation : ResourceKind
  knowledge agent fleet governance migration delivery platform : ResourceKind

pub record AuthorizationResource : Type 0 where
  pub kind : ResourceKind
  pub id : Option String
  pub content_type : Option String
  pub owner_id : Option String

pub record AuthorizationDecision : Type 0 where
  pub allowed : Bool
  pub reason : String
  pub matched_role : Option String
  pub matched_grant : Option AuthorizationGrant

pub includes_action : List String → GridStoryAction → Bool
includes_action actions action = contains actions "*" || contains actions (action_name action)

-- `assignment.field && assignment.field !== value`.
abbrev pub differs : Option String → String → Bool
differs none value = false
differs (some field) value = not (is_empty field) && not (field == value)

-- `assignment.values && !assignment.values.includes(value)`.
abbrev pub excludes : Option (List String) → String → Bool
excludes none value = false
excludes (some values) value = not (contains values value)

-- `assignment.contentTypes && !resource.contentType`.
abbrev pub lacks_type : Option (List String) → Option String → Bool
lacks_type none content_type = false
lacks_type (some values) none = true
lacks_type (some values) (some content_type) = is_empty content_type

pub assignment_scope_matches : Restriction → RequestContext → AuthorizationResource → Bool
assignment_scope_matches assignment context resource =
    if differs assignment.organization_id context.organization_id
    then false
    else if differs assignment.tenant_id context.tenant_id
    then false
    else if differs assignment.workspace_id context.workspace_id
    then false
    else if differs assignment.site_id context.site_id
    then false
    else if excludes assignment.environment_ids context.environment_id
    then false
    else if excludes assignment.locales context.locale
    then false
    else if lacks_type assignment.content_types resource.content_type
    then false
    else if excludes assignment.content_types (or_else resource.content_type "")
    then false
    else true

pub grant_matches :
    AuthorizationGrant → RequestContext → GridStoryAction → AuthorizationResource → Bool
grant_matches grant context action resource =
    includes_action grant.actions action
    && assignment_scope_matches grant.restriction context resource

pub role_assignment_matches : RoleAssignment → RequestContext → AuthorizationResource → Bool
role_assignment_matches assignment context resource =
    assignment_scope_matches assignment.restriction context resource

-- The constructor's `new Map(roles.map((role) => [role.id, role]))`.
pub role_map : List RoleDefinition → List (String × RoleDefinition)
role_map roles = insert_all [] (map (λ role. (role.id, role)) roles)

-- `role && includesAction(role.actions, action)`.
abbrev pub role_includes : Option RoleDefinition → GridStoryAction → Bool
role_includes none action = false
role_includes (some role) action = includes_action role.actions action

module _ (roles : List (String × RoleDefinition)) where
  -- The loop over the role assignments: the first that allows the action.
  pub first_assignment :
      List RoleAssignment → RequestContext → GridStoryAction → AuthorizationResource → Option String
  first_assignment [] context action resource = none
  first_assignment (a ∷ as') context action resource =
      if role_includes (lookup a.role_id roles) action && role_assignment_matches a context resource
      then some a.role_id
      else first_assignment as' context action resource

  -- The loop over the principal's plain roles.
  pub first_role : List String → GridStoryAction → Option String
  first_role [] action = none
  first_role (r ∷ rs) action =
      if role_includes (lookup r roles) action then some r else first_role rs action

-- The loop over the grants.
pub first_grant :
    List AuthorizationGrant
    → RequestContext
    → GridStoryAction
    → AuthorizationResource
    → Option AuthorizationGrant
first_grant [] context action resource = none
first_grant (g ∷ gs) context action resource =
    if grant_matches g context action resource
    then some g
    else first_grant gs context action resource

abbrev pub accepts_legacy_roles : Option AuthenticationMethod → Bool
accepts_legacy_roles (some AuthenticationMethod.development) = true
accepts_legacy_roles (some AuthenticationMethod.anonymous) = true
accepts_legacy_roles _ = false

abbrev allowed_by_assignment : String → AuthorizationDecision
allowed_by_assignment role = record {
  allowed = true;
  reason = String.◌++◌ "Allowed by scoped role " (String.◌++◌ role ".");
  matched_role = some role;
  matched_grant = none;
}

abbrev allowed_by_role : String → AuthorizationDecision
allowed_by_role role = record {
  allowed = true;
  reason = String.◌++◌ "Allowed by role " (String.◌++◌ role ".");
  matched_role = some role;
  matched_grant = none;
}

abbrev allowed_by_grant : AuthorizationGrant → AuthorizationDecision
allowed_by_grant grant = record {
  allowed = true;
  reason = "Allowed by a scoped principal grant.";
  matched_role = none;
  matched_grant = some grant;
}

abbrev denied : AuthorizationDecision
denied = record {
  allowed = false;
  reason = "Denied by default because no role or scoped grant matched.";
  matched_role = none;
  matched_grant = none;
}

-- What `decide` answers, given what each of its three loops finds.
abbrev answer : Option String → Option String → Option AuthorizationGrant → AuthorizationDecision
answer (some role) _ _ = allowed_by_assignment role
answer none (some role) _ = allowed_by_role role
answer none none (some grant) = allowed_by_grant grant
answer none none none = denied

pub decide :
    List (String × RoleDefinition)
    → RequestContext
    → GridStoryAction
    → AuthorizationResource
    → AuthorizationDecision
decide roles context action resource =
    answer
      (first_assignment roles (or_else context.principal.role_assignments []) context action
        resource)
      (if accepts_legacy_roles context.principal.authentication_method
        then first_role roles context.principal.roles action
        else none)
      (first_grant (or_else context.principal.grants []) context action resource)

abbrev authorization_error : GridStoryAction → GridStoryError
authorization_error action =
    grid_story_error
      (String.◌++◌ "Principal is not authorized to perform " (String.◌++◌ (action_name action) "."))
      "forbidden" 403

-- `AuthorizationPolicy.assert`.
pub assert :
    List (String × RoleDefinition)
    → RequestContext
    → GridStoryAction
    → AuthorizationResource
    → Outcome (Unit {0})
assert roles context action resource =
    throw_if (not (decide roles context action resource).allowed) (authorization_error action)

pub principal_for_development : String → List String → Principal
principal_for_development id roles = record {
  id = id;
  type = user;
  roles = roles;
  role_assignments = none;
  grants = none;
  authentication_method = some AuthenticationMethod.development;
}
