-- ===== src/Authorization/Tests.antt =====
-- Requests at which the theorems on authorization apply.
use grid_story.Prelude.{
  String, ◌≡◌, refl, inl, inr, true, false, none, some, List, [], ◌∷◌, arith, Member, here,
  not-Member-nil, Member-cons, eq_iff, ok,
}
use grid_story.Context.{
  Restriction, AuthorizationGrant, AuthenticationMethod, Principal, RequestContext,
  ContentPerspective, user, anonymous,
}
use grid_story.Authorization.Actions.{
  content_read, content_publish, delivery_read, action_name, default_roles, RoleDefinition,
}
use grid_story.Authorization.Meaning.{Covers, Permitted, by_grant}
use grid_story.Authorization.{
  AuthorizationResource, content, role_map, decide, assert, includes_action,
  assignment_scope_matches, first_grant, first_assignment, first_role, role_assignment_matches,
}
use grid_story.Authorization.Laws.{decide_iff, assert_iff}
use grid_story.Authorization.Roles.{
  IsForeign, foreign_tenant_denied, role_order, with_role, visitor_only_reads,
}

abbrev open_restriction : Restriction
open_restriction = record {
  organization_id = none;
  tenant_id = none;
  workspace_id = none;
  site_id = none;
  environment_ids = none;
  locales = some ("en" ∷ "de" ∷ []);
  content_types = some ("page" ∷ []);
}

abbrev reader_grant : AuthorizationGrant
reader_grant = record { actions = "content.read" ∷ []; restriction = open_restriction }

abbrev foreign_grant : AuthorizationGrant
foreign_grant = record {
  actions = "*" ∷ [];
  restriction = record open_restriction { tenant_id = some "other" };
}

abbrev editor : List AuthorizationGrant → Principal
editor grants = record {
  id = "u1";
  type = user;
  roles = "admin" ∷ [];
  role_assignments = none;
  grants = some grants;
  authentication_method = some AuthenticationMethod.session;
}

abbrev request : Principal → RequestContext
request p = record {
  scope = record {
    organization_id = "org";
    tenant_id = "home";
    workspace_id = "w";
    site_id = "s";
    environment_id = "prod";
    locale = "en";
  };
  perspective = ContentPerspective.draft;
  principal = p;
}

abbrev page : AuthorizationResource
page = record { kind = content; id = some "p1"; content_type = some "page"; owner_id = none }

abbrev roles : List (String × RoleDefinition)
roles = role_map default_roles

reader_covered : Covers open_restriction (request (editor (reader_grant ∷ []))) page
reader_covered = record {
  organization = tt;
  tenant = tt;
  workspace = tt;
  site = tt;
  environment = tt;
  locale = here refl;
  content_type = (λ e. ground (arith, eq_iff "page" ""), here refl);
}

read_name : action_name content_read ≡ "content.read"
unfolding action_name
read_name = refl

reader-Permitted : Permitted roles (request (editor (reader_grant ∷ []))) content_read page
reader-Permitted = by_grant reader_grant (here refl) (inr (here read_name)) reader_covered

decide_iff_example :
    (decide roles (request (editor (reader_grant ∷ []))) content_read page).allowed ≡ true
decide_iff_example =
    (decide_iff roles (request (editor (reader_grant ∷ []))) content_read page).1 reader-Permitted

assert_iff_example : assert roles (request (editor (reader_grant ∷ []))) content_read page ≡ ok tt
assert_iff_example =
    (assert_iff roles (request (editor (reader_grant ∷ []))) content_read page).0.1 reader-Permitted

admin_role_ignored : (decide roles (request (editor [])) content_read page).allowed ≡ false
unfolding decide first_assignment first_role first_grant
admin_role_ignored = refl

IsForeign-only :
    (g : AuthorizationGrant) → Member g (foreign_grant ∷ []) → IsForeign g.restriction "home"
IsForeign-only g m = elim (Member-cons m) [
  | inl e ↦ (
    "other",
    rw e refl,
    λ p. ground (arith, eq_iff "other" ""),
    λ p. ground (arith, eq_iff "other" "home"),
  )
  | inr n ↦ absurd (not-Member-nil n)
]

foreign_tenant_denied_example :
    (decide roles (request (editor (foreign_grant ∷ []))) content_publish page).allowed ≡ false
foreign_tenant_denied_example =
    foreign_tenant_denied roles (request (editor (foreign_grant ∷ []))) content_publish page refl
      (λ a m. absurd (not-Member-nil m)) IsForeign-only

abbrev visitor : Principal
visitor = record {
  id = "anonymous";
  type = anonymous;
  roles = "anonymous" ∷ [];
  role_assignments = none;
  grants = none;
  authentication_method = some AuthenticationMethod.anonymous;
}

visitor_only_reads_example : (decide roles (request visitor) delivery_read page).allowed ≡ true
visitor_only_reads_example =
    (visitor_only_reads (request visitor) delivery_read page (refl, refl, refl, refl)).1 refl

abbrev viewer_request : RequestContext
viewer_request = with_role (request visitor) "viewer" open_restriction

viewer_allowed : (decide roles viewer_request content_read page).allowed ≡ true
unfolding decide first_assignment first_role first_grant includes_action assignment_scope_matches
    role_assignment_matches action_name role_map
viewer_allowed = refl

role_order_example :
    (decide roles (with_role (request visitor) "author" open_restriction) content_read page).allowed
    ≡ true
role_order_example =
    role_order (request visitor) open_restriction "viewer" "author" content_read page
      (inl (refl, refl)) viewer_allowed
