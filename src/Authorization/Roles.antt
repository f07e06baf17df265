-- ===== src/Authorization/Roles.antt =====
-- What the default roles grant, and what keeps tenants apart.
use grid_story.Prelude.{
  String, ◌≡◌, ◌↔◌, refl, ap, ◌≢◌, ◌⊎◌, inl, inr, Bool, true, false, none, some, List, [], ◌∷◌,
  arith, Member, here, there, not-Member-nil, Member-cons, or_else, lookup, Bool-cases, contains,
  contains-Member, all, all-Member, subst, string_eq, IsSubset, eq_iff,
}
use grid_story.Context.{
  Restriction, AuthorizationGrant, RoleAssignment, AuthenticationMethod, Principal, RequestContext,
}
use grid_story.Authorization.Actions.{
  GridStoryAction, action_name, delivery_read, RoleDefinition, default_roles, viewer_role,
  author_role, publisher_role, anonymous_role,
}
use grid_story.Authorization.Names.{action_name-injective}
use grid_story.Authorization.Meaning.{
  Agrees, Covers, Includes, HasRole, Permitted, by_assignment, by_role, by_grant,
}
use grid_story.Authorization.{AuthorizationResource, accepts_legacy_roles, role_map, decide}
use grid_story.Authorization.Laws.{decide_iff}

-- The restriction names a tenant, and not this one.
abbrev pub IsForeign : Restriction → String → Type 0
IsForeign r tenant = (t : String) × (r.tenant_id ≡ some t) × (t ≢ "") × (t ≢ tenant)

foreign-not-Covers :
    (r : Restriction) (context : RequestContext) (resource : AuthorizationResource)
    → IsForeign r context.tenant_id
    → Covers r context resource
    → ⊥
foreign-not-Covers r context resource (t, e, named, other) c =
    let a : Agrees (some t) context.tenant_id = rw e at (c.tenant) in
    elim a [ inl p ↦ named p | inr p ↦ other p ]

-- Whatever the roles, a principal whose authentication method does not accept plain roles, and whose
-- assignments and grants all name another tenant than the request's, is denied every action.
pub foreign_tenant_denied :
    (roles : List (String × RoleDefinition)) (context : RequestContext) (action : GridStoryAction)
    (resource : AuthorizationResource)
    → accepts_legacy_roles context.principal.authentication_method ≡ false
    → ((a : RoleAssignment)
        → Member a (or_else context.principal.role_assignments [])
        → IsForeign a.restriction context.tenant_id)
    → ((g : AuthorizationGrant)
        → Member g (or_else context.principal.grants [])
        → IsForeign g.restriction context.tenant_id)
    → (decide roles context action resource).allowed ≡ false
foreign_tenant_denied roles context action resource strict assigned granted =
    elim (Bool-cases (decide roles context action resource).allowed) [
      | inl t ↦ absurd (refuted ((decide_iff roles context action resource).0 t))
      | inr f ↦ f
    ]
  where
    refuted : Permitted roles context action resource → ⊥
    refuted (by_assignment a m p q) =
        foreign-not-Covers a.restriction context resource (assigned a m) q
    refuted (by_role id l m p) = cc
    refuted (by_grant g m p q) = foreign-not-Covers g.restriction context resource (granted g m) q

-- The request of a principal who holds one scoped role and nothing else.
abbrev pub with_role : RequestContext → String → Restriction → RequestContext
with_role context role restriction = record context {
  principal = record (context.principal) {
    roles = [];
    role_assignments = some (record { role_id = role; restriction = restriction } ∷ []);
    grants = none;
    authentication_method = some AuthenticationMethod.session;
  };
}

subset_table : List String → List String → Bool
subset_table xs ys = all (λ x. contains ys x) xs

subset_of_table : (xs ys : List String) → subset_table xs ys ≡ true → IsSubset xs ys
unfolding subset_table
subset_of_table xs ys h a m = contains-Member ys a (all-Member (λ x. contains ys x) xs a h m)

viewer-author : subset_table viewer_role.actions author_role.actions ≡ true
unfolding subset_table action_name
viewer-author = refl

author-publisher : subset_table author_role.actions publisher_role.actions ≡ true
unfolding subset_table action_name
author-publisher = refl

abbrev registered : List (String × RoleDefinition)
registered = role_map default_roles

found_viewer : lookup "viewer" registered ≡ some viewer_role
unfolding role_map
found_viewer = refl

found_author : lookup "author" registered ≡ some author_role
unfolding role_map
found_author = refl

found_publisher : lookup "publisher" registered ≡ some publisher_role
unfolding role_map
found_publisher = refl

found_anonymous : lookup "anonymous" registered ≡ some anonymous_role
unfolding role_map
found_anonymous = refl

HasRole-mono :
    (low high : String) (small big : RoleDefinition) (action : GridStoryAction)
    → lookup low registered ≡ some small
    → lookup high registered ≡ some big
    → IsSubset small.actions big.actions
    → HasRole registered low action
    → HasRole registered high action
HasRole-mono low high small big action l h s (role, e, i) = (
  big,
  h,
  elim i [ inl m ↦ inl (s _ (moved "*" m)) | inr m ↦ inr (s _ (moved (action_name action) m)) ],
)
  where
    same : role ≡ small
    same = cc

    moved : (a : String) → Member a role.actions → Member a small.actions
    moved a m = subst (λ r. Member a r.actions) same m

HasRole-decide :
    (context : RequestContext) (r : Restriction) (low high : String) (action : GridStoryAction)
    (resource : AuthorizationResource)
    → (HasRole registered low action → HasRole registered high action)
    → (decide registered (with_role context low r) action resource).allowed ≡ true
    → (decide registered (with_role context high r) action resource).allowed ≡ true
HasRole-decide context r low high action resource up h =
    (decide_iff registered (with_role context high r) action resource).1
      (raise ((decide_iff registered (with_role context low r) action resource).0 h))
  where
    raise :
        Permitted registered (with_role context low r) action resource
        → Permitted registered (with_role context high r) action resource
    raise (by_assignment a (here e) p q) =
        by_assignment (record { role_id = high; restriction = r }) (here refl)
          (up (subst (λ b. HasRole registered b.role_id action) e p))
          (subst (λ b. Covers b.restriction (with_role context high r) resource) e
            (record {
              organization = q.organization;
              tenant = q.tenant;
              workspace = q.workspace;
              site = q.site;
              environment = q.environment;
              locale = q.locale;
              content_type = q.content_type;
            }))
    raise (by_assignment a (there m) p q) = absurd (not-Member-nil m)
    raise (by_role id l m p) = cc
    raise (by_grant g m p q) = absurd (not-Member-nil m)

-- The default roles of editors, in their order.
abbrev pub IsNextRole : String → String → Type 0
IsNextRole low high =
    ((low ≡ "viewer") × (high ≡ "author")) ⊎ ((low ≡ "author") × (high ≡ "publisher"))

next_role :
    (low high : String) (action : GridStoryAction)
    → IsNextRole low high
    → HasRole registered low action
    → HasRole registered high action
next_role low high action (inl (l, h)) =
    HasRole-mono low high viewer_role author_role action (rw l found_viewer) (rw h found_author)
      (subset_of_table _ _ viewer-author)
next_role low high action (inr (l, h)) =
    HasRole-mono low high author_role publisher_role action (rw l found_author)
      (rw h found_publisher) (subset_of_table _ _ author-publisher)

-- With the default roles, what a viewer's scoped assignment allows an author's allows under the same
-- restriction, and what an author's allows a publisher's allows.
pub role_order :
    (context : RequestContext) (r : Restriction) (low high : String) (action : GridStoryAction)
    (resource : AuthorizationResource)
    → IsNextRole low high
    → (decide (role_map default_roles) (with_role context low r) action resource).allowed ≡ true
    → (decide (role_map default_roles) (with_role context high r) action resource).allowed ≡ true
role_order context r low high action resource n =
    HasRole-decide context r low high action resource (next_role low high action n)

-- The anonymous visitor: the plain role `anonymous`, no assignment and no grant.
abbrev pub IsVisitor : Principal → Type 0
IsVisitor p =
    (p.authentication_method ≡ some AuthenticationMethod.anonymous)
    × (p.roles ≡ "anonymous" ∷ [])
    × (p.role_assignments ≡ none)
    × (p.grants ≡ none)

star_not_read : "*" ≢ action_name delivery_read
unfolding action_name
star_not_read = ground (arith, eq_iff "*" "delivery.read")

star_ne : (a : GridStoryAction) → Includes (action_name delivery_read ∷ []) a → a ≡ delivery_read
star_ne a (inl m) = elim (Member-cons m) [
  | inl e ↦ absurd (star_not_read e)
  | inr n ↦ absurd (not-Member-nil n)
]
star_ne a (inr m) = elim (Member-cons m) [
  | inl e ↦ action_name-injective a delivery_read e
  | inr n ↦ absurd (not-Member-nil n)
]

-- With the default roles an anonymous visitor, who has the plain role `anonymous`, no assignment and
-- no grant, is allowed an action exactly when it is the reading of published content.
pub visitor_only_reads :
    (context : RequestContext) (action : GridStoryAction) (resource : AuthorizationResource)
    → IsVisitor context.principal
    → ((decide (role_map default_roles) context action resource).allowed ≡ true)
      ↔ (action ≡ delivery_read)
visitor_only_reads context action resource (method, plain, assigned, granted) = (
  λ h. only ((decide_iff registered context action resource).0 h),
  λ e. (decide_iff registered context action resource).1 (
      by_role "anonymous" (rw method refl) (rw plain (here refl))
        (anonymous_role, found_anonymous, inr (here (ap action_name e)))),
)
  where
    only : Permitted registered context action resource → action ≡ delivery_read
    only (by_assignment a m p q) = absurd (not-Member-nil (rw assigned at m))
    only (by_role id l m (role, e, i)) =
        let named : id ≡ "anonymous" = elim (Member-cons (rw plain at m)) [
          | inl p ↦ p
          | inr n ↦ absurd (not-Member-nil n)
        ] in
        let same : role ≡ anonymous_role = cc (e, found_anonymous, named) in
        star_ne action (subst (λ r. Includes r.actions action) same i)
    only (by_grant g m p q) = absurd (not-Member-nil (rw granted at m))
