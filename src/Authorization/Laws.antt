-- ===== src/Authorization/Laws.antt =====
-- The decision against its meaning.
use grid_story.Prelude.{
  not, Bool, ◌↔◌, ok, err, throw_if, String, ◌≡◌, refl, ◌⊎◌, inl, inr, true, false, ◌&&◌, Option,
  none, some, List, [], ◌∷◌, arith, Member, here, there, not-Member-nil, lookup, Bool-cases,
  and_true, is_some, subst,
}
use grid_story.Context.{AuthorizationGrant, RoleAssignment, RequestContext}
use grid_story.Authorization.Actions.{GridStoryAction, RoleDefinition}
use grid_story.Authorization.Meaning.{
  Permitted, by_assignment, by_role, by_grant, Covers, Includes, HasRole,
  assignment_scope_matches_iff, includes_action_iff, role_includes_iff,
}
use grid_story.Authorization.{
  decide, assert, authorization_error, AuthorizationResource, role_assignment_matches,
  grant_matches, role_includes, first_assignment, first_role, first_grant, accepts_legacy_roles,
  answer,
}

module _ (roles : List (String × RoleDefinition)) (context : RequestContext)
    (action : GridStoryAction) (resource : AuthorizationResource) where
  first_assignment-some :
      (xs : List RoleAssignment) {r : String}
      → first_assignment roles xs context action resource ≡ some r
      → (a : RoleAssignment) × Member a xs
        × HasRole roles a.role_id action
        × Covers a.restriction context resource
  unfolding first_assignment role_assignment_matches
  first_assignment-some [] h = cc
  first_assignment-some (a ∷ xs) h =
      elim (Bool-cases (
        role_includes (lookup a.role_id roles) action
        && role_assignment_matches a context resource)) [
          | inl e ↦
              let (p, q) = and_true _ _ e in
              (
                a,
                here refl,
                (role_includes_iff roles a.role_id action).0 p,
                (assignment_scope_matches_iff a.restriction context resource).0 q,
              )
          | inr e ↦ let (b, m, p, q) = first_assignment-some xs (rw e at h) in (b, there m, p, q)
        ]

  first_assignment-found :
      (xs : List RoleAssignment) (a : RoleAssignment)
      → Member a xs
      → HasRole roles a.role_id action
      → Covers a.restriction context resource
      → is_some (first_assignment roles xs context action resource) ≡ true
  unfolding first_assignment role_assignment_matches
  first_assignment-found [] a m p q = absurd (not-Member-nil m)
  first_assignment-found (x ∷ xs) a (here e) p q =
      let s = (role_includes_iff roles a.role_id action).1 p in
      let t = (assignment_scope_matches_iff a.restriction context resource).1 q in
      rw (← e, s, t) refl
  first_assignment-found (x ∷ xs) a (there m) p q =
      ground (arith, first_assignment-found xs a m p q)

  first_role-some :
      (xs : List String) {r : String}
      → first_role roles xs action ≡ some r
      → (id : String) × Member id xs × HasRole roles id action
  unfolding first_role
  first_role-some [] h = cc
  first_role-some (x ∷ xs) h = elim (Bool-cases (role_includes (lookup x roles) action)) [
    | inl e ↦ (x, here refl, (role_includes_iff roles x action).0 e)
    | inr e ↦ let (b, m, p) = first_role-some xs (rw e at h) in (b, there m, p)
  ]

  first_role-found :
      (xs : List String) (id : String)
      → Member id xs
      → HasRole roles id action
      → is_some (first_role roles xs action) ≡ true
  unfolding first_role
  first_role-found [] a m p = absurd (not-Member-nil m)
  first_role-found (x ∷ xs) a (here e) p = rw (← e, (role_includes_iff roles a action).1 p) refl
  first_role-found (x ∷ xs) a (there m) p = ground (arith, first_role-found xs a m p)

  first_grant-some :
      (xs : List AuthorizationGrant) {g : AuthorizationGrant}
      → first_grant xs context action resource ≡ some g
      → Member g xs × Includes g.actions action × Covers g.restriction context resource
  unfolding first_grant grant_matches
  first_grant-some [] h = cc
  first_grant-some (x ∷ xs) {g} h = elim (Bool-cases (grant_matches x context action resource)) [
    | inl e ↦
        let f : x ≡ g = ground (arith, e) in
        let (p, q) = and_true _ _ e in
        subst
          (λ y.
            Member y (x ∷ xs) × Includes y.actions action × Covers y.restriction context resource)
          f
          (
            here refl,
            (includes_action_iff x.actions action).0 p,
            (assignment_scope_matches_iff x.restriction context resource).0 q,
          )
    | inr e ↦ let (m, p, q) = first_grant-some xs (rw e at h) in (there m, p, q)
  ]

  first_grant-found :
      (xs : List AuthorizationGrant) (g : AuthorizationGrant)
      → Member g xs
      → Includes g.actions action
      → Covers g.restriction context resource
      → is_some (first_grant xs context action resource) ≡ true
  unfolding first_grant grant_matches
  first_grant-found [] g m p q = absurd (not-Member-nil m)
  first_grant-found (x ∷ xs) g (here e) p q =
      let s = (includes_action_iff g.actions action).1 p in
      let t = (assignment_scope_matches_iff g.restriction context resource).1 q in
      rw (← e, s, t) refl
  first_grant-found (x ∷ xs) g (there m) p q = ground (arith, first_grant-found xs g m p q)

  -- An answer allows exactly when one of the three loops finds something.
  answer-allowed :
      (a b : Option String) (c : Option AuthorizationGrant)
      → (answer a b c).allowed ≡ true
      → (is_some a ≡ true) ⊎ ((is_some b ≡ true) ⊎ (is_some c ≡ true))
  answer-allowed (some a) b c h = inl refl
  answer-allowed none (some b) c h = inr (inl refl)
  answer-allowed none none (some c) h = inr (inr refl)
  answer-allowed none none none h = cc

  answer-denied :
      (a b : Option String) (c : Option AuthorizationGrant)
      → (is_some a ≡ true) ⊎ ((is_some b ≡ true) ⊎ (is_some c ≡ true))
      → (answer a b c).allowed ≡ true
  answer-denied (some a) b c h = refl
  answer-denied none (some b) c h = refl
  answer-denied none none (some c) h = refl
  answer-denied none none none h = ground arith

  found {ℓ} : {A : Type ℓ} (o : Option A) → is_some o ≡ true → (a : A) × (o ≡ some a)
  found none h = cc
  found (some a) h = (a, refl)

  decide-Permitted :
      (decide roles context action resource).allowed ≡ true
      → Permitted roles context action resource
  unfolding decide
  decide-Permitted h = elim (answer-allowed _ _ _ h) [
    | inl a ↦
        let (r, e) = found _ a in
        let (x, m, p, q) = first_assignment-some _ e in by_assignment x m p q
    | inr (inl b) ↦
        elim (Bool-cases (accepts_legacy_roles context.principal.authentication_method)) [
          | inl l ↦
              let (r, e) = found _ (rw l at b) in
              let (x, m, p) = first_role-some _ e in by_role x l m p
          | inr l ↦ cc (rw l at b)
        ]
    | inr (inr c) ↦
        let (g, e) = found _ c in let (m, p, q) = first_grant-some _ e in by_grant g m p q
  ]

  Permitted-decide :
      Permitted roles context action resource
      → (decide roles context action resource).allowed ≡ true
  unfolding decide
  Permitted-decide (by_assignment a m p q) =
      answer-denied _ _ _ (inl (first_assignment-found _ a m p q))
  Permitted-decide (by_role id l m p) =
      answer-denied _ _ _ (inr (inl (rw l (first_role-found _ id m p))))
  Permitted-decide (by_grant g m p q) =
      answer-denied _ _ _ (inr (inr (first_grant-found _ g m p q)))

  -- A decision allows an action exactly when a scoped role assignment whose role includes the
  -- action covers the request, or the principal's authentication method accepts plain roles and one
  -- of them includes the action, or a scoped grant includes the action and covers the request.
  pub decide_iff :
      ((decide roles context action resource).allowed ≡ true)
      ↔ Permitted roles context action resource
  decide_iff = (decide-Permitted, Permitted-decide)

  -- `assert` returns normally exactly when the action is permitted; it throws the authorization error
  -- for this action exactly when it is not; and that error has status 403.
  pub assert_iff :
      ((assert roles context action resource ≡ ok tt) ↔ Permitted roles context action resource)
      × ((assert roles context action resource ≡ err (authorization_error action))
          ↔ (¬ Permitted roles context action resource))
      × ((authorization_error action).status_code ≡ 403)
  unfolding assert
  assert_iff = (
    (λ h. decide-Permitted (returned _ h), λ p. rw (Permitted-decide p) refl),
    (
      λ h p. thrown _ h (Permitted-decide p),
      λ n. elim (Bool-cases (decide roles context action resource).allowed) [
        | inl t ↦ absurd (n (decide-Permitted t))
        | inr f ↦ rw f refl
      ],
    ),
    refl,
  )
    where
      returned : (b : Bool) → throw_if (not b) (authorization_error action) ≡ ok tt → b ≡ true
      returned true h = refl
      returned false h = cc

      thrown :
          (b : Bool)
          → throw_if (not b) (authorization_error action) ≡ err (authorization_error action)
          → b ≡ true
          → ⊥
      thrown true h e = cc
      thrown false h e = cc
