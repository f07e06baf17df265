-- ===== src/Routing/Laws.antt =====
-- What a resolver that was built answers.

use grid_story.Prelude.{
  String, Option, none, some, List, string_eq, ◌≡◌, inl, inr, ◌↔◌, refl, ap, ◌∙◌, subst, Distinct,
  lookup, keys, Option-cases, Result, ok,
}
use grid_story.Routing.Paths.{normalize_route_path}
use grid_story.Routing.Paths.NormalForm.{normalize_route_path-IsRoute, normalize_route}
use grid_story.Routing.Walks.{Ends, Leads, lookup-IsSource}
use grid_story.Routing.{
  RedirectStatus, RedirectDefinition, RedirectResolution, Redirects, finished, last, walk,
  check_walks, redirect_resolver, last_or, resolve,
}
use grid_story.Routing.Built.{built, walk-Ends, walk_result-ok, check_walks-Member}

-- An answer of `resolve` for a redirected path.
pub record IsFinal (redirects : Redirects) (from : String) (status : RedirectStatus)
    (resolution : RedirectResolution) : Type 0 where
  pub starts : resolution.from ≡ from
  pub keeps : resolution.status ≡ status
  pub leads : Leads redirects from resolution.to
  pub settles : resolve redirects resolution.to ≡ ok none
  pub distinct : Distinct resolution.chain

resolve-none :
    (redirects : Redirects) (input : String)
    → lookup (normalize_route_path input) redirects ≡ none
    → resolve redirects input ≡ ok none
unfolding resolve
resolve-none redirects input h = rw (resolve, h) refl

last_or-some :
    (chain : List String) (default : String) {goal : String}
    → last chain ≡ some goal
    → last_or chain default ≡ goal
last_or-some chain default h = rw (last_or, h) refl

resolve-some :
    (redirects : Redirects) (input : String) {first : RedirectDefinition} {chain : List String}
    {goal : String}
    → lookup (normalize_route_path input) redirects ≡ some first
    → walk redirects (normalize_route_path input) ≡ finished chain
    → last chain ≡ some goal
    → resolve redirects input
      ≡ ok (
          some (record {
            from = normalize_route_path input;
            to = goal;
            status = first.status;
            chain = chain;
          }))
unfolding resolve
resolve-some redirects input {first} {chain} {goal} h w l =
    rw (resolve, h, w)
      (ap {B = Result String (Option RedirectResolution)}
        (λ to. ok (
          some (record {
            from = normalize_route_path input;
            to = to;
            status = first.status;
            chain = chain;
          })))
        (last_or-some chain first.to l))

walk_finishes :
    (redirects : Redirects) (path : String) {first : RedirectDefinition}
    → check_walks redirects (keys redirects) ≡ ok tt
    → lookup path redirects ≡ some first
    → (chain : List String) × (walk redirects path ≡ finished chain)
walk_finishes redirects path {first} checked found =
    let (chain, done) =
      check_walks-Member redirects (keys redirects) path checked
        (lookup-IsSource redirects path first found) in
    (chain, walk_result-ok (walk redirects path) done)

-- A resolver that was built answers every path whose normal form has a redirect. The answer
-- begins at the normal form and has the status of its redirect, the redirects lead from there to
-- the path that it gives, the chain meets no path twice, and resolving the given path again finds
-- no further redirect.
pub resolve-IsFinal :
    (inputs : List RedirectDefinition) {redirects : Redirects}
    → redirect_resolver inputs ≡ ok redirects
    → (input : String) {first : RedirectDefinition}
    → lookup (normalize_route_path input) redirects ≡ some first
    → (resolution : RedirectResolution) × (resolve redirects input ≡ ok (some resolution))
      × IsFinal redirects (normalize_route_path input) first.status resolution
resolve-IsFinal inputs {redirects} ready input {first} found =
    let (routes, checked) = built inputs ready in
    let from = normalize_route_path input in
    let (chain, walked) = walk_finishes redirects from checked found in
    let ends =
      subst (Ends redirects from) walked
        (walk-Ends redirects from routes (normalize_route_path-IsRoute input)) in
    let (goal, at, none_left, leads, route) = ends.1 in
    let normal = normalize_route goal route in
    (
      record { from = from; to = goal; status = first.status; chain = chain },
      resolve-some redirects input found walked at,
      record {
        starts = refl;
        keeps = refl;
        leads = leads;
        settles = resolve-none redirects goal (ap (λ p. lookup p redirects) normal ∙ none_left);
        distinct = ends.0;
      },
    )

-- A resolver that was built never throws on a path: it answers nothing exactly if the normal form
-- of the path has no redirect.
pub resolve-none_iff :
    (inputs : List RedirectDefinition) {redirects : Redirects}
    → redirect_resolver inputs ≡ ok redirects
    → (input : String)
    → ((resolve redirects input ≡ ok none) ↔ (lookup (normalize_route_path input) redirects ≡ none))
      × ((answer : Option RedirectResolution) × (resolve redirects input ≡ ok answer))
resolve-none_iff inputs {redirects} ready input =
    elim (Option-cases (lookup (normalize_route_path input) redirects)) [
      | inl h ↦
          ((λ e. h, λ e. resolve-none redirects input h), (none, resolve-none redirects input h))
      | inr (first, h) ↦
          let (resolution, answered, final) = resolve-IsFinal inputs ready input h in
          ((λ e. cc, λ e. cc), (some resolution, answered))
    ]
