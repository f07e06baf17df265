-- ===== src/Routing/Built.antt =====
-- What the constructor of the resolver keeps of its inputs.

use text.Mathlib.Text.{starts_with}
use mathlib.Core.List.{append-nil, append_assoc}
use grid_story.Prelude.{
  suc, String, Bool, true, false, not, some, List, [], ◌∷◌, ◌++◌, map, ◌==◌, string_eq, ◌≡◌, inl,
  inr, refl, ap, sym, ◌∙◌, subst, arith, Member, Member-cons, not-Member-nil, length, insert,
  has_key, keys, lookup-insert, Bool-cases, Result, ok, ◌>>◌, throw_if, >>=-eq-ok,
}
use grid_story.Routing.Paths.{normalize_route_path}
use grid_story.Routing.Paths.NormalForm.{IsRoute, normalize_route_path-IsRoute}
use grid_story.Routing.Walks.{AllRoutes, Ends, walk_from-Ends}
use grid_story.Routing.{
  RedirectDefinition, Redirects, Walk, finished, cycle, starved, walk, walk_result, parse_redirect,
  add_redirect, add_redirects, check_walks, redirect_resolver,
}

-- The entry that stands for one input.
abbrev pub entry_of : RedirectDefinition → String × RedirectDefinition
entry_of input =
    let from = normalize_route_path input.from in
    (from, record { from = from; to = normalize_route_path input.to; status = input.status })

pub throw_if-ok :
    {B : Type 0} (test : Bool) (failure : String) (rest : Result String B) {value : B}
    → (throw_if test failure >> rest) ≡ ok value
    → (test ≡ false) × (rest ≡ ok value)
throw_if-ok true failure rest h = cc
throw_if-ok false failure rest h = (refl, h)

parse_redirect-ok :
    (input : RedirectDefinition) {parsed : RedirectDefinition}
    → parse_redirect input ≡ ok parsed
    → input ≡ parsed
unfolding parse_redirect
parse_redirect-ok input {parsed} h =
    let (a, h1) = throw_if-ok (not (starts_with input.from "/")) _ _ h in
    let (b, h2) = throw_if-ok (not (starts_with input.to "/")) _ _ h1 in cc h2

add_redirect-ok :
    (input : RedirectDefinition) (redirects : Redirects) {more : Redirects}
    → add_redirect input redirects ≡ ok more
    → (has_key (entry_of input).0 redirects ≡ false)
      × (more ≡ insert (entry_of input).0 (entry_of input).1 redirects)
unfolding add_redirect parse_redirect
add_redirect-ok input redirects {more} h =
    let (parsed, valid, h1) = >>=-eq-ok (parse_redirect input) _ h in
    let same : input ≡ parsed = parse_redirect-ok input valid in
    let (a, h2) =
      throw_if-ok (normalize_route_path parsed.from == normalize_route_path parsed.to) _ _ h1 in
    let (b, h3) = throw_if-ok (has_key (normalize_route_path parsed.from) redirects) _ _ h2 in
    let stored : insert (entry_of parsed).0 (entry_of parsed).1 redirects ≡ more = cc h3 in
    subst
      (λ one.
        (has_key (entry_of one).0 redirects ≡ false)
        × (more ≡ insert (entry_of one).0 (entry_of one).1 redirects))
      (sym same) (b, sym stored)

length-keys : (redirects : Redirects) → length (keys redirects) ≡ length redirects
length-keys [] = refl
length-keys ((k, v) ∷ rest) = ap suc (length-keys rest)

insert-AllRoutes :
    (from : String) (redirect : RedirectDefinition) (redirects : Redirects)
    → AllRoutes redirects
    → IsRoute redirect.to
    → AllRoutes (insert from redirect redirects)
insert-AllRoutes from redirect redirects routes route path found h =
    elim (Bool-cases (from == path)) [
      | inl e ↦
          let now : some redirect ≡ some found =
            sym (lookup-insert from path redirect redirects ∙ rw e refl) ∙ h in
          let same : redirect ≡ found = cc now in
          subst (λ (r : RedirectDefinition). IsRoute r.to) same route
      | inr e ↦ routes path found (sym (lookup-insert from path redirect redirects ∙ rw e refl) ∙ h)
    ]

add_redirects-AllRoutes :
    (inputs : List RedirectDefinition) (redirects : Redirects) {more : Redirects}
    → AllRoutes redirects
    → add_redirects inputs redirects ≡ ok more
    → AllRoutes more
unfolding add_redirects
add_redirects-AllRoutes [] redirects routes h = subst AllRoutes (cc h) routes
add_redirects-AllRoutes (input ∷ inputs) redirects routes h =
    let (next, added, rest) = >>=-eq-ok (add_redirect input redirects) _ h in
    let (fresh, e) = add_redirect-ok input redirects added in
    add_redirects-AllRoutes inputs next
      (subst AllRoutes (sym e) (
        insert-AllRoutes (entry_of input).0 (entry_of input).1 redirects routes
          (normalize_route_path-IsRoute input.to)))
      rest

pub check_walks-Member :
    (redirects : Redirects) (sources : List String) (source_path : String)
    → check_walks redirects sources ≡ ok tt
    → Member source_path sources
    → (chain : List String) × (walk_result (walk redirects source_path) ≡ ok chain)
unfolding check_walks
check_walks-Member redirects [] source_path h m = absurd (not-Member-nil m)
check_walks-Member redirects (first ∷ rest) source_path h m =
    let (chain, done, others) = >>=-eq-ok (walk_result (walk redirects first)) _ h in
    elim (Member-cons m) [
      | inl e ↦ (chain, subst (λ p. walk_result (walk redirects p) ≡ ok chain) (sym e) done)
      | inr n ↦ check_walks-Member redirects rest source_path others n
    ]

-- What the constructor guarantees of the redirects that it keeps.
pub built :
    (inputs : List RedirectDefinition) {redirects : Redirects}
    → redirect_resolver inputs ≡ ok redirects
    → AllRoutes redirects × (check_walks redirects (keys redirects) ≡ ok tt)
unfolding redirect_resolver
built inputs {redirects} h =
    let (added, adds, rest) = >>=-eq-ok (add_redirects inputs []) _ h in
    let (done, walks, last_step) = >>=-eq-ok (check_walks added (keys added)) _ rest in
    let same : added ≡ redirects = cc last_step in
    subst (λ r. AllRoutes r × (check_walks r (keys r) ≡ ok tt)) same
      (add_redirects-AllRoutes inputs [] (λ path redirect e. cc) adds, walks)

pub walk-Ends :
    (redirects : Redirects) (path : String)
    → AllRoutes redirects
    → IsRoute path
    → Ends redirects path (walk redirects path)
unfolding walk
walk-Ends redirects path routes route =
    walk_from-Ends (suc (length redirects)) redirects [] path routes route (not-Member-nil, tt)
      (λ a m. absurd (not-Member-nil m)) (omega (arith, length-keys redirects))

pub walk_result-ok :
    (w : Walk) {chain : List String} → walk_result w ≡ ok chain → w ≡ finished chain
walk_result-ok (finished chain) h = cc
walk_result-ok (cycle chain) h = cc
walk_result-ok starved h = cc

insert-fresh :
    (key : String) (value : RedirectDefinition) (redirects : Redirects)
    → has_key key redirects ≡ false
    → insert key value redirects ≡ redirects ++ ((key, value) ∷ [])
insert-fresh key value [] h = refl
insert-fresh key value ((first, old) ∷ rest) h = elim (Bool-cases (first == key)) [
  | inl e ↦ ground (arith, h, e)
  | inr e ↦ rw e (
      ap (λ (r : Redirects). (first, old) ∷ r) (insert-fresh key value rest (ground (arith, h, e))))
]

add_redirects-entries :
    (inputs : List RedirectDefinition) (redirects : Redirects) {more : Redirects}
    → add_redirects inputs redirects ≡ ok more
    → more ≡ redirects ++ map entry_of inputs
unfolding add_redirects
add_redirects-entries [] redirects h = cc h ∙ sym (append-nil redirects)
add_redirects-entries (input ∷ inputs) redirects h =
    let (next, added, rest) = >>=-eq-ok (add_redirect input redirects) _ h in
    let (fresh, e) = add_redirect-ok input redirects added in
    add_redirects-entries inputs next rest
    ∙ ap (λ (r : Redirects). r ++ map entry_of inputs)
        (e ∙ insert-fresh (entry_of input).0 (entry_of input).1 redirects fresh)
    ∙ append_assoc redirects (entry_of input ∷ []) (map entry_of inputs)

-- A resolver that was built holds one redirect for each input, in the order of the inputs, from
-- the normal form of its source to the normal form of its target.
pub redirect_resolver_entries :
    (inputs : List RedirectDefinition) {redirects : Redirects}
    → redirect_resolver inputs ≡ ok redirects
    → redirects ≡ map entry_of inputs
unfolding redirect_resolver
redirect_resolver_entries inputs {redirects} h =
    let (added, adds, rest) = >>=-eq-ok (add_redirects inputs []) _ h in
    let (done, walks, last_step) = >>=-eq-ok (check_walks added (keys added)) _ rest in
    let same : redirects ≡ added = cc last_step in same ∙ add_redirects-entries inputs [] adds
