-- ===== src/Routing/Walks.antt =====
-- Walks through redirects: they end, and do not end by lack of fuel.
use grid_story.Prelude.{
  ℕ, suc, zero, ◌+◌, ◌≤◌, String, true, false, none, some, List, [], ◌∷◌, ◌++◌, ◌==◌, string_eq,
  ◌≡◌, inl, inr, refl, sym, subst, arith, Member, here, there, Member-cons, not-Member-nil,
  Distinct, IsSubset, contains, Member-contains, length, length-append, length-le_of_Distinct,
  Member-append, Member-append_left, lookup, keys, Bool-cases, Option-cases, eq_iff,
}
use grid_story.Context.Text.{is_empty}
use grid_story.Routing.Paths.NormalForm.{IsRoute}
use grid_story.Routing.{
  RedirectDefinition, Redirects, Walk, finished, cycle, starved, last, walk_from,
}

-- The paths that the redirects leave from, seen from one path.
abbrev pub IsSource : Redirects → String → Type 0
IsSource redirects path = Member path (keys redirects)

pub lookup-IsSource :
    (redirects : Redirects) (path : String) (redirect : RedirectDefinition)
    → lookup path redirects ≡ some redirect
    → IsSource redirects path
lookup-IsSource [] path redirect h = cc
lookup-IsSource ((first, value) ∷ rest) path redirect h = elim (Bool-cases (first == path)) [
  | inl e ↦ here (sym ((eq_iff first path).0 e))
  | inr e ↦ there (lookup-IsSource rest path redirect (ground (arith, h, e)))
]

Distinct-snoc :
    (xs : List String) (y : String) → Distinct xs → (Member y xs → ⊥) → Distinct (xs ++ (y ∷ []))
Distinct-snoc [] y d n = (not-Member-nil, tt)
Distinct-snoc (x ∷ xs) y d n = (
  λ m. elim (Member-append xs (y ∷ []) m) [
    | inl l ↦ d.0 l
    | inr r ↦ elim (Member-cons r) [
      | inl e ↦ n (here (sym e))
      | inr none_left ↦ not-Member-nil none_left
    ]
  ],
  Distinct-snoc xs y d.1 (λ m. n (there m)),
)

last-snoc : (xs : List String) (y : String) → last (xs ++ (y ∷ [])) ≡ some y
last-snoc [] y = refl
last-snoc (x ∷ []) y = refl
last-snoc (x ∷ (z ∷ zs)) y = last-snoc (z ∷ zs) y

not_contained : (xs : List String) (y : String) → contains xs y ≡ false → Member y xs → ⊥
not_contained xs y h m = let t = Member-contains xs y m in cc

Subset-snoc :
    (xs : List String) (y : String) (zs : List String)
    → IsSubset xs zs
    → Member y zs
    → IsSubset (xs ++ (y ∷ [])) zs
Subset-snoc xs y zs s m a n = elim (Member-append xs (y ∷ []) n) [
  | inl l ↦ s a l
  | inr r ↦ elim (Member-cons r) [
    | inl e ↦ subst (λ b. Member b zs) (sym e) m
    | inr none_left ↦ absurd (not-Member-nil none_left)
  ]
]

-- From the first path the redirects lead to the second one.
pub data Leads (redirects : Redirects) : String → String → Type 0 where
  arrived : {path : String} → Leads redirects path path
  hop :
      {path goal : String} (redirect : RedirectDefinition)
      → lookup path redirects ≡ some redirect
      → Leads redirects redirect.to goal
      → Leads redirects path goal

-- A walk ends at a path where no redirect leaves, or shows a cycle.
abbrev pub Ends : Redirects → String → Walk → Type 0
Ends redirects start (finished chain) =
    Distinct chain
    × ((goal : String) × (last chain ≡ some goal)
        × (lookup goal redirects ≡ none)
        × Leads redirects start goal
        × IsRoute goal)
Ends redirects start (cycle chain) = Unit
Ends redirects start starved = ⊥

-- Every redirect leads to a path in normal form.
abbrev pub AllRoutes : Redirects → Type 0
AllRoutes redirects =
    (path : String) (redirect : RedirectDefinition)
    → lookup path redirects ≡ some redirect
    → IsRoute redirect.to

route-is_empty : (path : String) → IsRoute path → is_empty path ≡ false
route-is_empty String.[] h = absurd h
route-is_empty (String.◌∷◌ c s) h = refl

Ends-hop :
    (redirects : Redirects) (path : String) (redirect : RedirectDefinition) (w : Walk)
    → lookup path redirects ≡ some redirect
    → Ends redirects redirect.to w
    → Ends redirects path w
Ends-hop redirects path redirect (finished chain) h (d, (goal, at, none_left, leads, route)) =
    (d, (goal, at, none_left, hop redirect h leads, route))
Ends-hop redirects path redirect (cycle chain) h ends = tt
Ends-hop redirects path redirect starved h ends = absurd ends

too_long :
    (redirects : Redirects) (left : List String)
    → Distinct left
    → IsSubset left (keys redirects)
    → suc (length (keys redirects)) ≤ length left + 0
    → ⊥
too_long redirects left d s le = omega (arith, length-le_of_Distinct left (keys redirects) d s)

Distinct-front : (xs ys : List String) → Distinct (xs ++ ys) → Distinct xs
Distinct-front [] ys d = tt
Distinct-front (x ∷ xs) ys (n, d) = (λ m. n (Member-append_left xs ys m), Distinct-front xs ys d)

module _ (fuel : ℕ) (redirects : Redirects) (chain : List String) (current : String) where
  walk_stops :
      lookup current redirects ≡ none
      → walk_from (suc fuel) redirects chain current ≡ finished chain
  unfolding walk_from
  walk_stops h = rw (walk_from, h) refl

  module _ (redirect : RedirectDefinition) (found : lookup current redirects ≡ some redirect)
      (filled : is_empty redirect.to ≡ false) where
    walk_cycles :
        contains chain redirect.to ≡ true
        → walk_from (suc fuel) redirects chain current ≡ cycle (chain ++ (redirect.to ∷ []))
    unfolding walk_from
    walk_cycles h = rw (walk_from, found, filled, h) refl

    walk_hops :
        contains chain redirect.to ≡ false
        → walk_from (suc fuel) redirects chain current
          ≡ walk_from fuel redirects (chain ++ (redirect.to ∷ [])) redirect.to
    unfolding walk_from
    walk_hops h = rw (walk_from, found, filled, h) refl

-- The paths left so far are sources that do not occur twice, so there are at most as many as
-- redirects.
pub walk_from-Ends :
    (fuel : ℕ) (redirects : Redirects) (left : List String) (current : String)
    → AllRoutes redirects
    → IsRoute current
    → Distinct (left ++ (current ∷ []))
    → IsSubset left (keys redirects)
    → suc (length (keys redirects)) ≤ length left + fuel
    → Ends redirects current (walk_from fuel redirects (left ++ (current ∷ [])) current)
unfolding walk_from
walk_from-Ends zero redirects left current routes route d s le =
    absurd (too_long redirects left (Distinct-front left (current ∷ []) d) s le)
walk_from-Ends (suc fuel) redirects left current routes route d s le =
    let chain = left ++ (current ∷ []) in
    elim (Option-cases (lookup current redirects)) [
      | inl stop ↦
          subst (Ends redirects current) (sym (walk_stops fuel redirects chain current stop))
            (d, (current, last-snoc left current, stop, arrived, route))
      | inr (redirect, found) ↦
          let to = routes current redirect found in
          let filled = route-is_empty redirect.to to in
          elim (Bool-cases (contains chain redirect.to)) [
            | inl again ↦
                subst (Ends redirects current)
                  (sym (walk_cycles fuel redirects chain current redirect found filled again)) tt
            | inr fresh ↦
                subst (Ends redirects current)
                  (sym (walk_hops fuel redirects chain current redirect found filled fresh))
                  (Ends-hop redirects current redirect
                    (walk_from fuel redirects (chain ++ (redirect.to ∷ [])) redirect.to) found
                    (walk_from-Ends fuel redirects chain redirect.to routes to
                      (Distinct-snoc chain redirect.to d (not_contained chain redirect.to fresh))
                      (Subset-snoc left current (keys redirects) s
                        (lookup-IsSource redirects current redirect found))
                      (omega (arith, le, length-append left (current ∷ [])))))
          ]
    ]
