-- ===== src/Routing.antt =====
-- packages/schema/src/routing.ts: the normal form of a path, and redirects. A thrown `Error` is its
-- message.
pub mod Paths
pub mod Walks
pub mod Built
pub mod Laws
pub mod Content
mod Tests
use Prim.Native.String
use text.Mathlib.Text.{starts_with}
use grid_story.Prelude.{
  ℕ, suc, zero, ◌+◌, String, Bool, true, false, not, Option, none, some, List, [], ◌∷◌, ◌++◌,
  if◌then◌else◌, ◌==◌, string_eq, lookup, insert, has_key, keys, contains, length, Result, ok, err,
  ◌>>=◌, ◌>>◌, throw_if, get_elem?,
}
use grid_story.Context.Text.{is_empty}
use grid_story.Canonical.{◌<>◌}
use Paths.{normalize_route_path}

pub data RedirectStatus : Type 0 where
  moved_permanently found temporary permanent : RedirectStatus

pub record RedirectDefinition : Type 0 where
  pub from : String
  pub to : String
  pub status : RedirectStatus

pub record RedirectResolution : Type 0 where
  pub from : String
  pub to : String
  pub status : RedirectStatus
  pub chain : List String

abbrev pub Redirects : Type 0
Redirects = List (String × RedirectDefinition)

-- How a walk ends: at a path that is no source, at a path that it has met, or without fuel.
pub data Walk : Type 0 where
  finished cycle : List String → Walk
  starved : Walk

-- `values.at(-1)`.
abbrev pub last : List String → Option String
last [] = none
last (x ∷ []) = some x
last (x ∷ (y ∷ ys)) = last (y ∷ ys)

-- The `while` loop of `#walk`.
unfoldable pub walk_from : ℕ → Redirects → List String → String → Walk
walk_from zero redirects chain current = starved
walk_from (suc fuel) redirects chain current = elim (lookup current redirects) [
  | none ↦ finished chain
  | some redirect ↦ elim (is_empty redirect.to) [
    | true ↦ finished chain
    | false ↦ elim (contains chain redirect.to) [
      | true ↦ cycle (chain ++ (redirect.to ∷ []))
      | false ↦ walk_from fuel redirects (chain ++ (redirect.to ∷ [])) redirect.to
    ]
  ]
]

-- Each round but the last leaves a source that the walk has not left before.
unfoldable pub walk : Redirects → String → Walk
walk redirects source = walk_from (suc (length redirects)) redirects (source ∷ []) source

abbrev pub walk_result : Walk → Result String (List String)
walk_result (finished chain) = ok chain
walk_result (cycle chain) = err "Redirect cycle detected."
walk_result starved = err "The walk did not end."

-- `redirectDefinitionSchema.parse`: both paths begin with a slash.
unfoldable pub parse_redirect : RedirectDefinition → Result String RedirectDefinition
parse_redirect input =
    throw_if (not (starts_with input.from "/")) "from must start with /"
    >> (throw_if (not (starts_with input.to "/")) "to must start with /" >> ok input)

-- One round of the constructor's loop.
unfoldable pub add_redirect : RedirectDefinition → Redirects → Result String Redirects
unfolding parse_redirect
add_redirect input redirects = parse_redirect input >>= λ parsed.
    let from = normalize_route_path parsed.from in
    let to = normalize_route_path parsed.to in
    throw_if (from == to) ("Redirect " <> (from <> " cannot target itself."))
    >> (throw_if (has_key from redirects) ("Redirect source " <> (from <> " is duplicated."))
        >> ok (insert from (record { from = from; to = to; status = parsed.status }) redirects))

unfoldable pub add_redirects : List RedirectDefinition → Redirects → Result String Redirects
add_redirects [] redirects = ok redirects
add_redirects (input ∷ inputs) redirects =
    add_redirect input redirects >>= λ more. add_redirects inputs more

unfoldable pub check_walks : Redirects → List String → Result String (Unit {0})
check_walks redirects [] = ok tt
check_walks redirects (source ∷ sources) =
    walk_result (walk redirects source) >>= λ chain. check_walks redirects sources

-- The constructor of `RedirectResolver`.
unfoldable pub redirect_resolver : List RedirectDefinition → Result String Redirects
redirect_resolver inputs =
    add_redirects inputs [] >>= λ redirects. check_walks redirects (keys redirects) >> ok redirects

abbrev pub last_or : List String → String → String
last_or chain default = elim (last chain) [ none ↦ default | some path ↦ path ]

-- `resolve`: nothing, or where the path leads in the end.
unfoldable pub resolve : Redirects → String → Result String (Option RedirectResolution)
resolve redirects input =
    let from = normalize_route_path input in
    elim (lookup from redirects) [
      | none ↦ ok none
      | some first ↦ walk_result (walk redirects from) >>= λ chain. ok (
          some (record {
            from = from;
            to = last_or chain first.to;
            status = first.status;
            chain = chain;
          }))
    ]
