-- ===== src/Routing/Content.antt =====
-- packages/schema/src/routing.ts: `buildContentRoute`; packages/core/src/routing-service.ts: which
-- published entry a path shows. The schema has passed its own check. `list` is the published entries
-- of a content type, from the reader or from the content service.
pub mod Laws
mod Tests
use Prim.Native.Char.{code}
use Prim.Native.String
use grid_story.Prelude.{
  ℕ, String, Bool, true, false, not, ◌&&◌, ◌||◌, Option, none, some, List, [], ◌∷◌, ◌++◌, ◌==◌,
  string_eq, lookup, leb, nat_beq, if◌then◌else◌, Result, ok, err, ◌>>=◌, ◌>>◌, throw_if, or_throw,
  push_if, map,
}
use grid_story.Canonical.{◌<>◌, Json, string, number}
use grid_story.Context.Text.{is_empty, codes}
use grid_story.Errors.{GridStoryError, not_found_error, conflict_error}
use grid_story.Tenancy.{is_letter_or_digit, encode_uri_component}
use grid_story.Routing.Paths.{normalize_route_path}
use grid_story.Routing as R
use grid_story.Routing.{RedirectDefinition, RedirectResolution, RedirectStatus, Redirects}

-- A plain `Error`, or an error of the services.
pub data Failure : Type 0 where
  plain : String → Failure
  service : GridStoryError → Failure

pub record ContentSchema : Type 0 where
  pub id : String
  pub pattern : Option String

abbrev pub Fields : Type 0
Fields = List (String × Json)

abbrev pub is_letter : ℕ → Bool
is_letter c = (leb b'a' c && leb c b'z') || (leb b'A' c && leb c b'Z')

abbrev pub is_word : ℕ → Bool
is_word c = is_letter_or_digit c || nat_beq c b'_'

abbrev pub starts_with_letter : String → Bool
starts_with_letter String.[] = false
starts_with_letter (String.◌∷◌ c s) = is_letter (code c)

-- `String(value)` of a text or a number, and nothing for the rest.
abbrev pub text_of : Option Json → Option String
text_of (some (string s)) = if is_empty s then none else some s
text_of (some (number n)) = if is_empty n then none else some n
text_of _ = none

abbrev pub missing_field : String → String → Failure
missing_field field schema_id =
    plain ("Route field " <> (field <> (" is missing from " <> (schema_id <> " content."))))

-- What takes the place of `:field`.
unfoldable pub field_text : String → Fields → String → Result Failure String
field_text schema_id fields field =
    or_throw (text_of (lookup field fields)) (missing_field field schema_id) >>= λ text.
    ok (encode_uri_component text)

module _ (schema_id : String) (fields : Fields) where
  -- `pattern.replace(/:([a-zA-Z][a-zA-Z0-9_]*)/g, …)`, inside a name or outside of one.
  unfoldable pub replace_fields : Option String → String → Result Failure String
  replace_fields none String.[] = ok ""
  replace_fields (some field) String.[] = field_text schema_id fields field
  replace_fields none (String.◌∷◌ c s) = elim (nat_beq (code c) b':' && starts_with_letter s) [
    | true ↦ replace_fields (some "") s
    | false ↦ replace_fields none s >>= λ rest. ok (String.◌∷◌ c rest)
  ]
  replace_fields (some field) (String.◌∷◌ c s) = elim (is_word (code c)) [
    | true ↦ replace_fields (some (field <> String.◌∷◌ c String.[])) s
    | false ↦ field_text schema_id fields field >>= λ text.
        elim (nat_beq (code c) b':' && starts_with_letter s) [
          | true ↦ replace_fields (some "") s >>= λ rest. ok (text <> rest)
          | false ↦ replace_fields none s >>= λ rest. ok (text <> String.◌∷◌ c rest)
        ]
  ]

abbrev pub has_colon : String → Bool
has_colon String.[] = false
has_colon (String.◌∷◌ c s) = nat_beq (code c) b':' || has_colon s

unfoldable pub build_content_route : ContentSchema → Fields → Result Failure String
build_content_route schema fields = elim schema.pattern [
  | none ↦ err (plain ("Content type " <> (schema.id <> " does not declare a route.")))
  | some pattern ↦ replace_fields schema.id fields none pattern >>= λ route.
      throw_if (has_colon route) (plain ("Route pattern " <> (pattern <> " is invalid.")))
      >> ok (normalize_route_path route)
]

pub record ContentEntry : Type 0 where
  pub id : String
  pub content : Fields

pub data ContentRouteResolution : Type 0 where
  content : String → ContentEntry → ContentRouteResolution
  redirect : String → String → RedirectStatus → ContentRouteResolution

-- The end of `resolve`: one match is the answer.
abbrev pub only_match : String → List ContentEntry → Result Failure ContentRouteResolution
only_match path [] =
    err (service (not_found_error ("Published route " <> (path <> " was not found."))))
only_match path (entry ∷ []) = ok (content path entry)
only_match path (entry ∷ (other ∷ rest)) = err (
    service
      (conflict_error ("Published route " <> (path <> " resolves to multiple content entries."))))

module _ (list : String → Result Failure (List ContentEntry)) where
  -- The entries of one content type that are shown at the path.
  unfoldable pub match_entries :
      String → ContentSchema → List ContentEntry → Result Failure (List ContentEntry)
  match_entries path schema [] = ok []
  match_entries path schema (entry ∷ entries) =
      build_content_route schema entry.content >>= λ route.
      match_entries path schema entries >>= λ rest. ok (push_if (route == path) entry ++ rest)

  -- The body of the loop over the schemas; one without a route is passed over.
  abbrev pub match_routed :
      String → ContentSchema → Option String → Result Failure (List ContentEntry)
  match_routed path schema none = ok []
  match_routed path schema (some pattern) =
      list schema.id >>= λ entries. match_entries path schema entries

  unfoldable pub matches_of : String → List ContentSchema → Result Failure (List ContentEntry)
  matches_of path [] = ok []
  matches_of path (schema ∷ schemas) = match_routed path schema schema.pattern >>= λ found.
      matches_of path schemas >>= λ rest. ok (found ++ rest)

  -- `resolve` after the redirects were asked.
  abbrev pub after_redirects :
      String
      → List ContentSchema
      → Result String (Option RedirectResolution)
      → Result Failure ContentRouteResolution
  after_redirects path schemas (err message) = err (plain message)
  after_redirects path schemas (ok (some resolution)) =
      ok (redirect path resolution.to resolution.status)
  after_redirects path schemas (ok none) =
      matches_of path schemas >>= λ found. only_match path found

  unfoldable pub resolve_route :
      Redirects → List ContentSchema → String → Result Failure ContentRouteResolution
  resolve_route redirects schemas input =
      let path = normalize_route_path input in
      after_redirects path schemas (R.resolve redirects path)
