-- ===== src/Routing/Content/Tests.antt =====
-- A site with one content type and two published posts.

use grid_story.Prelude.{String, none, some, List, [], ◌∷◌, ◌≡◌, ◌↔◌, refl, Result, ok}
use grid_story.Canonical.{string, number}
use grid_story.Tenancy.{encode_uri_component, percent_bytes, percent, hex_digits}
use grid_story.Routing as R
use grid_story.Routing.{Redirects}
use grid_story.Routing.Paths.{
  normalize_route_path, before_query, collapse, strip_route, strip_slash,
}
use grid_story.Routing.Content.{
  Failure, ContentSchema, ContentEntry, content, build_content_route, replace_fields, field_text,
  match_entries, matches_of, resolve_route,
}
use grid_story.Routing.Content.Laws.{Shown, resolve_route-Shown_iff}

abbrev post : ContentSchema
post = record { id = "post"; pattern = some "/blog/:year/:slug" }

abbrev entry_at : String → String → ContentEntry
entry_at id slug = record {
  id = id;
  content = ("year", number "2026") ∷ (("slug", string slug) ∷ []);
}

abbrev posts : String → Result Failure (List ContentEntry)
posts type = ok (entry_at "a" "hello" ∷ (entry_at "b" "good bye" ∷ []))

built_route :
    build_content_route post (entry_at "b" "good bye").content ≡ ok "/blog/2026/good%20bye"
unfolding build_content_route replace_fields field_text encode_uri_component percent_bytes percent
    hex_digits normalize_route_path before_query collapse strip_route strip_slash
built_route = refl

found_once :
    resolve_route posts [] (post ∷ []) "/blog//2026/hello/?page=2"
    ≡ ok (content "/blog/2026/hello" (entry_at "a" "hello"))
unfolding resolve_route R.resolve matches_of match_entries build_content_route replace_fields
    field_text encode_uri_component percent_bytes percent hex_digits normalize_route_path
    before_query collapse strip_route strip_slash
found_once = refl

resolve_route-Shown_iff_example :
    (normalize_route_path "/blog//2026/hello/?page=2" ≡ "/blog/2026/hello")
    × (R.resolve [] "/blog/2026/hello" ≡ ok none)
    × (Shown posts (post ∷ []) "/blog/2026/hello" (entry_at "b" "good bye")
        ↔ (entry_at "b" "good bye" ≡ entry_at "a" "hello"))
resolve_route-Shown_iff_example =
    resolve_route-Shown_iff posts [] (post ∷ []) "/blog//2026/hello/?page=2" "/blog/2026/hello"
      (entry_at "a" "hello") (entry_at "b" "good bye") found_once
