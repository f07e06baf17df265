-- ===== src/Routing/Tests.antt =====
-- Redirects and paths of a small site.
use grid_story.Prelude.{List, [], ◌∷◌, ◌≡◌, ◌↔◌, refl, Option, none, some, ok, lookup}
use grid_story.Routing.Paths.{
  normalize_route_path, before_query, collapse, strip_route, strip_slash,
}
use grid_story.Routing.Paths.NormalForm.{IsRoute, routes_iff}
use grid_story.Routing.Laws.{IsFinal, resolve-IsFinal, resolve-none_iff}
use grid_story.Routing.{
  RedirectDefinition, RedirectResolution, Redirects, permanent, moved_permanently,
  redirect_resolver, resolve, add_redirects, add_redirect, parse_redirect, check_walks, walk,
  walk_from,
}

abbrev inputs : List RedirectDefinition
inputs =
    record { from = "/old//post/"; to = "/new-post?ref=1"; status = permanent }
    ∷ (record { from = "/new-post"; to = "/blog/post/"; status = moved_permanently } ∷ [])

abbrev site : Redirects
site =
    ("/old/post", record { from = "/old/post"; to = "/new-post"; status = permanent })
    ∷ (("/new-post", record { from = "/new-post"; to = "/blog/post"; status = moved_permanently })
        ∷ [])

site_is_built : redirect_resolver inputs ≡ ok site
unfolding redirect_resolver add_redirects add_redirect parse_redirect check_walks walk walk_from
    normalize_route_path before_query collapse strip_route strip_slash
site_is_built = refl

first_is_found :
    lookup (normalize_route_path "/old/post#top") site
    ≡ some (record { from = "/old/post"; to = "/new-post"; status = permanent })
unfolding normalize_route_path before_query collapse strip_route strip_slash
first_is_found = refl

resolve-IsFinal_example :
    (resolution : RedirectResolution) × (resolve site "/old/post#top" ≡ ok (some resolution))
    × IsFinal site (normalize_route_path "/old/post#top") permanent resolution
resolve-IsFinal_example = resolve-IsFinal inputs site_is_built "/old/post#top" first_is_found

resolve-none_iff_example :
    ((resolve site "/about" ≡ ok none) ↔ (lookup (normalize_route_path "/about") site ≡ none))
    × ((answer : Option RedirectResolution) × (resolve site "/about" ≡ ok answer))
resolve-none_iff_example = resolve-none_iff inputs site_is_built "/about"

routes_iff_example :
    IsRoute (normalize_route_path "/blog//post/?page=2")
    × (IsRoute "/blog//post/?page=2"
        ↔ (normalize_route_path "/blog//post/?page=2" ≡ "/blog//post/?page=2"))
routes_iff_example = routes_iff "/blog//post/?page=2"
