-- ===== src/Tenancy/Tests.antt =====
-- Two scopes that differ in their site, and their keys and tags.

use grid_story.Prelude.{String, List, [], ◌∷◌, ◌≡◌, ◌↔◌, refl, true, ok, here}
use grid_story.Canonical.{◌<>◌, stringify, quote, escape_all, escape}
use grid_story.Context.{ContentScope}
use grid_story.Context.Text.{trim, utf16_length}
use grid_story.Tenancy.{
  assert_valid_content_scope, assert_fields, matches_identifier, content_scope_key,
  content_scope_cache_prefix, content_event_cache_tags, cache_tag_belongs_to_scope,
  assert_same_content_scope, cache_component, encode_uri_component, replace_colons, percent_bytes,
  percent, hex_digits,
}
use grid_story.Tenancy.Keys.{content_scope_key-injective, assert_same_content_scope_iff}
use grid_story.Tenancy.Tags.{content_event_cache_tags-belong_iff}

abbrev site_scope : String → ContentScope
site_scope site = record {
  organization_id = "acme";
  tenant_id = "acme:eu";
  workspace_id = "web";
  site_id = site;
  environment_id = "production";
  locale = "en";
}

main_is_valid : assert_valid_content_scope (site_scope "main") ≡ ok (site_scope "main")
unfolding assert_valid_content_scope assert_fields matches_identifier trim utf16_length
main_is_valid = refl

abbrev main_key : String
main_key = "[\"acme\",\"acme:eu\",\"web\",\"main\",\"production\",\"en\"]"

key_of_main : content_scope_key (site_scope "main") ≡ ok main_key
unfolding content_scope_key assert_valid_content_scope assert_fields matches_identifier trim
    utf16_length stringify quote escape_all escape
key_of_main = refl

content_scope_key-injective_example : site_scope "main" ≡ site_scope "main"
content_scope_key-injective_example =
    content_scope_key-injective (site_scope "main") (site_scope "main") main_key key_of_main
      key_of_main

assert_same_content_scope_iff_example :
    (assert_same_content_scope (site_scope "main") (site_scope "docs") ≡ ok tt) ↔ (
      (site_scope "main" ≡ site_scope "docs")
      × (assert_valid_content_scope (site_scope "main") ≡ ok (site_scope "main")))
assert_same_content_scope_iff_example =
    assert_same_content_scope_iff (site_scope "main") (site_scope "docs")

abbrev docs_prefix : String
docs_prefix = "gridstory:scope:acme:acme%3Aeu:web:docs:production:en"

abbrev docs_tags : List String
docs_tags =
    (docs_prefix <> ":tenant")
    ∷ ((docs_prefix <> ":site")
        ∷ ((docs_prefix <> ":environment")
            ∷ ((docs_prefix <> ":locale")
                ∷ ((docs_prefix <> ":type:article")
                    ∷ ((docs_prefix <> ":entry:e1") ∷ ((docs_prefix <> ":revision:r1") ∷ []))))))

tags_of_docs : content_event_cache_tags (site_scope "docs") "article" "e1" "r1" ≡ ok docs_tags
unfolding content_event_cache_tags content_scope_cache_prefix assert_valid_content_scope
    assert_fields matches_identifier trim utf16_length cache_component encode_uri_component
    replace_colons percent_bytes percent hex_digits
tags_of_docs = refl

content_event_cache_tags-belong_iff_example :
    (cache_tag_belongs_to_scope (site_scope "main") (docs_prefix <> ":tenant") ≡ ok true)
    ↔ (site_scope "main" ≡ site_scope "docs")
content_event_cache_tags-belong_iff_example =
    content_event_cache_tags-belong_iff (site_scope "main") (site_scope "docs") "article" "e1" "r1"
      docs_tags (docs_prefix <> ":tenant") main_is_valid tags_of_docs (here refl)
