-- ===== src/Content/Service/Tests.antt =====
-- Runs of the content service, and the theorems about it at concrete inputs.
use grid_story.Prelude.{
  false, all, String, true, none, some, List, [], ◌∷◌, map, sort, ok, err, ◌≡◌, refl, ◌⊎◌, ◌>->◌,
}
use grid_story.Canonical.{string}
use grid_story.Context.Text.{trim, utf16_length, decimal}
use grid_story.Tenancy.{
  content_event_cache_tags, content_scope_cache_prefix, assert_valid_content_scope, assert_fields,
  matches_identifier, encode_uri_component, percent_bytes,
}
use grid_story.Context.{published}
use grid_story.Routing.Paths.{
  normalize_route_path, strip_route, collapse, before_query, strip_slash,
}
use grid_story.Routing.Content.{
  ContentSchema, Fields, build_content_route, replace_fields, field_text,
}
use grid_story.Releases.{ReleaseMember}
use grid_story.Content.{Failure, plain, ContentEntry, to_entry, status_for}
use grid_story.Content.Audit.{audit_event_hash}
use grid_story.Content.Statements.{
  entry_row, revision_row, return, fresh_id, now, transaction, write, query, check, insert_entry,
  insert_variant, insert_revision, insert_audit, insert_outbox, audit, audit_row, emit_outbox,
}
use grid_story.Content.Commands.{shelf, creation, run}
use grid_story.Content.Repository as P
use grid_story.Content.Reads as Reads
use grid_story.Content.Service.Undo.{unavailable, rollback_release-publish_release}
use grid_story.Content.Restoration.{has_previous}
use grid_story.Content.Page.{
  counting, one_home, home, one_home-WellFormed, one_home-IsFresh, scope-is_valid,
}
use grid_story.Content.Sample.{engine, scope, author, empty}
use grid_story.Content.Service.{
  Options, Site, publish, publish_checks, quality_check, validate_published_route, check_route,
  find_collision, reading, on_store, on_flow, get, schema_of, validate,
}
use grid_story.Content.Service.Assessment.{
  assess_release, assess_members, assess_member, assess_found, gate_issues, collect_routes,
  unpublished_issues,
}
use grid_story.Content.Service.Joint.{
  publish_release, rollback_release, release_checks, tell_published,
}
use grid_story.Content.Service.Releases.{Cleared, publish_release-Cleared}
use grid_story.Content.Service.Publishing.{Allowed, publish-Allowed}

abbrev post : ContentSchema
post = record { id = "post"; pattern = some "/blog/:slug" }

abbrev options : Options (Unit {0})
options = record {
  schemas = post ∷ [];
  validate_content = λ schema fields. [];
  collect_references = λ schema fields. [];
  assert_write = λ scope id. ok tt;
  content_created = λ scope entry actor flow. (ok tt, flow);
  draft_updated = λ scope entry actor flow. (ok tt, flow);
  assert_can_publish = λ scope entry actor flow. ok tt;
  content_published = λ scope entry actor flow. (ok tt, flow);
  assess = some (λ scope entry channel roles. record { passed = true; score = "90" });
}

-- Two posts, both drafts.
abbrev at_slug : String → Fields
at_slug slug = ("slug", string slug) ∷ []

two_posts : Site (Unit {0})
two_posts = record {
  store =
      (run engine scope (creation (some "b") "post" (at_slug "two") author none)
        (run engine scope (creation (some "a") "post" (at_slug "one") author none) empty).1).1;
  flow = tt;
}

abbrev member : String → String → ReleaseMember
member id revision = record {
  entry_id = id;
  revision_id = revision;
  content_type = "post";
  previous_published_revision_id = none;
}

abbrev members : List ReleaseMember
members = member "a" "0" ∷ member "b" "3" ∷ []

publish-Allowed_example :
    let call = publish options engine scope "a" "0" author none two_posts in
    ((e : Failure) × (call.0 ≡ err e))
    ⊎ ((entry : ContentEntry) × (call.0 ≡ ok entry)
        × Allowed options scope engine "a" "0" author none two_posts call.1)
publish-Allowed_example = publish-Allowed options scope engine "a" "0" author none two_posts

publish_release-Cleared_example :
    let call = publish_release options scope engine members author none two_posts in
    ((e : Failure) × (call.0 ≡ err e))
    ⊎ ((entries : List ContentEntry) × (call.0 ≡ ok entries)
        × Cleared options scope engine members author none two_posts call.1)
publish_release-Cleared_example =
    publish_release-Cleared options scope engine members author none two_posts

-- A release of the edited home page, which was published before.
abbrev home_options : Options (Unit {0})
home_options = record options { schemas = record { id = "page"; pattern = none } ∷ [] }

abbrev home_site : Site (Unit {0})
home_site = record { store = one_home; flow = tt }

abbrev home_members : List ReleaseMember
home_members =
    record (member "home" "r2") {
      content_type = "page";
      previous_published_revision_id = some "r1";
    }
    ∷ []

abbrev home_entries : List ContentEntry
home_entries =
    to_entry (record { entry = record home { published_revision_id = some "r2" }; fields = [] })
    ∷ []

home_published :
    (publish_release home_options scope counting home_members author none home_site).0
    ≡ ok home_entries
unfolding publish_release release_checks assess_release assess_members assess_member assess_found
    gate_issues collect_routes unpublished_issues P.publish_many P.prepare P.publish_all
    P.publish_one P.read_all tell_published ◌>->◌ reading on_store on_flow Reads.get_by_id
    Reads.get_revision Reads.list sort entry_row revision_row return fresh_id now transaction write
    query check insert_audit insert_outbox audit audit_row emit_outbox audit_event_hash to_entry
    status_for content_event_cache_tags content_scope_cache_prefix assert_valid_content_scope
    assert_fields matches_identifier trim utf16_length schema_of validate
home_published = refl

rollback_release-publish_release_example :
    let call = publish_release home_options scope counting home_members author none home_site in
    let undo = rollback_release home_options scope counting home_members author call.1 in
    ((all has_previous home_members ≡ false)
      × (undo.0 ≡ err (unavailable home_options scope counting)))
    ⊎ ((again : List ContentEntry) × (undo.0 ≡ ok again)
        × (shelf undo.1.store.tables ≡ shelf home_site.store.tables))
rollback_release-publish_release_example =
    rollback_release-publish_release home_options scope counting home_members author author none
      home_site home_entries one_home-WellFormed scope-is_valid one_home-IsFresh home_published

-- The workflow rejects what is published already.
abbrev rejection : Failure
rejection = plain "The workflow is closed."

abbrev closed : Options (Unit {0})
closed = record home_options { content_published = λ scope entry actor flow. (err rejection, flow) }

home_rejected :
    (publish_release closed scope counting home_members author none home_site).0 ≡ err rejection
unfolding publish_release release_checks assess_release assess_members assess_member assess_found
    gate_issues collect_routes unpublished_issues P.publish_many P.prepare P.publish_all
    P.publish_one P.read_all tell_published ◌>->◌ reading on_store on_flow Reads.get_by_id
    Reads.get_revision Reads.list sort entry_row revision_row return fresh_id now transaction write
    query check insert_audit insert_outbox audit audit_row emit_outbox audit_event_hash to_entry
    status_for content_event_cache_tags content_scope_cache_prefix assert_valid_content_scope
    assert_fields matches_identifier trim utf16_length schema_of validate
home_rejected = refl

published_one :
    shelf (publish options engine scope "a" "0" author none two_posts).1.store.tables scope "a"
    ≡ some (record { draft = some "0"; published = some "0" })
unfolding publish publish_checks quality_check validate_published_route check_route find_collision
    P.publish P.current_draft ◌>->◌ reading on_store on_flow get Reads.get_by_id Reads.get_revision
    Reads.list sort entry_row revision_row two_posts run P.create P.chosen_id P.place return
    fresh_id now transaction write query check insert_entry insert_variant insert_revision
    insert_audit insert_outbox audit audit_row emit_outbox audit_event_hash to_entry status_for
    content_event_cache_tags content_scope_cache_prefix assert_valid_content_scope assert_fields
    matches_identifier trim utf16_length decimal schema_of validate build_content_route
    replace_fields field_text encode_uri_component percent_bytes normalize_route_path
published_one = refl

released_both :
    let call = publish_release options scope engine members author none two_posts in
    map
      (λ (e : ContentEntry). e.published_revision_id)
      (Reads.list scope (some "post") published call.1.store.tables)
    ≡ some "0" ∷ (some "3" ∷ [])
unfolding publish_release release_checks assess_release assess_members assess_member assess_found
    gate_issues collect_routes unpublished_issues P.publish_many P.prepare P.publish_all
    P.publish_one P.read_all tell_published ◌>->◌ reading on_store on_flow get Reads.get_by_id
    Reads.get_revision Reads.list sort entry_row revision_row two_posts run P.create P.chosen_id
    P.place return fresh_id now transaction write query check insert_entry insert_variant
    insert_revision insert_audit insert_outbox audit audit_row emit_outbox audit_event_hash to_entry
    status_for content_event_cache_tags content_scope_cache_prefix assert_valid_content_scope
    assert_fields matches_identifier trim utf16_length decimal schema_of validate
    build_content_route replace_fields field_text encode_uri_component percent_bytes
    normalize_route_path strip_route collapse before_query strip_slash
released_both = refl
