-- ===== src/Content/Service/Joint.antt =====
-- packages/core/src/content-service.ts: the preview, the publication and the rollback of a release,
-- and the record of operations that the releases take of the content service.
use grid_story.Prelude.{
  String, Bool, true, false, not, Option, none, some, List, [], ◌∷◌, any, is_some, map, or_else,
  Result, ok, ◌>>=◌, ◌>>◌, throw_if, for_each, map_each, ◌>->◌,
}
use grid_story.Errors.{grid_story_error}
use grid_story.Context.{ContentScope, draft}
use grid_story.Routing.Content.{Fields, build_content_route}
use grid_story.Releases.{ReleaseMember, ReleaseValidationIssue, error, warning}
use grid_story.Releases.Store.{Actor}
use grid_story.Content.{Failure, known, Tables, ContentEntry}
use grid_story.Content.Statements.{Engine}
use grid_story.Content.Repository.{Publication, publish_many}
use grid_story.Content.Service.{
  Options, Process, from_route, schema_of, get, revision, on_store, on_flow, reading,
}
use grid_story.Content.Service.Assessment.{assess_release}

pub record PreviewEntry : Type 0 where
  pub member : ReleaseMember
  pub fields : Fields
  pub route : Option String

abbrev pub is_error : ReleaseValidationIssue → Bool
is_error issue = elim issue.severity [ error ↦ true | warning ↦ false ]

-- What `publishRelease` and `rollbackRelease` hand to `publishMany` for a member.
abbrev pub forward : ReleaseMember → Publication
forward entry = record {
  entry_id = entry.entry_id;
  target_revision_id = entry.revision_id;
  expected_draft_revision_id = some entry.revision_id;
  expected_published_revision_id = some entry.previous_published_revision_id;
}

abbrev pub backward : ReleaseMember → Publication
backward entry = record {
  entry_id = entry.entry_id;
  target_revision_id = or_else entry.previous_published_revision_id "";
  expected_draft_revision_id = none;
  expected_published_revision_id = some (some entry.revision_id);
}

module _ {Flow : Type 0} (options : Options Flow) (scope : ContentScope) where
  unfoldable pub preview_member : Tables → ReleaseMember → Result Failure PreviewEntry
  preview_member tables member = get options scope member.entry_id draft tables >>= λ current.
      revision options scope member.entry_id member.revision_id tables >>= λ pinned.
      schema_of options current.content_type >>= λ schema. elim schema.pattern [
        | none ↦ ok (record { member = member; fields = pinned.fields; route = none })
        | some pattern ↦ from_route (build_content_route schema pinned.fields) >>= λ route.
            ok (record { member = member; fields = pinned.fields; route = some route })
      ]

  unfoldable pub preview_release : List ReleaseMember → Tables → Result Failure (List PreviewEntry)
  preview_release members tables = map_each (preview_member tables) members

  -- The loop that asks the governance for each member.
  abbrev pub writable : List ReleaseMember → Result Failure (Unit {0})
  writable members =
      for_each (λ (m : ReleaseMember). options.assert_write scope (some m.entry_id)) members

  -- What `publishRelease` checks before it calls the repository.
  unfoldable pub release_checks :
      List ReleaseMember → Actor → Option String → Tables → Flow → Result Failure (Unit {0})
  release_checks members actor channel tables flow =
      writable members
      >> (assess_release options scope members actor channel tables flow >>= λ issues.
          throw_if (any is_error issues) (
            known (
              grid_story_error "Release validation failed before atomic publication."
                "release_validation_failed" 409)))

  -- The loop that tells the workflow of each publication.
  unfoldable pub tell_published : List ContentEntry → Actor → Process options (Unit {0})
  tell_published [] actor = reading options (λ tables flow. ok tt)
  tell_published (entry ∷ entries) actor =
      on_flow options (options.content_published scope entry actor) >-> λ told.
      tell_published entries actor

  unfoldable pub publish_release :
      Engine → List ReleaseMember → Actor → Option String → Process options (List ContentEntry)
  publish_release engine members actor channel =
      reading options (release_checks members actor channel) >-> λ checked.
      on_store options (publish_many engine scope (map forward members) actor) >-> λ entries.
      tell_published entries actor >-> λ told. reading options (λ tables flow. ok entries)

  -- What `rollbackRelease` checks.
  unfoldable pub rollback_checks : List ReleaseMember → Tables → Flow → Result Failure (Unit {0})
  rollback_checks members tables flow =
      writable members
      >> throw_if
          (any (λ (m : ReleaseMember). not (is_some m.previous_published_revision_id)) members)
          (known (
            grid_story_error
              "A release containing a first publication cannot be rolled back atomically."
              "release_rollback_unavailable" 409))

  unfoldable pub rollback_release :
      Engine → List ReleaseMember → Actor → Process options (List ContentEntry)
  rollback_release engine members actor = reading options (rollback_checks members) >-> λ checked.
      on_store options (publish_many engine scope (map backward members) actor)
