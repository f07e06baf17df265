-- ===== src/Content/Service.antt =====
-- packages/core/src/content-service.ts: the content service of one scope, over the SQLite repository.
-- What it asks of the schemas, the governance, the workflow and the quality checks is a record; the
-- workflow keeps a state of its own, and what the others read does not change meanwhile.
pub mod Assessment
pub mod Joint
pub mod Effects
pub mod Releases
pub mod Publishing
pub mod Undo
pub mod Failures
mod Tests
use grid_story.Prelude.{
  ℕ, String, Bool, true, false, not, ◌&&◌, ◌||◌, Option, none, some, List, [], ◌∷◌, ◌++◌, ◌==◌,
  string_eq, option_eq, or_else, if◌then◌else◌, and_then, is_some, any, all, keep, map, lookup,
  insert, insert_all, contains, push_if, ltb, length, Result, ok, err, ◌>>=◌, ◌>>◌, throw_if,
  or_throw, for_each, map_each, Step, ◌>->◌,
}
use grid_story.Canonical.{◌<>◌}
use grid_story.Errors.{
  GridStoryError, grid_story_error, not_found_error, conflict_error, publish_quality_gate_error,
}
use grid_story.Context.{ContentScope, ContentPerspective, draft, published}
use grid_story.Routing.Content as R
use grid_story.Routing.Content.{ContentSchema, Fields, build_content_route}
use grid_story.Releases.{ReleaseMember, ReleaseValidationIssue, error}
use grid_story.Releases.Store.{Actor}
use grid_story.Content.{
  Failure, plain, known, invalid, Issue, if_filled, Store, Tables, ContentEntry, ContentRevision,
}
use grid_story.Content.Statements.{Engine, Operation}
use grid_story.Content.Repository as P
use grid_story.Content.Reads as Reads
use grid_story.Content.Repository.{Publication, entry_not_found, publish_many}
use grid_story.Content.Reads.{get_by_id, get_by_slug, get_revision, list_revisions}

-- A reference in the data, and where it stands.
pub record Reference : Type 0 where
  pub id : String
  pub content_type : String

pub record QualityReport : Type 0 where
  pub passed : Bool
  pub score : String

-- The options of the service. A gate that is not set admits everything.
pub record Options (Flow : Type 0) : Type 0 where
  pub schemas : List ContentSchema
  pub validate_content : ContentSchema → Fields → List Issue
  pub collect_references : ContentSchema → Fields → List Reference
  pub assert_write : ContentScope → Option String → Result Failure (Unit {0})
  pub content_created :
      ContentScope → ContentEntry → Actor → Flow → Result Failure (Unit {0}) × Flow
  pub draft_updated : ContentScope → ContentEntry → Actor → Flow → Result Failure (Unit {0}) × Flow
  pub assert_can_publish : ContentScope → ContentEntry → Actor → Flow → Result Failure (Unit {0})
  pub content_published :
      ContentScope → ContentEntry → Actor → Flow → Result Failure (Unit {0}) × Flow
  pub assess : Option (ContentScope → ContentEntry → String → List String → QualityReport)

-- The database, and the state of the workflow.
pub record Site (Flow : Type 0) : Type 0 where
  pub store : Store
  pub flow : Flow

abbrev pub from_route : {A : Type 0} → Result R.Failure A → Result Failure A
from_route (ok a) = ok a
from_route (err (R.plain message)) = err (plain message)
from_route (err (R.service e)) = err (known e)

abbrev pub schema_entries : List ContentSchema → List (String × ContentSchema)
schema_entries schemas = map (λ (s : ContentSchema). (s.id, s)) schemas

-- `new Map(schemas.map((schema) => [schema.id, schema]))`.
abbrev pub schema_map : List ContentSchema → List (String × ContentSchema)
schema_map schemas = insert_all [] (schema_entries schemas)

abbrev pub values {ℓ} : {A : Type ℓ} → List (String × A) → List A
values m = map (λ e. e.1) m

abbrev pub unregistered : String → Failure
unregistered content_type =
    known (not_found_error ("Content type " <> (content_type <> " is not registered.")))

-- `published.find(…)`: the first other entry on the route. Building a route may fail.
unfoldable pub find_collision :
    ContentSchema → String → String → List ContentEntry → Result Failure (Option ContentEntry)
find_collision schema id route [] = ok none
find_collision schema id route (candidate ∷ candidates) =
    let rest = find_collision schema id route candidates in
    if candidate.id == id
    then rest
    else (from_route (build_content_route schema candidate.fields) >>= λ other.
        if other == route then ok (some candidate) else rest)

module _ {Flow : Type 0} (options : Options Flow) where
  -- `#schema`.
  unfoldable pub schema_of : String → Result Failure ContentSchema
  schema_of content_type =
      or_throw (lookup content_type (schema_map options.schemas)) (unregistered content_type)

  abbrev pub assert_valid_content : ContentSchema → Fields → Result Failure (Unit {0})
  assert_valid_content schema fields = elim (options.validate_content schema fields) [
    | [] ↦ ok tt
    | issue ∷ issues ↦ err (invalid (issue ∷ issues))
  ]

  -- `#validate`.
  unfoldable pub validate : String → Fields → Result Failure (Unit {0})
  validate content_type fields =
      schema_of content_type >>= λ schema. assert_valid_content schema fields

  abbrev pub is_target : ContentScope → Reference → Tables → Bool
  is_target scope reference tables = elim (get_by_id scope reference.id draft tables) [
    | none ↦ false
    | some target ↦ target.content_type == reference.content_type
  ]

  abbrev pub reference_issue : Reference → String → Issue
  reference_issue reference ending = record {
    message =
        "Referenced " <> (reference.content_type <> (" content " <> (reference.id <> ending)));
  }

  -- The issues that `#validateReferences` collects.
  abbrev pub reference_issues : ContentScope → Tables → List Reference → List Issue
  reference_issues scope tables [] = []
  reference_issues scope tables (reference ∷ references) =
      push_if (not (is_target scope reference tables))
        (reference_issue reference " was not found in the active scope.")
      ++ reference_issues scope tables references

  abbrev pub throw_issues : List Issue → Result Failure (Unit {0})
  throw_issues [] = ok tt
  throw_issues (issue ∷ issues) = err (invalid (issue ∷ issues))

  -- `#validateReferences`.
  unfoldable pub validate_references :
      ContentScope → String → Fields → Tables → Result Failure (Unit {0})
  validate_references scope content_type fields tables = schema_of content_type >>= λ schema.
      throw_issues (reference_issues scope tables (options.collect_references schema fields))

  -- One round of the loop of `#validatePublishedRoute`.
  unfoldable pub check_route :
      ContentScope → String → String → Tables → ContentSchema → Result Failure (Unit {0})
  check_route scope id route tables schema = elim schema.pattern [
    | none ↦ ok tt
    | some pattern ↦
        find_collision schema id route (Reads.list scope (some schema.id) published tables)
        >>= λ collision.
            throw_if (is_some collision)
              (known (conflict_error ("Canonical route " <> (route <> " is already published."))))
  ]

  -- `#validatePublishedRoute`.
  unfoldable pub validate_published_route :
      ContentScope → ContentEntry → Tables → Result Failure (Unit {0})
  validate_published_route scope entry tables = schema_of entry.content_type >>= λ schema.
      elim schema.pattern [
        | none ↦ ok tt
        | some pattern ↦ from_route (build_content_route schema entry.fields) >>= λ route.
            for_each (check_route scope entry.id route tables) (values (schema_map options.schemas))
      ]

  unfoldable pub get :
      ContentScope → String → ContentPerspective → Tables → Result Failure ContentEntry
  get scope id perspective tables = or_throw (get_by_id scope id perspective tables) entry_not_found

  unfoldable pub get_slug :
      ContentScope → String → String → ContentPerspective → Tables → Result Failure ContentEntry
  get_slug scope content_type slug perspective tables = schema_of content_type >>= λ schema.
      or_throw (get_by_slug scope content_type slug perspective tables)
        (known (not_found_error "Published content was not found."))

  unfoldable pub revision : ContentScope → String → String → Tables → Result Failure ContentRevision
  revision scope id revision_id tables =
      or_throw (get_revision scope id revision_id tables)
        (known (not_found_error "Content revision was not found."))

  unfoldable pub revisions : ContentScope → String → Tables → Result Failure (List ContentRevision)
  revisions scope id tables =
      get scope id draft tables >>= λ entry. ok (list_revisions scope id tables)

  unfoldable pub validate_candidate :
      ContentScope → String → Fields → Tables → Result Failure (Unit {0})
  validate_candidate scope content_type fields tables =
      validate content_type fields >> validate_references scope content_type fields tables

  -- The quality gate of `publish`, for the channel or `web`.
  unfoldable pub quality_check :
      ContentScope → ContentEntry → Option String → Actor → Result Failure (Unit {0})
  quality_check scope entry channel actor = elim options.assess [
    | none ↦ ok tt
    | some assess ↦
        throw_if (not (assess scope entry (or_else channel "web") (or_else actor.roles [])).passed)
          (known publish_quality_gate_error)
  ]

  -- What `publish` checks before it calls the repository.
  unfoldable pub publish_checks :
      ContentScope → String → Actor → Option String → Tables → Flow → Result Failure ContentEntry
  publish_checks scope id actor channel tables flow =
      options.assert_write scope (some id) >>= λ writable. get scope id draft tables >>= λ current.
      validate current.content_type current.fields >>= λ sound.
      options.assert_can_publish scope current actor flow >>= λ approved.
      quality_check scope current channel actor >>= λ good.
      validate_published_route scope current tables >>= λ free. ok current

  abbrev pub Process : Type 0 → Type 0
  Process A = Step (Site Flow) Failure A

  -- A call of the repository.
  unfoldable pub on_store : {A : Type 0} → Operation A → Process A
  on_store work site =
      ((work site.store).0, record { store = (work site.store).1; flow = site.flow })

  -- A call of the workflow.
  unfoldable pub on_flow : (Flow → Result Failure (Unit {0}) × Flow) → Process (Unit {0})
  on_flow call site = ((call site.flow).0, record { store = site.store; flow = (call site.flow).1 })

  -- What only reads.
  unfoldable pub reading : {A : Type 0} → (Tables → Flow → Result Failure A) → Process A
  reading read site = (read site.store.tables site.flow, site)

module _ {Flow : Type 0} (options : Options Flow) (engine : Engine) (scope : ContentScope) where
  unfoldable pub create :
      Option String → String → Fields → Actor → Option String → Process options ContentEntry
  create id content_type fields actor group =
      reading options (λ tables flow.
        options.assert_write scope none
        >> (validate options content_type fields
            >> validate_references options scope content_type fields tables))
      >-> λ checked.
          on_store options
            (P.create engine scope (if_filled id) content_type fields actor (if_filled group))
          >-> λ entry. on_flow options (options.content_created scope entry actor) >-> λ told.
              reading options (λ tables flow. ok entry)

  unfoldable pub update_draft : String → String → Fields → Actor → Process options ContentEntry
  update_draft id expected_revision_id fields actor =
      reading options (λ tables flow.
        options.assert_write scope (some id)
        >> (get options scope id draft tables >>= λ current.
            validate options current.content_type fields
            >> validate_references options scope current.content_type fields tables))
      >-> λ checked.
          on_store options (P.update_draft engine scope id expected_revision_id fields actor)
          >-> λ entry. on_flow options (options.draft_updated scope entry actor) >-> λ told.
              reading options (λ tables flow. ok entry)

  unfoldable pub publish : String → String → Actor → Option String → Process options ContentEntry
  publish id expected_revision_id actor channel =
      reading options (publish_checks options scope id actor channel) >-> λ current.
      on_store options (P.publish engine scope id expected_revision_id actor) >-> λ entry.
      on_flow options (options.content_published scope entry actor) >-> λ told.
      reading options (λ tables flow. ok entry)
