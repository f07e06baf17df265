-- ===== src/Releases/Store.antt =====
-- packages/core/src/release-repository.ts: the releases of one scope, and the actions of a service
-- on them. The content service, the analytics, the clock and the sources of ids, instants and time
-- zones are given by `Services`.
use grid_story.Prelude.{
  ℕ, suc, String, Bool, Option, none, some, List, [], ◌∷◌, lookup, insert, sort, ltb, if◌then◌else◌,
  ok, err, Step,
}
use grid_story.Errors.{GridStoryError, Outcome, not_found_error}
use grid_story.Releases.{
  Release, ReleaseMember, ReleaseValidationIssue, ReleaseInput, release_is_valid,
}

pub record Actor : Type 0 where
  pub id : String
  pub roles : Option (List String)

-- What the service reads of a draft.
pub record Draft : Type 0 where
  pub id : String
  pub content_type : String
  pub draft_revision_id : String
  pub published_revision_id : Option String

pub data AnnotationName : Type 0 where
  release_published release_rolled_back : AnnotationName

-- `content` is what the content service and the analytics hold. An operation that fails may have
-- changed it.
pub record Services (Content : Type 0) : Type 0 where
  pub time : ℕ → ℕ
  pub create_id : Content → String × Content
  pub get : String → Content → Outcome Draft
  pub get_revision : String → String → Content → Outcome (Unit {0})
  pub assess_release :
      List ReleaseMember
      → Actor
      → Option String
      → Content
      → Outcome (List ReleaseValidationIssue) × Content
  pub publish_release :
      List ReleaseMember → Actor → Option String → Content → Outcome (Unit {0}) × Content
  pub rollback_release : List ReleaseMember → Actor → Content → Outcome (Unit {0}) × Content
  pub annotate : AnnotationName → Release → ℕ → Content → Content
  pub parse_instant : String → Option ℕ
  pub is_time_zone : String → Bool
  pub input_mismatch : ReleaseInput → GridStoryError
  pub release_mismatch : Release → GridStoryError

abbrev pub Releases : Type 0
Releases = List (String × Release)

-- The repository, the content, and how often the clock was read.
pub record World (Content : Type 0) : Type 0 where
  pub releases : Releases
  pub content : Content
  pub readings : ℕ

-- An operation of the service: what it returns or throws, and the world that it leaves.
abbrev pub Action : Type 0 → Type 0 → Type 0
Action Content A = Step (World Content) GridStoryError A

-- The releases of the repository, in the order of their first saving.
abbrev pub values : Releases → List Release
values [] = []
values ((key, release) ∷ rest) = release ∷ values rest

module _ {Content : Type 0} where
  -- A call that only the content sees.
  abbrev pub on_content : {A : Type 0} → (Content → Outcome A × Content) → Action Content A
  on_content call world = (
    (call world.content).0,
    record {
      releases = world.releases;
      content = (call world.content).1;
      readings = world.readings;
    },
  )

  abbrev pub read_content : {A : Type 0} → (Content → Outcome A) → Action Content A
  read_content call world = (call world.content, world)

  -- The repository's `list`: the releases that changed last come first.
  abbrev pub list : Action Content (List Release)
  list world = (
    ok (sort (λ left right. ltb right.updated_at left.updated_at) (values world.releases)),
    world,
  )

module _ {Content : Type 0} (services : Services Content) where
  -- `this.#now()`.
  abbrev pub now : Action Content ℕ
  now world = (
    ok (services.time world.readings),
    record { releases = world.releases; content = world.content; readings = suc world.readings },
  )

  -- The repository's `save`.
  unfoldable pub save : Release → Action Content Release
  save release world =
      if release_is_valid release
      then (
        ok release,
        record {
          releases = insert release.id release world.releases;
          content = world.content;
          readings = world.readings;
        },
      )
      else (err (services.release_mismatch release), world)

  -- The service's `get`.
  unfoldable pub get : String → Action Content Release
  get id world = elim (lookup id world.releases) [
    | none ↦ (err (not_found_error "Release was not found."), world)
    | some release ↦ (ok release, world)
  ]
