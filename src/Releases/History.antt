-- ===== src/Releases/History.antt =====
-- Sequences of operations on the releases of a scope.
use grid_story.Prelude.{String, Option, some, none, List, [], ◌∷◌, string_eq, ◌≡◌, refl, lookup}
use grid_story.Releases.{Release, ReleaseInput}
use grid_story.Releases.Store.{Actor, Services, World, Releases, Action}
use grid_story.Releases.Service.{
  create, validate, schedule, cancel_schedule, execute, rollback, process_due,
}
use grid_story.Releases.Evolution.{unchanged, Keyed}
use grid_story.Releases.Rules.{Any, Holds}
use grid_story.Releases.Laws.{validate-Holds, schedule-Holds, cancel_schedule-Holds}
use grid_story.Releases.Runs.{execute-Holds, rollback-Holds, process_due-Holds}
use grid_story.Releases.Additions.{Evolved, create-Evolved}
use grid_story.Releases.Fate.{Became, Follows-refl, evolved, Became-trans}

-- The operations that change stored releases, with their arguments.
pub data Operation : Type 0 where
  validates : String → Actor → Option String → Operation
  schedules : String → String → String → Actor → Operation
  cancels : String → Operation
  executes : String → Actor → Option String → Operation
  rolls_back : String → String → Actor → Operation
  processes : Operation
  creates : ReleaseInput → Actor → Operation

module _ {Content : Type 0} (services : Services Content) where
  -- The world that an operation leaves, whether it returns or throws.
  pub perform : Operation → World Content → World Content
  perform (validates id actor channel) world = (validate services id actor channel world).1
  perform (schedules id run_at time_zone actor) world =
      (schedule services id run_at time_zone actor world).1
  perform (cancels id) world = (cancel_schedule services id world).1
  perform (executes id actor channel) world = (execute services id actor channel world).1
  perform (rolls_back id reason actor) world = (rollback services id reason actor world).1
  perform processes world = (process_due services world).1
  perform (creates input actor) world = (create services input actor world).1

  pub perform_all : List Operation → World Content → World Content
  perform_all [] world = world
  perform_all (operation ∷ operations) world = perform_all operations (perform operation world)

  -- The id that an operation draws, if it draws one, is not that of a stored release.
  abbrev pub DrawsFresh : Operation → World Content → Type 0
  DrawsFresh (creates input actor) world =
      lookup (services.create_id world.content).0 world.releases ≡ none
  DrawsFresh _ world = Unit {0}

  -- So of every operation of a sequence, in the world that it meets.
  abbrev pub AllFresh : List Operation → World Content → Type 0
  AllFresh [] world = Unit {0}
  AllFresh (operation ∷ operations) world =
      DrawsFresh operation world × AllFresh operations (perform operation world)

outcome_of :
    {Content A : Type 0} {post : A → Releases → Type 0} {action : Action Content A}
    (world : World Content)
    → Keyed world.releases
    → Holds world.releases Any action post Any
    → Evolved world (action world).1
outcome_of world keyed h = let (k, e, p) = h.run world keyed unchanged tt in (k, e)

module _ {Content : Type 0} (services : Services Content) where
  perform-Evolved :
      (operation : Operation) (world : World Content)
      → Keyed world.releases
      → DrawsFresh services operation world
      → Evolved world (perform services operation world)
  unfolding perform
  perform-Evolved (validates id actor channel) world keyed fresh =
      outcome_of world keyed (validate-Holds services world.releases id actor channel)
  perform-Evolved (schedules id run_at time_zone actor) world keyed fresh =
      outcome_of world keyed (schedule-Holds services world.releases id run_at time_zone actor)
  perform-Evolved (cancels id) world keyed fresh =
      outcome_of world keyed (cancel_schedule-Holds services world.releases id)
  perform-Evolved (executes id actor channel) world keyed fresh =
      outcome_of world keyed (execute-Holds services world.releases id actor channel)
  perform-Evolved (rolls_back id reason actor) world keyed fresh =
      outcome_of world keyed (rollback-Holds services world.releases id reason actor)
  perform-Evolved processes world keyed fresh =
      outcome_of world keyed (process_due-Holds services world.releases)
  perform-Evolved (creates input actor) world keyed fresh =
      create-Evolved services input actor world keyed fresh

  -- If the releases are stored under their ids and every creation draws an id that is free, then
  -- whatever operations are performed, creations among them, whether they return or throw, a stored
  -- release stays stored under its id with the same pinned entries. One that was executing when the
  -- operations began, or rolled back, is not changed in any way, and one that was published is not
  -- changed either or is rolled back.
  pub perform_all-Became :
      (operations : List Operation) (world : World Content)
      → Keyed world.releases
      → AllFresh services operations world
      → (id : String) (release : Release) → lookup id world.releases ≡ some release
      → (later : Release) × (lookup id (perform_all services operations world).releases
          ≡ some later)
        × Became release later
  unfolding perform_all
  perform_all-Became [] world keyed fresh id release found =
      (release, found, (refl, refl, Follows-refl release))
  perform_all-Became (operation ∷ operations) world keyed (one, rest) id release found =
      let (still, evolves) = perform-Evolved operation world keyed one in
      let (middle, there, became) = evolved id release found evolves in
      let (later, last_found, further) =
        perform_all-Became operations (perform services operation world) still rest id middle
          there in
      (later, last_found, Became-trans release middle later became further)
