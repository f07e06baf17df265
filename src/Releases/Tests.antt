-- ===== src/Releases/Tests.antt =====
-- A store with one release of two entries, and services that always agree.
use grid_story.Prelude.{◌+◌, String, true, none, some, List, [], ◌∷◌, ◌≡◌, refl, ok, err, lookup}
use grid_story.Errors.{grid_story_error}
use grid_story.Context.Text.{trim, utf16_length}
use grid_story.Releases.{
  draft, ReleaseInput, input_is_valid, scheduled, published, manual, pending, Release,
  ReleaseMember, ReleaseSchedule, is_identifier, policy_is_valid, release_is_valid,
}
use grid_story.Releases.Store.{Actor, Services, World, now, save, get}
use grid_story.Releases.Changes.{
  scheduled_release, created_release, Tally, start_release, validated_release, published_release,
  rolled_back_release,
}
use grid_story.Releases.Scheduling.{Awaits, schedule-Awaits}
use grid_story.Releases.Publication.{execute-publish_release}
use grid_story.Releases.Creation.{Pinned, create-Pinned}
use grid_story.Releases.Service.{
  schedule, future_instant, create, parse_input, pin_entries, pin_entry, execute, validate, publish,
  rollback, check_mode, process_due,
}
use grid_story.Releases.Evolution.{Keyed, Keyed-insert, InState}
use grid_story.Releases.History.{
  Operation, creates, executes, rolls_back, cancels, perform_all, perform_all-Became,
}
use grid_story.Releases.Fate.{Became}
use grid_story.Releases.Outcomes.{execute-InState, process_due_total, Worked, count_due, listed}

abbrev agreeing : Services Unit
agreeing = record {
  time = λ n. 1000 + n;
  create_id = λ content. ("r2", content);
  get = λ id content. err (grid_story_error "Content was not found." "not_found" 404);
  get_revision = λ id revision content. ok tt;
  assess_release = λ entries actor channel content. (ok [], content);
  publish_release = λ entries actor channel content. (ok tt, content);
  rollback_release = λ entries actor content. (ok tt, content);
  annotate = λ name release at content. content;
  parse_instant = λ text. some 5000;
  is_time_zone = λ zone. true;
  input_mismatch = λ input. grid_story_error "The input does not match its schema." "invalid" 400;
  release_mismatch =
      λ release. grid_story_error "The release does not match its schema." "invalid" 500;
}

abbrev member : String → ReleaseMember
member id = record {
  entry_id = id;
  revision_id = "v2";
  content_type = "article";
  previous_published_revision_id = some "v1";
}

abbrev waiting : ReleaseSchedule
waiting = record {
  run_at = 900;
  time_zone = "UTC";
  requested_by = "ann";
  requested_by_roles = [];
  state = pending;
  created_at = 10;
  completed_at = none;
  error = none;
}

abbrev spring : Release
spring = record {
  id = "r1";
  name = "Spring";
  state = scheduled;
  entries = member "a" ∷ (member "b" ∷ []);
  rollback_policy = record { mode = manual; window_hours = none };
  validation = none;
  schedule = some waiting;
  created_by = "ann";
  created_at = 10;
  updated_at = 10;
  executed_at = none;
  executed_by = none;
  rolled_back_at = none;
  rolled_back_by = none;
  rollback_reason = none;
  error = none;
}

abbrev ann : Actor
ann = record { id = "ann"; roles = none }

abbrev live : Release
live = published_release (start_release (validated_release spring [] 1000) 1001) 1002 ann

abbrev withdrawn : Release
withdrawn = rolled_back_release live "Wrong price" ann 1010

abbrev store_of : Release → World Unit
store_of release = record { releases = (release.id, release) ∷ []; content = tt; readings = 0 }

Keyed-store : (release : Release) → Keyed (store_of release).releases
Keyed-store release = Keyed-insert release [] (λ key found h. cc)

published_once : (execute agreeing "r1" ann none (store_of spring)).0 ≡ ok live
unfolding execute validate publish save get release_is_valid is_identifier policy_is_valid
    utf16_length
published_once = refl

execute-InState_example :
    InState published live (execute agreeing "r1" ann none (store_of spring)).1.releases
execute-InState_example =
    execute-InState agreeing "r1" ann none (store_of spring) (Keyed-store spring) live
      published_once

withdrawn_once :
    (rollback agreeing "r1" " Wrong price " ann (store_of live)).0
    ≡ ok (rolled_back_release live "Wrong price" ann 1000)
unfolding rollback check_mode trim save get release_is_valid is_identifier policy_is_valid
    utf16_length
withdrawn_once = refl

abbrev editing : Services Unit
editing = record agreeing {
  get = λ id content. ok (record {
    id = id;
    content_type = "article";
    draft_revision_id = "v2";
    published_revision_id = some "v1";
  });
}

abbrev plan : ReleaseInput
plan = record {
  name = " Autumn ";
  entries =
      record { entry_id = "a"; revision_id = "v2" }
      ∷ (record { entry_id = "b"; revision_id = "v2" } ∷ []);
  rollback_policy = record { mode = manual; window_hours = none };
}

abbrev autumn : Release
autumn =
    created_release "r2" (record plan { name = "Autumn" }) (member "a" ∷ (member "b" ∷ [])) ann 1000

created_once : (create editing plan ann (store_of spring)).0 ≡ ok autumn
unfolding create parse_input pin_entries pin_entry save release_is_valid input_is_valid
    is_identifier policy_is_valid trim utf16_length
created_once = refl

create-Pinned_example :
    (autumn.state ≡ draft)
    × (autumn.created_by ≡ ann.id)
    × (autumn.name ≡ trim plan.name)
    × Pinned editing (store_of spring).content plan.entries autumn.entries
create-Pinned_example = create-Pinned editing plan ann (store_of spring) autumn created_once

execute-publish_release_example :
    (agreeing.publish_release live.entries ann none
      (validate agreeing "r1" ann none (store_of spring)).1.content).0
    ≡ ok tt
execute-publish_release_example =
    execute-publish_release agreeing "r1" ann none (store_of spring) live published_once

abbrev later : Release
later = scheduled_release (validated_release spring [] 1000) 5000 "UTC" ann 1002

scheduled_once :
    (schedule agreeing "r1" "1970-01-01T00:00:05Z" "UTC" ann (store_of spring)).0 ≡ ok later
unfolding schedule future_instant validate save get release_is_valid is_identifier policy_is_valid
    utf16_length
scheduled_once = refl

schedule-Awaits_example :
    Awaits agreeing.parse_instant "1970-01-01T00:00:05Z" ann
      (agreeing.time (validate agreeing "r1" ann none (store_of spring)).1.readings)
      later.schedule
schedule-Awaits_example =
    schedule-Awaits agreeing "r1" "1970-01-01T00:00:05Z" "UTC" ann (store_of spring) later
      scheduled_once

abbrev busy_day : List Operation
busy_day =
    creates plan ann
    ∷ (executes "r1" ann none ∷ (rolls_back "r1" "Wrong price" ann ∷ (cancels "r1" ∷ [])))

perform_all-Became_example :
    (later : Release) × (lookup "r1" (perform_all editing busy_day (store_of spring)).releases
      ≡ some later)
    × Became spring later
perform_all-Became_example =
    perform_all-Became editing busy_day (store_of spring) (Keyed-store spring)
      (refl, (tt, (tt, (tt, tt)))) "r1" spring refl

-- The store at the instant for which its release is scheduled.
abbrev due_store : World Unit
due_store = record (store_of later) { readings = 4000 }

process_due_total_example :
    (tally : Tally) × ((process_due agreeing due_store).0 ≡ ok tally)
    × Worked agreeing 5000
        (listed agreeing due_store)
        (now agreeing due_store).1
        tally.executed
        tally.failed
        (process_due agreeing due_store).1
    × (tally.executed + tally.failed ≡ count_due agreeing 5000 (listed agreeing due_store))
process_due_total_example = process_due_total agreeing due_store
