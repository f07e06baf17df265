-- ===== src/Releases/Changes.antt =====
-- packages/core/src/release-service.ts: the releases that the operations save, and their tests.
use Prim.Native.Char.{code}
use grid_story.Prelude.{
  ℕ, ◌+◌, ◌-◌, ◌*◌, String, Bool, true, false, not, ◌&&◌, Option, none, some, List, [], ◌++◌,
  string_eq, any, leb, if◌then◌else◌, or_else, is_some, push_if, ok, err,
}
use grid_story.Errors.{GridStoryError, Outcome, grid_story_error}
use grid_story.Context.Text.{is_empty}
use grid_story.Releases.{
  ReleaseInput, ReleaseMember, ReleaseState, draft, validated, scheduled, executing, published,
  rolled_back, failed, ReleaseRollbackPolicy, RollbackMode, disabled, ReleaseValidationIssue, error,
  warning, ScheduleState, pending, executed, cancelled, lapsed, ReleaseSchedule, Release,
}
use grid_story.Releases.Store.{Actor}

-- `text.slice(0, units)`; of a character that the cut would split nothing is kept.
abbrev pub slice_start : ℕ → String → String
slice_start units String.[] = String.[]
slice_start units (String.◌∷◌ c s) =
    let width = if leb 0x10000 (code c) then 2 else 1 in
    let rest = slice_start (units - width) s in
    if leb width units then String.◌∷◌ c rest else String.[]

abbrev pub message_of : GridStoryError → String
message_of failure = slice_start 2000 failure.message

abbrev pub is_pending : Option ReleaseSchedule → Bool
is_pending none = false
is_pending (some schedule) = elim schedule.state [ pending ↦ true | _ ↦ false ]

-- `{ ...schedule, state, completedAt }` of a pending schedule, with an error if there is one.
abbrev pub complete_pending :
    ScheduleState → ℕ → Option String → Option ReleaseSchedule → Option ReleaseSchedule
complete_pending state at failure none = none
complete_pending state at failure (some schedule) =
    if is_pending (some schedule)
    then some (record schedule {
      state = state;
      completed_at = some at;
      error = elim failure [ none ↦ schedule.error | some message ↦ some message ];
    })
    else some schedule

abbrev pub can_revalidate : ReleaseState → Bool
can_revalidate executing = false
can_revalidate published = false
can_revalidate rolled_back = false
can_revalidate _ = true

-- `channel ? { channel } : {}`: an empty channel counts as none.
abbrev pub filled_channel : Option String → Option String
filled_channel none = none
filled_channel (some channel) = if is_empty channel then none else some channel

abbrev pub is_error : ReleaseValidationIssue → Bool
is_error issue = elim issue.severity [ error ↦ true | warning ↦ false ]

abbrev pub is_disabled : RollbackMode → Bool
is_disabled mode = elim mode [ disabled ↦ true | _ ↦ false ]

abbrev pub rollback_warning : ReleaseValidationIssue
rollback_warning = record {
  code = "rollback-unavailable";
  severity = warning;
  message =
      "Atomic rollback is unavailable because at least one member has no earlier published revision.";
}

-- What `validate` adds to the issues of the content service.
abbrev pub with_warning : Release → List ReleaseValidationIssue → List ReleaseValidationIssue
with_warning release issues =
    issues
    ++ push_if
        (not (is_disabled release.rollback_policy.mode)
          && any (λ entry. not (is_some entry.previous_published_revision_id)) release.entries)
        rollback_warning

-- The release that `validate` saves.
abbrev pub validated_release : Release → List ReleaseValidationIssue → ℕ → Release
validated_release release issues checked_at =
    let valid = not (any is_error issues) in
    let schedule =
      if not valid && is_pending release.schedule
      then complete_pending lapsed checked_at (some "Release validation failed after scheduling.")
          release.schedule
      else release.schedule in
    record release {
      state =
          if valid && is_pending schedule then scheduled else (if valid then validated else draft);
      validation = some (record { valid = valid; checked_at = checked_at; issues = issues });
      schedule = schedule;
      error = none;
      updated_at = checked_at;
    }

abbrev pub is_valid : Release → Bool
is_valid release = elim release.validation [ none ↦ false | some result ↦ result.valid ]

abbrev pub start_release : Release → ℕ → Release
start_release release at = record release { state = executing; error = none; updated_at = at }

abbrev pub published_release : Release → ℕ → Actor → Release
published_release release at actor = record release {
  state = published;
  executed_at = some at;
  executed_by = some actor.id;
  schedule = complete_pending executed at none release.schedule;
  updated_at = at;
}

abbrev pub failed_release : Release → ℕ → GridStoryError → Release
failed_release release at failure = record release {
  state = failed;
  error = some (message_of failure);
  schedule = complete_pending lapsed at (some (message_of failure)) release.schedule;
  updated_at = at;
}

abbrev pub created_release : String → ReleaseInput → List ReleaseMember → Actor → ℕ → Release
created_release id candidate entries actor at = record {
  id = id;
  name = candidate.name;
  state = draft;
  entries = entries;
  rollback_policy = candidate.rollback_policy;
  validation = none;
  schedule = none;
  created_by = actor.id;
  created_at = at;
  updated_at = at;
  executed_at = none;
  executed_by = none;
  rolled_back_at = none;
  rolled_back_by = none;
  rollback_reason = none;
  error = none;
}

abbrev pub scheduled_release : Release → ℕ → String → Actor → ℕ → Release
scheduled_release release run_at time_zone actor at = record release {
  state = scheduled;
  schedule = some (record {
    run_at = run_at;
    time_zone = time_zone;
    requested_by = actor.id;
    requested_by_roles = or_else actor.roles [];
    state = pending;
    created_at = at;
    completed_at = none;
    error = none;
  });
  updated_at = at;
}

abbrev pub cancelled_release : Release → ℕ → Release
cancelled_release release at = record release {
  state = validated;
  schedule = complete_pending cancelled at none release.schedule;
  updated_at = at;
}

abbrev pub rolled_back_release : Release → String → Actor → ℕ → Release
rolled_back_release release reason actor at = record release {
  state = rolled_back;
  rolled_back_at = some at;
  rolled_back_by = some actor.id;
  rollback_reason = some reason;
  updated_at = at;
}

-- A scheduled instant is a number and lies in the future.
abbrev pub require_future : Option ℕ → ℕ → Outcome ℕ
require_future none at =
    err (grid_story_error "runAt must be a future ISO-8601 instant." "invalid_schedule" 400)
require_future (some run_at) at =
    if leb run_at at
    then err (grid_story_error "runAt must be a future ISO-8601 instant." "invalid_schedule" 400)
    else ok run_at

abbrev pub is_scheduled : ReleaseState → Bool
is_scheduled state = elim state [ scheduled ↦ true | _ ↦ false ]

abbrev pub window_expired_error : GridStoryError
window_expired_error =
    grid_story_error "The configured rollback window has expired." "release_rollback_window_expired"
      409

-- The deadline of a time window, in milliseconds.
abbrev pub deadline_of : ReleaseRollbackPolicy → ℕ → ℕ
deadline_of policy executed_at = executed_at + or_else policy.window_hours 0 * 3600000

-- `release.executedAt` of a published release.
abbrev pub published_at : ReleaseState → Option ℕ → Option ℕ
published_at published at = at
published_at _ at = none

abbrev pub publication : Release → Option ℕ
publication release = published_at release.state release.executed_at

pub record Tally : Type 0 where
  pub executed : ℕ
  pub failed : ℕ

abbrev pub no_tally : Tally
no_tally = record { executed = 0; failed = 0 }

abbrev pub is_due : ℕ → Release → Bool
is_due at release = is_scheduled release.state && elim release.schedule [
  | none ↦ false
  | some schedule ↦ is_pending (some schedule) && leb schedule.run_at at
]

-- The actor for whom a schedule runs.
abbrev pub requester : Release → Actor
requester release = elim release.schedule [
  | none ↦ record { id = ""; roles = none }
  | some schedule ↦ record { id = schedule.requested_by; roles = some schedule.requested_by_roles }
]
