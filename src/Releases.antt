-- ===== src/Releases.antt =====
-- packages/schema/src/release.ts: releases and the bounds that their schema puts on them.
-- An instant is its milliseconds since the epoch: `toISOString` and the parsing of its texts are
-- inverse on the instants that the service stores.
pub mod Store
pub mod Changes
pub mod Service
pub mod Evolution
pub mod Rules
pub mod Laws
pub mod Runs
pub mod History
pub mod Fate
pub mod Additions
pub mod Outcomes
pub mod Creation
pub mod Publication
pub mod Scheduling
mod Tests
use Prim.Native.String
use Prim.Native.Char.{code}
use grid_story.Prelude.{
  ℕ, suc, ◌+◌, ◌-◌, String, Bool, true, false, not, ◌&&◌, ◌||◌, Option, none, some, List, [], ◌∷◌,
  ◌==◌, string_eq, all, length, leb, ltb, nat_beq, if◌then◌else◌, contains, is_some, Eq, ◌↔◌, ◌≡◌,
  refl,
}
use grid_story.Context.Text.{is_empty, utf16_length}

pub data ReleaseState : Type 0 where
  draft validated scheduled executing published rolled_back failed : ReleaseState

pub data RollbackMode : Type 0 where
  manual time_window disabled : RollbackMode

pub record ReleaseRollbackPolicy : Type 0 where
  pub mode : RollbackMode
  pub window_hours : Option ℕ

pub record ReleaseMemberInput : Type 0 where
  pub entry_id : String
  pub revision_id : String

pub record ReleaseMember : Type 0 where
  pub entry_id : String
  pub revision_id : String
  pub content_type : String
  pub previous_published_revision_id : Option String

pub data IssueSeverity : Type 0 where
  error warning : IssueSeverity

pub record ReleaseValidationIssue : Type 0 where
  pub code : String
  pub severity : IssueSeverity
  pub message : String

pub record ReleaseValidationResult : Type 0 where
  pub valid : Bool
  pub checked_at : ℕ
  pub issues : List ReleaseValidationIssue

-- `lapsed` is the state `failed` of a schedule.
pub data ScheduleState : Type 0 where
  pending executed cancelled lapsed : ScheduleState

pub record ReleaseSchedule : Type 0 where
  pub run_at : ℕ
  pub time_zone : String
  pub requested_by : String
  pub requested_by_roles : List String
  pub state : ScheduleState
  pub created_at : ℕ
  pub completed_at : Option ℕ
  pub error : Option String

pub record Release : Type 0 where
  pub id : String
  pub name : String
  pub state : ReleaseState
  pub entries : List ReleaseMember
  pub rollback_policy : ReleaseRollbackPolicy
  pub validation : Option ReleaseValidationResult
  pub schedule : Option ReleaseSchedule
  pub created_by : String
  pub created_at : ℕ
  pub updated_at : ℕ
  pub executed_at : Option ℕ
  pub executed_by : Option String
  pub rolled_back_at : Option ℕ
  pub rolled_back_by : Option String
  pub rollback_reason : Option String
  pub error : Option String

-- The input with its defaults filled in.
pub record ReleaseInput : Type 0 where
  pub name : String
  pub entries : List ReleaseMemberInput
  pub rollback_policy : ReleaseRollbackPolicy

-- `z.string().min(low).max(high)`.
abbrev pub is_between : ℕ → ℕ → ℕ → Bool
is_between low high n = leb low n && leb n high

abbrev pub text_between : ℕ → ℕ → String → Bool
text_between low high text = is_between low high (utf16_length text)

abbrev pub is_filled : String → Bool
is_filled text = not (is_empty text)

abbrev pub optional {ℓ} : {A : Type ℓ} → (A → Bool) → Option A → Bool
optional test none = true
optional test (some a) = test a

abbrev is_alphanumeric : ℕ → Bool
is_alphanumeric c = is_between b'a' b'z' c || (is_between b'A' b'Z' c || is_between b'0' b'9' c)

abbrev rest_of_identifier : String → Bool
rest_of_identifier String.[] = true
rest_of_identifier (String.◌∷◌ c s) =
    (is_alphanumeric (code c)
      || (nat_beq (code c) b'.' || (nat_beq (code c) b'_' || nat_beq (code c) b'-')))
    && rest_of_identifier s

-- `identifierSchema`.
unfoldable pub is_identifier : String → Bool
is_identifier String.[] = false
is_identifier (String.◌∷◌ c s) =
    is_alphanumeric (code c) && (rest_of_identifier s && leb (utf16_length (String.◌∷◌ c s)) 120)

-- `releaseRollbackPolicySchema`: hours exactly for a time window, and at most a year.
unfoldable pub policy_is_valid : ReleaseRollbackPolicy → Bool
policy_is_valid policy = optional (is_between 1 8760) policy.window_hours && elim policy.mode [
  | manual ↦ not (is_some policy.window_hours)
  | time_window ↦ is_some policy.window_hours
  | disabled ↦ not (is_some policy.window_hours)
]

abbrev distinct_from : List String → List ReleaseMemberInput → Bool
distinct_from seen [] = true
distinct_from seen (entry ∷ entries) =
    not (contains seen entry.entry_id) && distinct_from (entry.entry_id ∷ seen) entries

-- `releaseInputSchema`, on a name that is trimmed.
unfoldable pub input_is_valid : ReleaseInput → Bool
input_is_valid release =
    text_between 1 160 release.name
    && (is_between 2 100 (length release.entries)
        && (all (λ entry. is_filled entry.entry_id && is_filled entry.revision_id) release.entries
            && (policy_is_valid release.rollback_policy && distinct_from [] release.entries)))

abbrev member_is_valid : ReleaseMember → Bool
member_is_valid member =
    is_filled member.entry_id
    && (is_filled member.revision_id
        && (is_filled member.content_type
            && optional is_filled member.previous_published_revision_id))

abbrev validation_is_valid : ReleaseValidationResult → Bool
validation_is_valid result =
    all (λ issue. text_between 1 2000 issue.message) result.issues
    && leb (length result.issues) 1000

abbrev schedule_is_valid : ReleaseSchedule → Bool
schedule_is_valid schedule =
    text_between 1 100 schedule.time_zone
    && (is_filled schedule.requested_by
        && (all is_filled schedule.requested_by_roles
            && optional (text_between 0 2000) schedule.error))

-- `releaseSchema`.
unfoldable pub release_is_valid : Release → Bool
release_is_valid release =
    is_identifier release.id
    && (text_between 1 160 release.name
        && (is_between 2 100 (length release.entries)
            && (all member_is_valid release.entries
                && (policy_is_valid release.rollback_policy
                    && (optional validation_is_valid release.validation
                        && (optional schedule_is_valid release.schedule
                            && (is_filled release.created_by
                                && (optional is_filled release.executed_by
                                    && (optional is_filled release.rolled_back_by
                                        && (optional (text_between 1 2000) release.rollback_reason
                                            && optional (text_between 0 2000)
                                                release.error))))))))))
