-- ===== src/Releases/Service.antt =====
-- packages/core/src/release-service.ts: the operations on the releases of one scope.

use grid_story.Prelude.{
  ◌>>-◌, pure, lift, attempt, ℕ, suc, String, not, ◌&&◌, Option, none, List, [], ◌∷◌, ◌==◌,
  string_eq, ltb, if◌then◌else◌, throw_if, or_throw, ok, err,
}
use grid_story.Errors.{Outcome, GridStoryError, grid_story_error, not_found_error, conflict_error}
use grid_story.Context.Text.{is_empty, trim, utf16_length}
use grid_story.Releases.{
  ReleaseRollbackPolicy, RollbackMode, manual, time_window, disabled, ReleaseMemberInput,
  ReleaseMember, Release, ReleaseInput, input_is_valid,
}
use grid_story.Releases.Store.{
  Actor, AnnotationName, release_published, release_rolled_back, Services, Action, on_content,
  read_content, list, now, save, get,
}
use grid_story.Releases.Changes.{
  created_release, filled_channel, is_pending, can_revalidate, is_disabled, with_warning,
  validated_release, is_valid, start_release, published_release, failed_release, scheduled_release,
  cancelled_release, rolled_back_release, require_future, is_scheduled, window_expired_error,
  deadline_of, publication, Tally, no_tally, is_due, requester,
}

module _ {Content : Type 0} (services : Services Content) where
  -- One round of the loop of `create`: the draft is pinned at its current revision.
  unfoldable pub pin_entry : ReleaseMemberInput → Action Content ReleaseMember
  pin_entry member = read_content (services.get member.entry_id) >>- λ entry.
      lift (
        throw_if (not (entry.draft_revision_id == member.revision_id))
          (conflict_error "A release must pin the current immutable draft revision."))
      >>- λ pinned.
          read_content (services.get_revision member.entry_id member.revision_id) >>- λ revision.
          pure (record {
            entry_id = member.entry_id;
            revision_id = member.revision_id;
            content_type = entry.content_type;
            previous_published_revision_id = entry.published_revision_id;
          })

  unfoldable pub pin_entries : List ReleaseMemberInput → Action Content (List ReleaseMember)
  pin_entries [] = pure []
  pin_entries (member ∷ members) =
      pin_entry member >>- λ entry. pin_entries members >>- λ entries. pure (entry ∷ entries)

  -- `releaseInputSchema.parse`.
  unfoldable pub parse_input : ReleaseInput → Action Content ReleaseInput
  parse_input input =
      let trimmed = record input { name = trim input.name } in
      lift (if input_is_valid trimmed then ok trimmed else err (services.input_mismatch input))

  -- `this.#createId()`.
  abbrev pub fresh_id : Content → Outcome String × Content
  fresh_id content = (ok (services.create_id content).0, (services.create_id content).1)

  unfoldable pub create : ReleaseInput → Actor → Action Content Release
  create input actor = parse_input input >>- λ candidate.
      pin_entries candidate.entries >>- λ entries. now services >>- λ at.
      on_content fresh_id >>- λ id. save services (created_release id candidate entries actor at)

  unfoldable pub validate : String → Actor → Option String → Action Content Release
  validate id actor channel = get services id >>- λ release.
      lift (
        throw_if (not (can_revalidate release.state))
          (conflict_error "This release can no longer be revalidated in its current state."))
      >>- λ allowed.
          on_content (services.assess_release release.entries actor (filled_channel channel))
          >>- λ issues. now services >>- λ checked_at.
              save services (validated_release release (with_warning release issues) checked_at)

  -- `new Date(runAt)` in the future, or an error.
  unfoldable pub future_instant : String → Action Content ℕ
  future_instant text =
      now services >>- λ at. lift (require_future (services.parse_instant text) at)

  unfoldable pub schedule : String → String → String → Actor → Action Content Release
  schedule id run_at time_zone actor = validate id actor none >>- λ validated_one.
      lift (
        throw_if (not (is_valid validated_one)) (
          grid_story_error "Release validation failed before scheduling."
            "release_validation_failed" 409))
      >>- λ valid. future_instant run_at >>- λ instant.
          lift (
            throw_if (not (services.is_time_zone time_zone))
              (grid_story_error "timeZone must be a valid IANA time zone." "invalid_schedule" 400))
          >>- λ known. now services >>- λ at.
              save services (scheduled_release validated_one instant time_zone actor at)

  unfoldable pub cancel_schedule : String → Action Content Release
  cancel_schedule id = get services id >>- λ release.
      lift (
        throw_if (not (is_scheduled release.state && is_pending release.schedule))
          (not_found_error "Pending release schedule was not found."))
      >>- λ found. now services >>- λ at. save services (cancelled_release release at)

  -- `#annotate`, whose own failure is swallowed.
  annotate : AnnotationName → Release → ℕ → Action Content (Unit {0})
  annotate name release at =
      on_content (λ content. (ok tt, services.annotate name release at content))

  -- The body of the `try` of `execute`.
  unfoldable pub publish : Release → Actor → Option String → Action Content Release
  unfolding annotate
  publish executing_one actor channel =
      on_content (services.publish_release executing_one.entries actor (filled_channel channel))
      >>- λ done. now services >>- λ at.
          save services (published_release executing_one at actor) >>- λ published_one.
          annotate release_published published_one at >>- λ annotated. pure published_one

  -- Its `catch`.
  unfoldable pub record_failure : Release → GridStoryError → Action Content Release
  record_failure executing_one failure = now services >>- λ at.
      save services (failed_release executing_one at failure) >>- λ saved. lift (err failure)

  unfoldable pub execute : String → Actor → Option String → Action Content Release
  execute id actor channel = validate id actor (filled_channel channel) >>- λ validated_one.
      lift (
        throw_if (not (is_valid validated_one)) (
          grid_story_error "Release validation failed before publication."
            "release_validation_failed" 409))
      >>- λ valid. now services >>- λ at.
          save services (start_release validated_one at) >>- λ executing_one.
          attempt (publish executing_one actor channel) (record_failure executing_one)

  -- The check of the deadline, for the mode of the policy.
  unfoldable pub check_mode : RollbackMode → ReleaseRollbackPolicy → ℕ → Action Content (Unit {0})
  check_mode time_window policy executed_at = now services >>- λ at.
      lift (throw_if (ltb (deadline_of policy executed_at) at) window_expired_error)
  check_mode manual policy executed_at = pure tt
  check_mode disabled policy executed_at = pure tt

  unfoldable pub rollback : String → String → Actor → Action Content Release
  unfolding annotate
  rollback id reason actor = get services id >>- λ release.
      lift (
        or_throw (publication release)
          (conflict_error "Only a published release can be rolled back."))
      >>- λ executed_at.
          lift (
            throw_if (is_disabled release.rollback_policy.mode) (
              grid_story_error "Rollback is disabled by this release policy."
                "release_rollback_disabled" 409))
          >>- λ enabled.
              lift (
                throw_if (is_empty (trim reason))
                  (grid_story_error "A rollback reason is required." "invalid_request" 400))
              >>- λ given.
                  lift (
                    throw_if (ltb 2000 (utf16_length (trim reason))) (
                      grid_story_error "Rollback reason must be 2000 characters or fewer."
                        "invalid_request" 400))
                  >>- λ short.
                      check_mode release.rollback_policy.mode release.rollback_policy executed_at
                      >>- λ open_window.
                          on_content (services.rollback_release release.entries actor) >>- λ undone.
                          now services >>- λ at.
                          save services (rolled_back_release release (trim reason) actor at)
                          >>- λ rolled_one.
                              annotate release_rolled_back rolled_one at >>- λ annotated.
                              pure rolled_one

  -- One round of the loop of `processDue`.
  unfoldable pub process_release : ℕ → Release → Tally → Action Content Tally
  process_release at release tally =
      if is_due at release
      then attempt
          (execute release.id (requester release) none >>- λ done.
            pure (record tally { executed = suc tally.executed }))
          (λ failure. pure (record tally { failed = suc tally.failed }))
      else pure tally

  unfoldable pub process_releases : ℕ → List Release → Tally → Action Content Tally
  process_releases at [] tally = pure tally
  process_releases at (release ∷ releases) tally =
      process_release at release tally >>- λ more. process_releases at releases more

  unfoldable pub process_due : Action Content Tally
  process_due = now services >>- λ at. list >>- λ releases. process_releases at releases no_tally
