-- ===== src/Releases/Runs.antt =====
-- Publishing, rolling back and processing due releases moves releases along the transitions.
use grid_story.Prelude.{
  ◌>>-◌, pure, ℕ, suc, String, Option, none, List, [], ◌∷◌, string_eq, ◌≡◌, ◌≢◌, ap, inl, inr, refl,
  sym, subst, Bool-cases, if◌then◌else◌, ok, err, throw_if, or_throw, ltb,
}
use grid_story.Errors.{GridStoryError}
use grid_story.Context.Text.{trim, is_empty, utf16_length}
use grid_story.Releases.{
  ReleaseRollbackPolicy, RollbackMode, manual, time_window, disabled, executing, published,
  rolled_back, failed, Release,
}
use grid_story.Releases.Store.{
  Actor, release_published, release_rolled_back, Services, Releases, on_content, now, save,
}
use grid_story.Releases.Changes.{
  is_disabled, filled_channel, start_release, published_release, failed_release,
  rolled_back_release, deadline_of, publication, is_due, requester, Tally, no_tally,
  window_expired_error,
}
use grid_story.Releases.Service.{
  publish, record_failure, execute, check_mode, rollback, process_release, process_releases,
  process_due,
}
use grid_story.Releases.Evolution.{IsReady, Idle, Move, start, succeed, fail, Stored, InState}
use grid_story.Releases.Rules.{
  Any, Holds, ◌then◌, attempt-Holds, on_content-Holds, quiet-Holds, list-Holds, pure_any,
  lift-Holds, pure-Holds, now-Holds, get-Holds, save-Holds, lift_then, given, weaken_post,
  save_last,
}
use grid_story.Releases.Laws.{
  forget, ready_waits, published_waits, undo-Move, thrown_or, validate-Holds, Checked-then,
}

module _ {Content : Type 0} (services : Services Content) (first : Releases) where
  publish-Holds :
      (executing_one : Release) (actor : Actor) (channel : Option String)
      → executing_one.state ≡ executing
      → Idle first executing_one.id
      → Holds first
          (Stored executing_one)
          (publish services executing_one actor channel)
          (InState published)
          (Stored executing_one)
  unfolding publish
  publish-Holds executing_one actor channel running idle =
      on_content-Holds
        (services.publish_release executing_one.entries actor (filled_channel channel))
        (λ releases p. p)
      then λ u. now-Holds services then λ at.
          save_last (λ r. r.state ≡ published) services executing_one
            (published_release executing_one at actor) (inr idle) refl refl
            (subst (λ state. Move state published) (sym running) succeed) (λ releases p. p) refl
          then λ published_one.
              quiet-Holds (services.annotate release_published published_one at) then λ v.
              pure-Holds published_one

  record_failure-Holds :
      (executing_one : Release) (failure : GridStoryError)
      → executing_one.state ≡ executing
      → Idle first executing_one.id
      → Holds first
          (Stored executing_one)
          (record_failure services executing_one failure)
          (InState published)
          Any
  unfolding record_failure
  record_failure-Holds executing_one failure running idle = now-Holds services then λ at.
      save-Holds services executing_one (failed_release executing_one at failure) (inr idle) refl
        refl (subst (λ state. Move state failed) (sym running) fail) (forget _)
      then λ saved. weaken_post (λ a releases q. cc q.0) (lift-Holds (err failure) (forget _))

  -- The release that an execution starts was not executing before the operation.
  begin-Holds :
      (release : Release) (at : ℕ)
      → IsReady release.state
      → Holds first
          (Stored release)
          (save services (start_release release at))
          (λ saved releases.
            ((saved.state ≡ executing) × Idle first saved.id) × Stored saved releases)
          Any
  begin-Holds release at ready =
      weaken_post (λ saved releases q. ((ap (λ (r : Release). r.state) q.0, q.1.0), q.1.1))
        (save-Holds services release (start_release release at) (inl (ready_waits ready)) refl refl
          (start ready) (forget _))

  pub execute-Holds :
      (id : String) (actor : Actor) (channel : Option String)
      → Holds first Any (execute services id actor channel) (InState published) Any
  unfolding execute
  execute-Holds id actor channel =
      Checked-then services first _
        (validate-Holds services first id actor (filled_channel channel))
        (λ release ready. now-Holds services then λ at.
          begin-Holds release at ready then λ executing_one. given (λ begun.
            attempt-Holds (publish-Holds executing_one actor channel begun.0 begun.1)
              (λ failure. record_failure-Holds executing_one failure begun.0 begun.1)))

  check_mode-Holds :
      (pre : Releases → Type 0) (mode : RollbackMode) (policy : ReleaseRollbackPolicy)
      (executed_at : ℕ)
      → Holds first pre (check_mode services mode policy executed_at) (λ u. pre) Any
  unfolding check_mode
  check_mode-Holds pre manual policy executed_at = pure-Holds tt
  check_mode-Holds pre disabled policy executed_at = pure-Holds tt
  check_mode-Holds pre time_window policy executed_at = now-Holds services then λ at.
      weaken_post (λ a releases q. q.1)
        (lift-Holds (throw_if (ltb (deadline_of policy executed_at) at) window_expired_error)
          (forget pre))

  undo-Holds :
      (release : Release) (reason : String) (actor : Actor)
      → Move release.state rolled_back
      → release.state ≢ executing
      → Holds first
          (Stored release)
          (on_content (services.rollback_release release.entries actor) >>- λ undone.
            now services >>- λ at.
            save services (rolled_back_release release reason actor at) >>- λ rolled_one.
            on_content
              (λ content. (ok tt, services.annotate release_rolled_back rolled_one at content))
            >>- λ annotated. pure rolled_one)
          (InState rolled_back)
          Any
  undo-Holds release reason actor move waits =
      on_content-Holds (services.rollback_release release.entries actor) (forget _) then λ undone.
      now-Holds services then λ at.
      save_last (λ r. r.state ≡ rolled_back) services release
        (rolled_back_release release reason actor at) (inl waits) refl refl move (forget _) refl
      then λ rolled_one.
          quiet-Holds (services.annotate release_rolled_back rolled_one at) then λ annotated.
          pure-Holds rolled_one

  pub rollback-Holds :
      (id reason : String) (actor : Actor)
      → Holds first Any (rollback services id reason actor) (InState rolled_back) Any
  unfolding rollback
  rollback-Holds id reason actor = get-Holds services id then λ release.
      lift_then (or_throw (publication release) _) (forget _) (λ executed_at was_published.
        lift_then (throw_if (is_disabled release.rollback_policy.mode) _) (forget _) (λ u enabled.
          lift_then (throw_if (is_empty (trim reason)) _) (forget _) (λ v filled.
            lift_then (throw_if (ltb 2000 (utf16_length (trim reason))) _) (forget _) (λ w short.
              check_mode-Holds (Stored release) release.rollback_policy.mode release.rollback_policy
                executed_at
              then λ open_window.
                  undo-Holds release (trim reason) actor
                    (undo-Move release.state release.executed_at
                      (thrown_or _ (publication release) was_published))
                    (published_waits release.state release.executed_at
                      (thrown_or _ (publication release) was_published))))))

  process_release-Holds :
      (at : ℕ) (release : Release) (tally : Tally)
      → Holds first Any (process_release services at release tally) (λ more. Any) Any
  unfolding process_release
  process_release-Holds at release tally = elim (Bool-cases (is_due at release)) [
    | inl due ↦ rw due (
        attempt-Holds
          ((execute-Holds release.id (requester release) none) then λ done.
            weaken_post (λ a releases q. tt)
              ((pure_any (record tally { executed = suc tally.executed }))))
          (λ failure. pure-Holds (record tally { failed = suc tally.failed })))
    | inr waiting ↦ rw waiting (pure-Holds tally)
  ]

  process_releases-Holds :
      (at : ℕ) (due : List Release) (tally : Tally)
      → Holds first Any (process_releases services at due tally) (λ more. Any) Any
  unfolding process_releases
  process_releases-Holds at [] tally = pure-Holds tally
  process_releases-Holds at (release ∷ due) tally =
      process_release-Holds at release tally then λ more. process_releases-Holds at due more

  pub process_due-Holds : Holds first Any (process_due services) (λ tally. Any) Any
  unfolding process_due
  process_due-Holds = now-Holds services then λ at.
      list-Holds then λ releases. process_releases-Holds at releases no_tally
