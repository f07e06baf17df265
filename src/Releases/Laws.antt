-- ===== src/Releases/Laws.antt =====
-- Every operation of the service moves releases along the transitions of their state machine.
use grid_story.Prelude.{
  ◌>>-◌, lift, ℕ, String, Bool, true, false, not, ◌&&◌, any, Option, none, some, List, string_eq,
  ◌≡◌, ◌≢◌, ◌∙◌, sym, ap, inl, inr, refl, arith, and_true, if◌then◌else◌, ok, throw_if, or_throw,
}
use grid_story.Errors.{GridStoryError}
use grid_story.Releases.{
  ReleaseState, draft, validated, scheduled, executing, published, rolled_back, failed, Release,
  ReleaseValidationIssue,
}
use grid_story.Releases.Store.{Actor, Services, Releases, Action}
use grid_story.Releases.Changes.{
  can_revalidate, filled_channel, is_error, is_pending, is_valid, with_warning, validated_release,
  scheduled_release, cancelled_release, require_future, is_scheduled, published_at,
}
use grid_story.Releases.Service.{validate, future_instant, schedule, cancel_schedule}
use grid_story.Releases.Evolution.{
  IsOpen, IsReady, IsCheckable, Move, revalidate, place, cancel, undo, Stored, InState,
}
use grid_story.Releases.Rules.{
  Any, Holds, ◌then◌, on_content-Holds, lift-Holds, now-Holds, get-Holds, lift_then, given,
  weaken_post, save_last,
}

not_thrown :
    (test : Bool) (e : GridStoryError) {u : Unit {0}} → throw_if test e ≡ ok u → test ≡ false
not_thrown true e h = cc
not_thrown false e h = refl

negated : (b : Bool) → not b ≡ false → b ≡ true
negated b h = ground arith

pub forget : (pre : Releases → Type 0) (releases : Releases) → pre releases → Any releases
forget pre releases p = tt

state_of : Bool → Bool → ReleaseState
state_of valid waiting =
    if valid && waiting then scheduled else (if valid then validated else draft)

state_of-IsOpen : (valid waiting : Bool) → IsOpen (state_of valid waiting)
unfolding state_of
state_of-IsOpen true true = inr (inr refl)
state_of-IsOpen true false = inr (inl refl)
state_of-IsOpen false waiting = inl refl

state_of-IsReady : (valid waiting : Bool) → valid ≡ true → IsReady (state_of valid waiting)
unfolding state_of
state_of-IsReady true true h = inr refl
state_of-IsReady true false h = inl refl
state_of-IsReady false waiting h = cc

module _ (release : Release) (issues : List ReleaseValidationIssue) (at : ℕ) where
  validated_release-IsOpen : IsOpen (validated_release release issues at).state
  unfolding state_of
  validated_release-IsOpen =
      state_of-IsOpen (not (any is_error issues))
        (is_pending (validated_release release issues at).schedule)

  validated_release-IsReady :
      is_valid (validated_release release issues at) ≡ true
      → IsReady (validated_release release issues at).state
  unfolding state_of
  validated_release-IsReady h =
      state_of-IsReady (not (any is_error issues))
        (is_pending (validated_release release issues at).schedule) h

checkable : (state : ReleaseState) → can_revalidate state ≡ true → IsCheckable state
checkable draft h = inl refl
checkable validated h = inr (inl refl)
checkable scheduled h = inr (inr (inl refl))
checkable failed h = inr (inr (inr refl))
checkable executing h = cc
checkable published h = cc
checkable rolled_back h = cc

checkable_waits : (state : ReleaseState) → can_revalidate state ≡ true → state ≢ executing
checkable_waits state h e = cc (sym h ∙ ap can_revalidate e)

pub ready_waits : {state : ReleaseState} → IsReady state → state ≢ executing
ready_waits (inl a) e = cc
ready_waits (inr a) e = cc

scheduled_waits : (state : ReleaseState) → is_scheduled state ≡ true → state ≢ executing
scheduled_waits state h e = cc (sym h ∙ ap is_scheduled e)

pub published_waits :
    (state : ReleaseState) (executed_at : Option ℕ) {at : ℕ}
    → published_at state executed_at ≡ some at
    → state ≢ executing
published_waits state executed_at h e = cc (sym h ∙ ap (λ s. published_at s executed_at) e)

cancel-Move : (state : ReleaseState) → is_scheduled state ≡ true → Move state validated
cancel-Move scheduled h = cancel
cancel-Move draft h = cc
cancel-Move validated h = cc
cancel-Move executing h = cc
cancel-Move published h = cc
cancel-Move rolled_back h = cc
cancel-Move failed h = cc

pub undo-Move :
    (state : ReleaseState) (executed_at : Option ℕ) {at : ℕ}
    → published_at state executed_at ≡ some at
    → Move state rolled_back
undo-Move published executed_at h = undo
undo-Move draft executed_at h = cc
undo-Move validated executed_at h = cc
undo-Move scheduled executed_at h = cc
undo-Move executing executed_at h = cc
undo-Move rolled_back executed_at h = cc
undo-Move failed executed_at h = cc

pub thrown_or :
    (e : GridStoryError) (found : Option ℕ) {at : ℕ} → or_throw found e ≡ ok at → found ≡ some at
thrown_or e none h = cc
thrown_or e (some at) h = cc

-- A validated release is stored, and ready if it is valid.
abbrev pub IsChecked : Release → Type 0
IsChecked release = is_valid release ≡ true → IsReady release.state

abbrev pub Checked : Release → Releases → Type 0
Checked release releases = IsChecked release × Stored release releases

module _ {Content : Type 0} (services : Services Content) (first : Releases) where
  pub validate-Holds :
      (id : String) (actor : Actor) (channel : Option String)
      → Holds first Any (validate services id actor channel) Checked Any
  unfolding validate
  validate-Holds id actor channel = get-Holds services id then λ release.
      lift_then (throw_if (not (can_revalidate release.state)) _) (forget _) (λ u allowed.
        on_content-Holds (services.assess_release release.entries actor (filled_channel channel))
          (forget _)
        then λ issues. now-Holds services then λ at.
            save_last IsChecked services release
              (validated_release release (with_warning release issues) at)
              (inl (checkable_waits release.state (negated _ (not_thrown _ _ allowed)))) refl refl
              (revalidate (checkable release.state (negated _ (not_thrown _ _ allowed)))
                (validated_release-IsOpen release (with_warning release issues) at))
              (forget _) (validated_release-IsReady release (with_warning release issues) at))

  pub Checked-then :
      {B : Type 0} {post : B → Releases → Type 0} {action : Action Content Release}
      {next : Release → Action Content B} (e : GridStoryError)
      → Holds first Any action Checked Any
      → ((release : Release)
          → IsReady release.state
          → Holds first (Stored release) (next release) post Any)
      → Holds first Any
          (action >>- λ release. lift (throw_if (not (is_valid release)) e) >>- λ u. next release)
          post
          Any
  Checked-then e h k = h then λ release. given (λ checked.
      lift_then (throw_if (not (is_valid release)) e) (forget _)
        (λ u valid. k release (checked (negated _ (not_thrown _ _ valid)))))

  lift_instant :
      {B : Type 0} {post : B → Releases → Type 0} (release : Release) (text : String)
      {next : ℕ → Action Content B}
      → ((instant : ℕ) → Holds first (Stored release) (next instant) post Any)
      → Holds first (Stored release) (future_instant services text >>- next) post Any
  unfolding future_instant
  lift_instant release text h =
      (now-Holds services then λ at.
      weaken_post (λ a releases q. q.1)
        (lift-Holds (require_future (services.parse_instant text) at) (forget _)))
      then h

  pub schedule-Holds :
      (id run_at time_zone : String) (actor : Actor)
      → Holds first Any (schedule services id run_at time_zone actor) (InState scheduled) Any
  unfolding schedule future_instant
  schedule-Holds id run_at time_zone actor =
      Checked-then _ (validate-Holds id actor none) (λ release ready.
        lift_instant release run_at (λ instant.
          lift_then (throw_if (not (services.is_time_zone time_zone)) _) (forget _) (λ u known.
            now-Holds services then λ at.
            weaken_post (λ a releases q. q)
              (save_last (λ r. r.state ≡ scheduled) services release
                (scheduled_release release instant time_zone actor at) (inl (ready_waits ready))
                refl refl (place ready) (forget _) refl))))

  pub cancel_schedule-Holds :
      (id : String) → Holds first Any (cancel_schedule services id) (InState validated) Any
  unfolding cancel_schedule
  cancel_schedule-Holds id = get-Holds services id then λ release.
      lift_then (throw_if (not (is_scheduled release.state && is_pending release.schedule)) _)
        (forget _)
        (λ u found. now-Holds services then λ at.
          weaken_post (λ a releases q. q)
            (save_last (λ r. r.state ≡ validated) services release (cancelled_release release at)
              (inl
                (scheduled_waits release.state (and_true _ _ (negated _ (not_thrown _ _ found))).0))
              refl refl
              (cancel-Move release.state (and_true _ _ (negated _ (not_thrown _ _ found))).0)
              (forget _) refl))
