-- ===== src/Releases/Scheduling.antt =====
-- What a scheduled release waits for.
use grid_story.Prelude.{
  >>--eq-ok, lift, ℕ, ◌<◌, String, not, Option, none, some, leb, ◌≡◌, refl, ap, subst, arith,
  Bool-cases, inl, inr, ok, throw_if,
}
use grid_story.Releases.{Release, ReleaseSchedule, pending}
use grid_story.Releases.Store.{Actor, Services, World, now}
use grid_story.Releases.Changes.{is_valid, scheduled_release, require_future}
use grid_story.Releases.Service.{validate, schedule, future_instant}
use grid_story.Releases.Creation.{saved_is}

require_future-ok :
    (parsed : Option ℕ) (at : ℕ) {instant : ℕ}
    → require_future parsed at ≡ ok instant
    → (parsed ≡ some instant) × (at < instant)
require_future-ok none at h = cc
require_future-ok (some run_at) at {instant} h = elim (Bool-cases (leb run_at at)) [
  | inl e ↦ absurd (ground (arith, h, e))
  | inr e ↦
      let same : run_at ≡ instant = ground (arith, h, e) in
      (ap some same, subst (λ n. at < n) same (ground (arith, e)))
]

-- The schedule waits for the requested instant, for the actor, and is still pending.
pub Awaits : (String → Option ℕ) → String → Actor → ℕ → Option ReleaseSchedule → Type 0
Awaits parse run_at actor at none = ⊥
Awaits parse run_at actor at (some waiting) =
    (waiting.state ≡ pending)
    × (parse run_at ≡ some waiting.run_at)
    × (at < waiting.run_at)
    × (waiting.requested_by ≡ actor.id)

module _ {Content : Type 0} (services : Services Content) where
  -- A scheduling that returns gives a release whose schedule is pending, is requested by the actor,
  -- and runs at the requested instant, which is later than the time that is read right after the
  -- validation.
  pub schedule-Awaits :
      (id run_at time_zone : String) (actor : Actor) (world : World Content) (release : Release)
      → (schedule services id run_at time_zone actor world).0 ≡ ok release
      → Awaits services.parse_instant run_at actor
          (services.time (validate services id actor none world).1.readings)
          release.schedule
  unfolding schedule future_instant Awaits
  schedule-Awaits id run_at time_zone actor world release h =
      let after = (validate services id actor none world).1 in
      let at = services.time after.readings in
      let begun : World Content = (now services after).1 in
      let (checked, validated, h1) = >>--eq-ok (validate services id actor none) _ world h in
      let (u, valid, h2) = >>--eq-ok (lift (throw_if (not (is_valid checked)) _)) _ after h1 in
      let (instant, future, h3) =
        >>--eq-ok (lift (require_future (services.parse_instant run_at) at)) _ begun h2 in
      let (v, known, h4) =
        >>--eq-ok (lift (throw_if (not (services.is_time_zone time_zone)) _)) _ begun h3 in
      let (parsed, later) = require_future-ok (services.parse_instant run_at) at future in
      let planned =
        scheduled_release checked instant time_zone actor (services.time begun.readings) in
      let stored : planned ≡ release = saved_is services planned (now services begun).1 h4 in
      subst (λ (r : Release). Awaits services.parse_instant run_at actor at r.schedule) stored
        (refl, parsed, later, refl)
