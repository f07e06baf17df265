-- ===== src/Releases/Publication.antt =====
-- A release is published only if the content service published its entries.
use grid_story.Prelude.{
  >>--eq-ok, recover, lift, String, not, Option, ◌≡◌, sym, ap, ◌∙◌, subst, Bool-cases, inl, inr, ok,
  err, throw_if,
}
use grid_story.Errors.{GridStoryError, Outcome}
use grid_story.Releases.{Release, release_is_valid}
use grid_story.Releases.Store.{Actor, Services, World, on_content, now, save}
use grid_story.Releases.Changes.{filled_channel, is_valid, start_release, published_release}
use grid_story.Releases.Service.{validate, execute, publish, record_failure}
use grid_story.Releases.Rules.{save_valid, save_refused}
use grid_story.Releases.Creation.{saved_is}

module _ {Content : Type 0} (services : Services Content) where
  save_content :
      (release : Release) (world : World Content)
      → (save services release world).1.content ≡ world.content
  save_content release world = elim (Bool-cases (release_is_valid release)) [
    | inl e ↦
        ap (λ (q : Outcome Release × World Content). q.1.content)
          (save_valid services release world e)
    | inr e ↦
        ap (λ (q : Outcome Release × World Content). q.1.content)
          (save_refused services release world e)
  ]

  -- The failure path of an execution never returns.
  record_failure_throws :
      (executing_one : Release) (failure : GridStoryError) (world : World Content)
      {release : Release}
      → (record_failure services executing_one failure world).0 ≡ ok release
      → ⊥
  unfolding record_failure
  record_failure_throws executing_one failure world h =
      let (saved, kept, thrown) = >>--eq-ok (save services _) _ (now services world).1 h in
      cc thrown

  recovered :
      (executing_one : Release) (outcome : Outcome Release) (after : World Content)
      {release : Release}
      → (recover (record_failure services executing_one) outcome after).0 ≡ ok release
      → outcome ≡ ok release
  recovered executing_one (ok r) after h = h
  recovered executing_one (err e) after h = absurd (record_failure_throws executing_one e after h)

  publish-ok :
      (executing_one : Release) (actor : Actor) (channel : Option String) (world : World Content)
      {release : Release}
      → (publish services executing_one actor channel world).0 ≡ ok release
      → ((services.publish_release executing_one.entries actor
            (filled_channel channel)
            world.content).0
          ≡ ok tt)
        × (release.entries ≡ executing_one.entries)
  unfolding publish
  publish-ok executing_one actor channel world {release} h =
      let (u, done, h1) =
        >>--eq-ok
          (on_content
            (services.publish_release executing_one.entries actor (filled_channel channel)))
          _ world h in
      let at = services.time world.readings in
      let after : World Content =
        (now services
          (on_content
            (services.publish_release executing_one.entries actor (filled_channel channel))
            world).1).1 in
      let (saved, kept, h2) =
        >>--eq-ok (save services (published_release executing_one at actor)) _ after h1 in
      let same : published_release executing_one at actor ≡ saved =
        saved_is services (published_release executing_one at actor) after kept in
      let last_one : saved ≡ release = cc h2 in
      (done, ap (λ (r : Release). r.entries) (sym last_one ∙ sym same))

  -- An execution that returns a release had its entries published: on the content that validation
  -- left, the content service's publication of exactly these entries succeeds, both for the channel
  -- that was given, or for none if it is empty.
  pub execute-publish_release :
      (id : String) (actor : Actor) (channel : Option String) (world : World Content)
      (release : Release)
      → (execute services id actor channel world).0 ≡ ok release
      → (services.publish_release release.entries actor
          (filled_channel channel)
          (validate services id actor (filled_channel channel) world).1.content).0
        ≡ ok tt
  unfolding execute
  execute-publish_release id actor channel world release h =
      let after = (validate services id actor (filled_channel channel) world).1 in
      let (checked, validated, h1) =
        >>--eq-ok (validate services id actor (filled_channel channel)) _ world h in
      let (u, valid, h2) = >>--eq-ok (lift (throw_if (not (is_valid checked)) _)) _ after h1 in
      let started = start_release checked (services.time after.readings) in
      let begun : World Content = (now services after).1 in
      let (executing_one, kept, h3) = >>--eq-ok (save services started) _ begun h2 in
      let saved_world : World Content = (save services started begun).1 in
      let attempted = publish services executing_one actor channel saved_world in
      let (done, same_entries) =
        publish-ok executing_one actor channel saved_world
          (recovered executing_one attempted.0 attempted.1 h3) in
      subst
        (λ content.
          (services.publish_release release.entries actor (filled_channel channel) content).0
          ≡ ok tt)
        (save_content started begun)
        (subst
          (λ entries.
            (services.publish_release entries actor (filled_channel channel) saved_world.content).0
            ≡ ok tt)
          (sym same_entries) done)
