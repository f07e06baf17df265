-- ===== src/Releases/Additions.antt =====
-- What a creation adds to the stored releases.
use grid_story.Prelude.{
  ◌>>-◌, continue, none, List, [], ◌∷◌, string_eq, ◌≡◌, inl, inr, refl, sym, subst, Bool-cases,
  lookup, ok, err,
}
use grid_story.Errors.{Outcome}
use grid_story.Releases.{
  ReleaseMember, ReleaseMemberInput, ReleaseInput, Release, draft, release_is_valid,
}
use grid_story.Releases.Store.{Actor, Services, World, Action, now, on_content, save}
use grid_story.Releases.Changes.{created_release}
use grid_story.Releases.Service.{pin_entries, parse_input, fresh_id, create}
use grid_story.Releases.Evolution.{Evolves, unchanged, added, Keyed, Keyed-insert}
use grid_story.Releases.Rules.{save_valid, save_refused}
use grid_story.Releases.Creation.{Quiet, >>--Quiet, lift-Quiet, pin_entry-Quiet}

module _ {Content : Type 0} where
  -- What holds of the world, and what the rest of an operation leaves, holds after a reading.
  quiet_then :
      {A B : Type 0} (holds : World Content → Type 0) {first : Action Content A}
      (next : A → Action Content B) (world : World Content)
      → Quiet first
      → holds world
      → ((a : A) → holds (next a world).1)
      → holds ((first >>- next) world).1
  quiet_then {A} holds {first} next world quiet now_holds later =
      go (first world).0 (first world).1 (quiet.still world)
    where
      go :
          (outcome : Outcome A) (after : World Content)
          → after ≡ world
          → holds (continue next outcome after).1
      go (ok a) after e = subst (λ w. holds (next a w).1) (sym e) (later a)
      go (err failure) after e = subst holds (sym e) now_holds

  abbrev pub Evolved : World Content → World Content → Type 0
  Evolved before after = Keyed after.releases × Evolves before.releases after.releases

module _ {Content : Type 0} (services : Services Content) where
  pin_entries-Quiet : (members : List ReleaseMemberInput) → Quiet (pin_entries services members)
  unfolding pin_entries
  pin_entries-Quiet [] = record { still = λ world. refl }
  pin_entries-Quiet (m ∷ ms) =
      >>--Quiet (pin_entry-Quiet services m)
        (λ entry. >>--Quiet (pin_entries-Quiet ms) (λ entries. record { still = λ world. refl }))

  save-added :
      (release : Release) (world : World Content)
      → Keyed world.releases
      → lookup release.id world.releases ≡ none
      → release.state ≡ draft
      → Evolved world (save services release world).1
  save-added release world keyed free new = elim (Bool-cases (release_is_valid release)) [
    | inl valid ↦
        subst {A = Outcome Release × World Content} (λ q. Evolved world q.1)
          (sym (save_valid services release world valid))
          (Keyed-insert release world.releases keyed, added release unchanged free new)
    | inr refused ↦
        subst {A = Outcome Release × World Content} (λ q. Evolved world q.1)
          (sym (save_refused services release world refused)) (keyed, unchanged)
  ]

  -- What a creation does once its members are pinned, and once its input is checked.
  abbrev store_new : Actor → ReleaseInput → List ReleaseMember → Action Content Release
  store_new actor candidate entries = now services >>- λ at.
      on_content (fresh_id services) >>- λ id.
      save services (created_release id candidate entries actor at)

  abbrev pin_new : Actor → ReleaseInput → Action Content Release
  pin_new actor candidate =
      pin_entries services candidate.entries >>- λ entries. store_new actor candidate entries

  -- A creation under an id that is free adds at most a draft.
  pub create-Evolved :
      (input : ReleaseInput) (actor : Actor) (world : World Content)
      → Keyed world.releases
      → lookup (services.create_id world.content).0 world.releases ≡ none
      → Evolved world (create services input actor world).1
  unfolding create parse_input
  create-Evolved input actor world keyed free =
      quiet_then (Evolved world) {first = parse_input services input} (pin_new actor) world
        (lift-Quiet _) (keyed, unchanged)
        (λ candidate.
          quiet_then (Evolved world) {first = pin_entries services candidate.entries}
            (store_new actor candidate) world (pin_entries-Quiet candidate.entries)
            (keyed, unchanged)
            (λ entries.
              save-added
                (created_release (services.create_id world.content).0 candidate entries actor
                  (services.time world.readings))
                (on_content (fresh_id services) (now services world).1).1 keyed free refl))
