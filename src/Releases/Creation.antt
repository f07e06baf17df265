-- ===== src/Releases/Creation.antt =====
-- What a created release pins.
use grid_story.Prelude.{
  >>--eq-ok, ◌>>-◌, continue, lift, String, Bool, true, false, not, List, [], ◌∷◌, ◌==◌, string_eq,
  ◌≡◌, refl, sym, ap, ◌∙◌, subst, arith, Bool-cases, inl, inr, eq_iff, ok, err, throw_if,
  if◌then◌else◌,
}
use grid_story.Context.Text.{trim}
use grid_story.Errors.{GridStoryError, Outcome}
use grid_story.Releases.{
  draft, ReleaseMemberInput, ReleaseMember, ReleaseInput, Release, input_is_valid, release_is_valid,
}
use grid_story.Releases.Store.{
  Actor, Draft, Services, World, Action, read_content, on_content, now, save,
}
use grid_story.Releases.Changes.{created_release}
use grid_story.Releases.Service.{fresh_id, pin_entry, pin_entries, parse_input, create}
use grid_story.Releases.Rules.{save_valid, save_refused}

module _ {Content : Type 0} where
  -- An action that only reads.
  pub record Quiet {A : Type 0} (action : Action Content A) : Type 0 where
    pub still : (world : World Content) → (action world).1 ≡ world

  pub >>--Quiet :
      {A B : Type 0} {first : Action Content A} {next : A → Action Content B}
      → Quiet first
      → ((a : A) → Quiet (next a))
      → Quiet (first >>- next)
  >>--Quiet {A} {B} {first} {next} h k = record {
    still = λ world. go (first world).0 (first world).1 ∙ h.still world;
  }
    where
      go : (outcome : Outcome A) (after : World Content) → (continue next outcome after).1 ≡ after
      go (ok a) after = (k a).still after
      go (err e) after = refl

  read_content-Quiet : {A : Type 0} (call : Content → Outcome A) → Quiet (read_content call)
  read_content-Quiet call = record { still = λ world. refl }

  pub lift-Quiet : {A : Type 0} (outcome : Outcome A) → Quiet (lift outcome)
  lift-Quiet outcome = record { still = λ world. refl }

  pub saved_is :
      (services : Services Content) (release : Release) (world : World Content) {saved : Release}
      → (save services release world).0 ≡ ok saved
      → release ≡ saved
  saved_is services release world {saved} h = elim (Bool-cases (release_is_valid release)) [
    | inl e ↦
        let kept : (save services release world).0 ≡ ok release =
          ap (λ (q : Outcome Release × World Content). q.0) (save_valid services release world e) in
        cc (sym kept ∙ h)
    | inr e ↦
        let thrown : (save services release world).0 ≡ err (services.release_mismatch release) =
          ap (λ (q : Outcome Release × World Content). q.0)
            (save_refused services release world e) in
        cc (sym thrown ∙ h)
  ]

module _ {Content : Type 0} (services : Services Content) where
  -- The member is pinned at the revision that is the current draft of its entry.
  pub PinnedEntry : Content → ReleaseMemberInput → ReleaseMember → Type 0
  PinnedEntry content m e =
      (entry : Draft) × (services.get m.entry_id content ≡ ok entry)
      × (entry.draft_revision_id ≡ m.revision_id)
      × (e.entry_id ≡ m.entry_id)
      × (e.revision_id ≡ m.revision_id)
      × (e.content_type ≡ entry.content_type)
      × (e.previous_published_revision_id ≡ entry.published_revision_id)

  pub Pinned : Content → List ReleaseMemberInput → List ReleaseMember → Type 0
  Pinned content [] [] = Unit
  Pinned content (m ∷ ms) (e ∷ es) = PinnedEntry content m e × Pinned content ms es
  Pinned content [] (e ∷ es) = ⊥
  Pinned content (m ∷ ms) [] = ⊥

  pub pin_entry-Quiet : (m : ReleaseMemberInput) → Quiet (pin_entry services m)
  unfolding pin_entry
  pin_entry-Quiet m = >>--Quiet (read_content-Quiet (services.get m.entry_id)) (λ entry.
      >>--Quiet (lift-Quiet _) (λ u.
        >>--Quiet (read_content-Quiet (services.get_revision m.entry_id m.revision_id))
          (λ v. record { still = λ world. refl })))

  matched :
      (a b : String) (e : GridStoryError) {u : Unit {0}} → throw_if (not (a == b)) e ≡ ok u → a ≡ b
  matched a b e h = (eq_iff a b).0 (ground (arith, h))

  pin_entry-PinnedEntry :
      (m : ReleaseMemberInput) (world : World Content) {e : ReleaseMember}
      → (pin_entry services m world).0 ≡ ok e
      → PinnedEntry world.content m e
  unfolding pin_entry PinnedEntry
  pin_entry-PinnedEntry m world {e} h =
      let (entry, found, h3) = >>--eq-ok (read_content (services.get m.entry_id)) _ world h in
      let (u, current, h4) =
        >>--eq-ok (lift (throw_if (not (entry.draft_revision_id == m.revision_id)) _)) _ world h3 in
      let (v, revision, h5) =
        >>--eq-ok (read_content (services.get_revision m.entry_id m.revision_id)) _ world h4 in
      let made : record {
        entry_id = m.entry_id;
        revision_id = m.revision_id;
        content_type = entry.content_type;
        previous_published_revision_id = entry.published_revision_id;
      }
          ≡ e =
        cc h5 in
      (
        entry,
        found,
        matched entry.draft_revision_id m.revision_id _ current,
        ap (λ (r : ReleaseMember). r.entry_id) (sym made),
        ap (λ (r : ReleaseMember). r.revision_id) (sym made),
        ap (λ (r : ReleaseMember). r.content_type) (sym made),
        ap (λ (r : ReleaseMember). r.previous_published_revision_id) (sym made),
      )

  pin_entries-Pinned :
      (members : List ReleaseMemberInput) (world : World Content) {entries : List ReleaseMember}
      → (pin_entries services members world).0 ≡ ok entries
      → Pinned world.content members entries
  unfolding pin_entries Pinned
  pin_entries-Pinned [] world {entries} h =
      let none_left : [] ≡ entries = cc h in subst (Pinned world.content []) none_left tt
  pin_entries-Pinned (m ∷ ms) world {entries} h =
      let (e, first, h1) = >>--eq-ok (pin_entry services m) _ world h in
      let (es, rest, h2) =
        >>--eq-ok (pin_entries services ms) _ (pin_entry services m world).1 h1 in
      let others =
        subst (λ (w : World Content). Pinned w.content ms es) ((pin_entry-Quiet m).still world)
          (pin_entries-Pinned ms (pin_entry services m world).1 rest) in
      let listed : e ∷ es ≡ entries = cc h2 in
      subst (Pinned world.content (m ∷ ms)) listed (pin_entry-PinnedEntry m world first, others)

  parsed_is :
      (valid : Bool) (parsed : ReleaseInput) (e : GridStoryError) {candidate : ReleaseInput}
      → (if valid then ok parsed else err e) ≡ ok candidate
      → parsed ≡ candidate
  parsed_is true parsed e h = cc
  parsed_is false parsed e h = cc

  -- A creation that returns gives a draft release of the actor with the trimmed name, whose members
  -- stand for the members of the input one by one, each pinned at the current draft of its entry.
  pub create-Pinned :
      (input : ReleaseInput) (actor : Actor) (world : World Content) (release : Release)
      → (create services input actor world).0 ≡ ok release
      → (release.state ≡ draft)
        × (release.created_by ≡ actor.id)
        × (release.name ≡ trim input.name)
        × Pinned world.content input.entries release.entries
  unfolding create parse_input
  create-Pinned input actor world release h =
      let (candidate, parsed, h1) = >>--eq-ok (parse_input services input) _ world h in
      let (entries, pinned, h2) = >>--eq-ok (pin_entries services candidate.entries) _ world h1 in
      let pinned_world = (pin_entries services candidate.entries world).1 in
      let at = services.time pinned_world.readings in
      let id = (services.create_id pinned_world.content).0 in
      let last_world : World Content =
        (on_content (fresh_id services) (now services pinned_world).1).1 in
      let stored : created_release id candidate entries actor at ≡ release =
        saved_is services (created_release id candidate entries actor at) last_world h2 in
      let trimmed : record input { name = trim input.name } ≡ candidate =
        parsed_is (input_is_valid (record input { name = trim input.name })) _ _ parsed in
      (
        ap (λ (r : Release). r.state) (sym stored),
        ap (λ (r : Release). r.created_by) (sym stored),
        ap (λ (r : Release). r.name) (sym stored) ∙ ap (λ (c : ReleaseInput). c.name) (sym trimmed),
        subst (λ (r : Release). Pinned world.content input.entries r.entries) stored
            (subst (λ (c : ReleaseInput). Pinned world.content c.entries entries) (sym trimmed)
              (pin_entries-Pinned candidate.entries world pinned)),
      )
