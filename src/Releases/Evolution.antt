-- ===== src/Releases/Evolution.antt =====
-- The state machine of releases, and how the stored releases may change.
use grid_story.Prelude.{
  String, Option, false, none, some, ◌≢◌, ◌==◌, string_eq, ◌≡◌, ◌⊎◌, inl, inr, refl, sym, ap, ◌∙◌,
  Bool-cases, lookup, insert, lookup-insert, ==_refl, ==-eq,
}
use grid_story.Releases.{
  ReleaseState, draft, validated, scheduled, executing, published, rolled_back, failed, Release,
}
use grid_story.Releases.Store.{Releases}

abbrev pub IsOpen : ReleaseState → Type 0
IsOpen state = (state ≡ draft) ⊎ (state ≡ validated) ⊎ (state ≡ scheduled)

abbrev pub IsReady : ReleaseState → Type 0
IsReady state = (state ≡ validated) ⊎ (state ≡ scheduled)

-- The states from which a release may be validated again.
abbrev pub IsCheckable : ReleaseState → Type 0
IsCheckable state = (state ≡ draft) ⊎ (state ≡ validated) ⊎ (state ≡ scheduled) ⊎ (state ≡ failed)

-- The transitions of the state machine.
pub data Move : ReleaseState → ReleaseState → Type 0 where
  revalidate : {before after : ReleaseState} → IsCheckable before → IsOpen after → Move before after
  place : {before : ReleaseState} → IsReady before → Move before scheduled
  cancel : Move scheduled validated
  start : {before : ReleaseState} → IsReady before → Move before executing
  succeed : Move executing published
  fail : Move executing failed
  undo : Move published rolled_back

-- The release with the id was not executing, if there was one.
abbrev pub Idle : Releases → String → Type 0
Idle releases id =
    (release : Release) → lookup id releases ≡ some release → release.state ≢ executing

-- A release takes the place of the one with its id, one transition further and with the same
-- pinned entries, unless it was executing at first; or a draft is added under an id that is free.
pub data Evolves : Releases → Releases → Type 0 where
  unchanged : {releases : Releases} → Evolves releases releases
  changed :
      {first last : Releases} (before after : Release)
      → Evolves first last
      → lookup before.id last ≡ some before
      → after.id ≡ before.id
      → after.entries ≡ before.entries
      → Move before.state after.state
      → Idle first before.id
      → Evolves first (insert after.id after last)
  added :
      {first last : Releases} (release : Release)
      → Evolves first last
      → lookup release.id last ≡ none
      → release.state ≡ draft
      → Evolves first (insert release.id release last)

-- A release is stored under its id.
abbrev pub Keyed : Releases → Type 0
Keyed releases =
    (key : String) (release : Release) → lookup key releases ≡ some release → release.id ≡ key

pub Keyed-insert :
    (release : Release) (releases : Releases)
    → Keyed releases
    → Keyed (insert release.id release releases)
Keyed-insert release releases keyed key found h = elim (Bool-cases (release.id == key)) [
  | inl e ↦
      let now_there : some release ≡ some found =
        sym (lookup-insert release.id key release releases ∙ rw e refl) ∙ h in
      let same : release ≡ found = cc now_there in ap (λ (r : Release). r.id) (sym same) ∙ ==-eq e
  | inr e ↦ keyed key found (sym (lookup-insert release.id key release releases ∙ rw e refl) ∙ h)
]

pub lookup-insert_same :
    (release : Release) (releases : Releases)
    → lookup release.id (insert release.id release releases) ≡ some release
lookup-insert_same release releases =
    lookup-insert release.id release.id release releases ∙ rw (==_refl release.id) refl

abbrev pub Stored : Release → Releases → Type 0
Stored release releases = lookup release.id releases ≡ some release

abbrev pub InState : ReleaseState → Release → Releases → Type 0
InState state release releases = (release.state ≡ state) × Stored release releases

-- What is stored under another id stays.
pub lookup_other :
    (release : Release) (releases : Releases) (id : String) {found : Option Release}
    → (release.id == id) ≡ false
    → lookup id releases ≡ found
    → lookup id (insert release.id release releases) ≡ found
lookup_other release releases id e h = lookup-insert release.id id release releases ∙ rw e h

pub running_kept :
    {first last : Releases} (id : String) (release : Release)
    → lookup id first ≡ some release
    → release.state ≡ executing
    → Evolves first last
    → lookup id last ≡ some release
running_kept id release h running unchanged = h
running_kept {first} id release h running
      (changed {last} before after evolves found same_id same_entries move idle) =
    elim (Bool-cases (after.id == id)) [
      | inl e ↦
          let here : before.id ≡ id = sym same_id ∙ ==-eq e in
          absurd (idle release (ap (λ key. lookup key first) here ∙ h) running)
      | inr e ↦ lookup_other after last id e (running_kept id release h running evolves)
    ]
running_kept id release h running (added {last} fresh evolves free new) =
    let there = running_kept id release h running evolves in
    elim (Bool-cases (fresh.id == id)) [
      | inl e ↦ cc (sym free ∙ ap (λ key. lookup key last) (==-eq e) ∙ there)
      | inr e ↦ lookup_other fresh last id e there
    ]

pub Idle-Stored :
    {first last : Releases} (before : Release)
    → before.state ≢ executing
    → Evolves first last
    → Stored before last
    → Idle first before.id
Idle-Stored before waiting evolves stored release found running =
    let same : release ≡ before =
      cc (sym (running_kept before.id release found running evolves) ∙ stored) in
    waiting (ap (λ (r : Release). r.state) (sym same) ∙ running)
