-- ===== src/Content/Service/Releases.antt =====
-- What holds of a release that the content service publishes, and of one that it also rolls back.
use grid_story.Prelude.{
  String, false, Option, List, map, any, Result, ok, err, >>=-eq-ok, ◌≡◌, refl, ap, inl, inr, ◌⊎◌,
  Returns,
}
use grid_story.Context.{ContentScope}
use grid_story.Releases.{ReleaseMember, ReleaseValidationIssue}
use grid_story.Releases.Store.{Actor}
use grid_story.Content.{Failure, ContentEntry}
use grid_story.Content.Statements.{Engine}
use grid_story.Content.Statements.Returns.{throw_if-eq-ok}
use grid_story.Content.Commands.{shelf, AllExpected, apply_all, release_of}
use grid_story.Content.Service.{Options, Site}
use grid_story.Content.Service.Assessment.{assess_release}
use grid_story.Content.Service.Joint.{is_error, forward, release_checks, publish_release, writable}
use grid_story.Content.Service.Effects.{publish_release_effect}

-- What a call gives: it throws, or it returns and leaves a state.
pub ended :
    {S A : Type 0} (call : S → Result Failure A × S) (s : S)
    → ((e : Failure) × ((call s).0 ≡ err e))
      ⊎ ((a : A) × ((call s).0 ≡ ok a) × Returns call s a (call s).1)
ended {S} {A} call s = go (call s).0 refl
  where
    go :
        (outcome : Result Failure A)
        → (call s).0 ≡ outcome
        → ((e : Failure) × ((call s).0 ≡ err e))
          ⊎ ((a : A) × ((call s).0 ≡ ok a) × Returns call s a (call s).1)
    go (err e) h = inl (e, h)
    go (ok a) h = inr (a, h, record { run = ap (λ o. (o, (call s).1)) h })

module _ {Flow : Type 0} (options : Options Flow) (scope : ContentScope) (engine : Engine)
    (members : List ReleaseMember) (actor : Actor) where
  -- Nothing stood against the release, and every entry was as its members expected; then it is
  -- published at the pinned revisions, and no other entry and no draft has changed.
  abbrev pub Cleared : Option String → Site Flow → Site Flow → Type 0
  Cleared channel before after =
      (issues : List ReleaseValidationIssue) × (assess_release options scope members actor channel
          before.store.tables before.flow
        ≡ ok issues)
      × (any is_error issues ≡ false)
      × AllExpected (shelf before.store.tables) scope (map forward members)
      × (shelf after.store.tables
          ≡ apply_all scope (map release_of (map forward members)) (shelf before.store.tables))

  -- `publishRelease` of the content service throws, or it returns; then the assessment of the
  -- release found no error, each draft was the pinned revision and each published revision the one
  -- before, and afterwards exactly the entries of the release publish their pinned revisions: all
  -- drafts, and the publications of the other entries in all scopes, are unchanged.
  pub publish_release-Cleared :
      (channel : Option String) (site : Site Flow)
      → let call = publish_release options scope engine members actor channel site in
        ((e : Failure) × (call.0 ≡ err e))
        ⊎ ((entries : List ContentEntry) × (call.0 ≡ ok entries) × Cleared channel site call.1)
  unfolding release_checks
  publish_release-Cleared channel site =
      elim (ended (publish_release options scope engine members actor channel) site) [
        | inl thrown ↦ inl thrown
        | inr (entries, returned, ran) ↦
            let (passed, expected, moved) =
              publish_release_effect options scope engine members actor channel ran in
            let (issues, assessed, clear) = cleared channel site passed in
            inr (entries, returned, (issues, assessed, clear, expected, moved))
      ]
    where
      cleared :
          (channel : Option String) (site : Site Flow)
          → release_checks options scope members actor channel site.store.tables site.flow ≡ ok tt
          → (issues : List ReleaseValidationIssue) × (assess_release options scope members actor
                channel site.store.tables site.flow
              ≡ ok issues)
            × (any is_error issues ≡ false)
      cleared channel site h =
          let (u, writes, k) = >>=-eq-ok (writable options scope members) _ h in
          let (issues, assessed, last) =
            >>=-eq-ok
              (assess_release options scope members actor channel site.store.tables site.flow) _
              k in
          (issues, assessed, throw_if-eq-ok _ _ last)
