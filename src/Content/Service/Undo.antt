-- ===== src/Content/Service/Undo.antt =====
-- packages/core/src/content-service.ts: `rollbackRelease`, called after `publishRelease`.
use grid_story.Prelude.{
  true, false, not, Option, String, List, [], ◌∷◌, is_some, any, all, map, Result, ok, err,
  >>=-eq-ok, ◌>>◌, >->_runs, throw_if, ◌≡◌, refl, sym, ap, ◌∙◌, subst, arith, Bool-cases, inl, inr,
  ◌⊎◌, ◌>->◌, continue, Returns, >->-Returns,
}
use grid_story.Errors.{grid_story_error}
use grid_story.Context.{ContentScope}
use grid_story.Tenancy.{assert_valid_content_scope}
use grid_story.Releases.{ReleaseMember}
use grid_story.Releases.Store.{Actor}
use grid_story.Content.{Failure, known, Tables, Store, ContentEntry}
use grid_story.Content.Statements.{Engine, Operation}
use grid_story.Content.Statements.Progress.{IsFresh}
use grid_story.Content.Repository.{publish_many}
use grid_story.Content.Integrity.{WellFormed}
use grid_story.Content.Commands.{shelf, apply_all, release_of}
use grid_story.Content.Restoration.{restored, has_previous}
use grid_story.Content.Refinement.{publish_many_effect}
use grid_story.Content.Progress.Joint.{publish_many_runs}
use grid_story.Content.Progress.Undo.{publish_many_leaves, backward-IsReady}
use grid_story.Content.Service.{Options, Site, on_store, reading}
use grid_story.Content.Service.Joint.{
  forward, backward, publish_release, release_checks, rollback_checks, rollback_release, writable,
}
use grid_story.Content.Service.Effects.{reading-Returns, on_store-Returns, tell_published-Returns}

module _ {Flow : Type 0} (options : Options Flow) (scope : ContentScope) (engine : Engine) where
  -- The call of the repository in a publication.
  published_by :
      (members : List ReleaseMember) (actor : Actor) (channel : Option String) {s t : Site Flow}
      {entries : List ContentEntry}
      → Returns (publish_release options scope engine members actor channel) s entries t
      → (found : List ContentEntry) × Returns
          (publish_many engine scope (map forward members) actor)
          s.store
          found
          t.store
        × (writable options scope members ≡ ok tt)
  unfolding publish_release release_checks
  published_by members actor channel {s} {t} h =
      let (checked, s1, h1, k1) = >->-Returns h in
      let (found, s2, h2, k2) = >->-Returns k1 in
      let (told, s3, h3, k3) = >->-Returns k2 in
      let (passed, e1) = reading-Returns options _ h1 in
      let (u, writes, rest) = >>=-eq-ok (writable options scope members) _ passed in
      let last : s2.store ≡ t.store =
        tell_published-Returns options scope found actor h3
        ∙ ap (λ (x : Site Flow). x.store) (reading-Returns options _ k3).1 in
      (
        found,
        subst (λ x. Returns (publish_many engine scope (map forward members) actor) x found t.store)
            (ap (λ (x : Site Flow). x.store) (sym e1))
            (subst
              (λ x.
                Returns (publish_many engine scope (map forward members) actor) s1.store found x)
              last (on_store-Returns options _ h2)),
        writes,
      )

  reading_runs :
      {A : Type 0} (read : Tables → Flow → Result Failure A) (s : Site Flow) {a : A}
      → read s.store.tables s.flow ≡ ok a
      → Returns (reading options read) s a s
  unfolding reading
  reading_runs read s h = record { run = ap (λ o. (o, s)) h }

  on_store_runs :
      {A : Type 0} (work : Operation A) (s : Site Flow) {a : A} {left : Store}
      → Returns work s.store a left
      → Returns (on_store options work) s a (record { store = left; flow = s.flow })
  unfolding on_store
  on_store_runs {A} work s h = record {
    run = ap (λ (p : Result Failure A × Store). (p.0, record { store = p.1; flow = s.flow })) h.run;
  }

  -- What `rollbackRelease` throws for a release with a first publication.
  abbrev pub unavailable : Failure
  unavailable = known (
      grid_story_error "A release containing a first publication cannot be rolled back atomically."
        "release_rollback_unavailable" 409)

  lacking :
      (members : List ReleaseMember)
      → any (λ (m : ReleaseMember). not (is_some m.previous_published_revision_id)) members
        ≡ not (all has_previous members)
  lacking [] = refl
  lacking (m ∷ members) = let rest = lacking members in ground (arith, rest)

  rollback_checks_are :
      (members : List ReleaseMember) (s : Site Flow)
      → writable options scope members ≡ ok tt
      → rollback_checks options scope members s.store.tables s.flow
        ≡ throw_if (not (all has_previous members)) unavailable
  unfolding rollback_checks
  rollback_checks_are members s writes =
      let lacks =
        any (λ (m : ReleaseMember). not (is_some m.previous_published_revision_id)) members in
      ap (λ o. o >> throw_if lacks unavailable) writes
      ∙ ap (λ b. throw_if b unavailable) (lacking members)

  rollback_refused :
      (members : List ReleaseMember) (actor : Actor) (s : Site Flow)
      → rollback_checks options scope members s.store.tables s.flow ≡ err unavailable
      → (rollback_release options scope engine members actor s).0 ≡ err unavailable
  unfolding rollback_release reading ◌>->◌
  rollback_refused members actor s h =
      ap
        (λ o.
          (continue
            (λ (u : Unit {0}).
              on_store options (publish_many engine scope (map backward members) actor))
            o s).0)
        h

  rollback_restores :
      (members : List ReleaseMember) (actor other : Actor) (channel : Option String)
      {s t : Site Flow} {entries : List ContentEntry}
      → WellFormed s.store.tables
      → assert_valid_content_scope scope ≡ ok scope
      → IsFresh engine s.store
      → Returns (publish_release options scope engine members actor channel) s entries t
      → all has_previous members ≡ true
      → (again : List ContentEntry) × (left : Site Flow) × Returns
          (rollback_release options scope engine members other)
          t
          again
          left
        × (shelf left.store.tables ≡ shelf s.store.tables)
  unfolding rollback_release
  rollback_restores members actor other channel {s} {t} sound valid fresh h previous =
      let (found, ran, writes) = published_by members actor channel h in
      let (sound_after, fresh_after, kept) =
        publish_many_leaves engine scope (map forward members) actor ran sound valid fresh in
      let ready = backward-IsReady engine scope members actor other ran sound previous in
      let (again, left, ran_back, still) =
        publish_many_runs engine scope other (map backward members) t.store sound_after valid
          fresh_after ready in
      let passed : rollback_checks options scope members t.store.tables t.flow ≡ ok tt =
        rollback_checks_are members t writes ∙ ap (λ b. throw_if (not b) unavailable) previous in
      let (expected, moved) = publish_many_effect engine scope (map forward members) actor ran in
      let (expected_back, back) =
        publish_many_effect engine scope (map backward members) other ran_back in
      (
        again,
        _,
        >->_runs _ (reading_runs (rollback_checks options scope members) t passed)
            (on_store_runs _ t ran_back),
        back
            ∙ ap (apply_all scope (map release_of (map backward members))) moved
            ∙ restored scope (shelf s.store.tables) members expected previous,
      )

  -- A release that the content service has published, on well formed tables, in a proper scope and
  -- with ids that are not drawn twice and that no event has
  -- yet, is rolled back by any actor as the next thing. Then either some entry was
  -- published for the first time, and the rollback throws that it is unavailable; or it returns, and
  -- the drafts and the publications of all entries of all scopes are again what they were before.
  pub rollback_release-publish_release :
      (members : List ReleaseMember) (actor other : Actor) (channel : Option String)
      (site : Site Flow) (entries : List ContentEntry)
      → WellFormed site.store.tables
      → assert_valid_content_scope scope ≡ ok scope
      → IsFresh engine site.store
      → (publish_release options scope engine members actor channel site).0 ≡ ok entries
      → let call = publish_release options scope engine members actor channel site in
        let undo = rollback_release options scope engine members other call.1 in
        ((all has_previous members ≡ false) × (undo.0 ≡ err unavailable))
        ⊎ ((again : List ContentEntry) × (undo.0 ≡ ok again)
            × (shelf undo.1.store.tables ≡ shelf site.store.tables))
  rollback_release-publish_release members actor other channel site entries sound valid fresh h =
      let after : Site Flow = (publish_release options scope engine members actor channel site).1 in
      let ran : Returns (publish_release options scope engine members actor channel) site entries
          after =
        record { run = ap (λ o. (o, after)) h } in
      let (found, published, writes) = published_by members actor channel ran in
      elim (Bool-cases (all has_previous members)) [
        | inl t ↦
            let (again, left, back, same) =
              rollback_restores members actor other channel sound valid fresh ran t in
            inr (
              again,
              ap (λ (p : Result Failure (List ContentEntry) × Site Flow). p.0) back.run,
              ap (λ (p : Result Failure (List ContentEntry) × Site Flow). shelf p.1.store.tables)
                    back.run
                  ∙ same,
            )
        | inr f ↦ inl (
          f,
          rollback_refused members other after
              (rollback_checks_are members after writes ∙ ap (λ b. throw_if (not b) unavailable) f),
        )
      ]
