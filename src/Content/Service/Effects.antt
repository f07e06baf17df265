-- ===== src/Content/Service/Effects.antt =====
-- What a publication of a release by the content service does, and its rollback.
use grid_story.Prelude.{
  String, true, false, not, Option, List, [], ◌∷◌, any, all, map, is_some, Result, ok, >>=-eq-ok,
  ◌≡◌, refl, sym, ap, ap₂, ◌∙◌, subst, arith, Returns, >->-Returns,
}
use grid_story.Context.{ContentScope}
use grid_story.Releases.{ReleaseMember}
use grid_story.Releases.Store.{Actor}
use grid_story.Content.{Failure, Tables, Store, ContentEntry}
use grid_story.Content.Statements.{Engine, Operation}
use grid_story.Content.Statements.Returns.{throw_if-eq-ok}
use grid_story.Content.Commands.{shelf, AllExpected, apply_all, release_of}
use grid_story.Content.Refinement.{publish_many_effect}
use grid_story.Content.Restoration.{has_previous}
use grid_story.Content.Service.{Options, Site, on_store, on_flow, reading}
use grid_story.Content.Service.Joint.{
  forward, backward, release_checks, tell_published, publish_release, rollback_checks,
  rollback_release, writable,
}

module _ {Flow : Type 0} (options : Options Flow) where
  pub reading-Returns :
      {A : Type 0} (read : Tables → Flow → Result Failure A) {s t : Site Flow} {a : A}
      → Returns (reading options read) s a t
      → (read s.store.tables s.flow ≡ ok a) × (s ≡ t)
  unfolding reading
  reading-Returns read h = (cc h.run, cc h.run)

  pub on_store-Returns :
      {A : Type 0} (work : Operation A) {s t : Site Flow} {a : A}
      → Returns (on_store options work) s a t
      → Returns work s.store a t.store
  unfolding on_store
  on_store-Returns {A} work {s} {t} {a} h =
      let outcome : (work s.store).0 ≡ ok a =
        ap (λ (p : Result Failure A × Site Flow). p.0) h.run in
      let left : (work s.store).1 ≡ t.store =
        ap (λ (p : Result Failure A × Site Flow). p.1.store) h.run in
      record { run = ap₂ (λ o (x : Store). (o, x)) outcome left }

  pub on_flow-Returns :
      (call : Flow → Result Failure (Unit {0}) × Flow) {s t : Site Flow} {u : Unit {0}}
      → Returns (on_flow options call) s u t
      → s.store ≡ t.store
  unfolding on_flow
  on_flow-Returns call h = ap (λ (p : Result Failure (Unit {0}) × Site Flow). p.1.store) h.run

  module _ (scope : ContentScope) where
    pub tell_published-Returns :
        (entries : List ContentEntry) (actor : Actor) {s t : Site Flow} {u : Unit {0}}
        → Returns (tell_published options scope entries actor) s u t
        → s.store ≡ t.store
    unfolding tell_published
    tell_published-Returns [] actor h = ap (λ (x : Site Flow). x.store) (reading-Returns _ h).1
    tell_published-Returns (entry ∷ entries) actor h =
        let (told, s1, h1, k1) = >->-Returns h in
        on_flow-Returns _ h1 ∙ tell_published-Returns entries actor k1

    -- A release that the service publishes.
    pub publish_release_effect :
        (engine : Engine) (members : List ReleaseMember) (actor : Actor) (channel : Option String)
        {s t : Site Flow} {entries : List ContentEntry}
        → Returns (publish_release options scope engine members actor channel) s entries t
        → (release_checks options scope members actor channel s.store.tables s.flow ≡ ok tt)
          × AllExpected (shelf s.store.tables) scope (map forward members)
          × (shelf t.store.tables
              ≡ apply_all scope (map release_of (map forward members)) (shelf s.store.tables))
    unfolding publish_release
    publish_release_effect engine members actor channel {s} {t} h =
        let (checked, s1, h1, k1) = >->-Returns h in
        let (published, s2, h2, k2) = >->-Returns k1 in
        let (told, s3, h3, k3) = >->-Returns k2 in
        let (passed, e1) = reading-Returns _ h1 in
        let (expected, moved) =
          publish_many_effect engine scope (map forward members) actor (on_store-Returns _ h2) in
        let same : shelf s.store.tables ≡ shelf s1.store.tables =
          ap (λ (x : Site Flow). shelf x.store.tables) e1 in
        let last : s2.store ≡ t.store =
          tell_published-Returns published actor h3
          ∙ ap (λ (x : Site Flow). x.store) (reading-Returns _ k3).1 in
        (
          passed,
          subst (λ v. AllExpected v scope (map forward members)) (sym same) expected,
          ap (λ (x : Store). shelf x.tables) (sym last)
              ∙ moved
              ∙ ap (apply_all scope (map release_of (map forward members))) (sym same),
        )

    pub all_previous :
        (members : List ReleaseMember)
        → any (λ (m : ReleaseMember). not (is_some m.previous_published_revision_id)) members
          ≡ false
        → all has_previous members ≡ true
    all_previous [] h = refl
    all_previous (m ∷ members) h =
        let rest = all_previous members (ground (arith, h)) in ground (arith, h, rest)

    -- And one that it rolls back.
    pub rollback_release_effect :
        (engine : Engine) (members : List ReleaseMember) (actor : Actor) {s t : Site Flow}
        {entries : List ContentEntry}
        → Returns (rollback_release options scope engine members actor) s entries t
        → (all has_previous members ≡ true)
          × (shelf t.store.tables
              ≡ apply_all scope (map release_of (map backward members)) (shelf s.store.tables))
    unfolding rollback_release rollback_checks
    rollback_release_effect engine members actor {s} h =
        let (checked, s1, h1, k1) = >->-Returns h in
        let (passed, e1) = reading-Returns _ h1 in
        let (u, writes, last) = >>=-eq-ok (writable options scope members) _ passed in
        let (expected, moved) =
          publish_many_effect engine scope (map backward members) actor (on_store-Returns _ k1) in
        (
          all_previous members (throw_if-eq-ok _ _ last),
          moved
              ∙ ap
                  (λ (x : Site Flow).
                    apply_all scope (map release_of (map backward members)) (shelf x.store.tables))
                  (sym e1),
        )
