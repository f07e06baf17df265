-- ===== src/Content/Service/Failures.antt =====
-- packages/core/src/content-service.ts: how `publishRelease` ends, whether it returns or throws.
use grid_story.Prelude.{List, [], ◌∷◌, ◌++◌, ok, err, ◌≡◌, ◌⊎◌, Step, ◌>->◌, Returns}
use grid_story.Context.{ContentScope}
use grid_story.Releases.Store.{Actor}
use grid_story.Content.{Failure, Store, ContentEntry}
use grid_story.Content.Service.{Options, Site}
use grid_story.Content.Service.Joint.{tell_published}

module _ {S A B : Type 0} where
  -- How a chain goes on after its first step.
  abbrev Goes : Step S Failure A → (A → Step S Failure B) → S → Type 0
  Goes first next s =
      ((e : Failure) × ((first s).0 ≡ err e) × ((first >-> next) s ≡ (err e, (first s).1)))
      ⊎ ((a : A) × Returns first s a (first s).1 × ((first >-> next) s ≡ next a (first s).1))

module _ {Flow : Type 0} (options : Options Flow) (scope : ContentScope) (actor : Actor) where
  -- The workflow, told of the entries one after the other, accepted each.
  pub data Accepted : List ContentEntry → Flow → Flow → Type 0 where
    none_told : {flow : Flow} → Accepted [] flow flow
    told :
        {entry : ContentEntry} {entries : List ContentEntry} {flow last : Flow}
        → (options.content_published scope entry actor flow).0 ≡ ok tt
        → Accepted entries (options.content_published scope entry actor flow).1 last
        → Accepted (entry ∷ entries) flow last

  -- The workflow accepted the entries before one of them, and rejected that one with the error.
  abbrev pub Rejected : List ContentEntry → Flow → Failure → Flow → Type 0
  Rejected entries flow e last =
      (before rest : List ContentEntry) × (entry : ContentEntry) × (asked : Flow) × (entries
        ≡ before ++ (entry ∷ rest))
      × Accepted before flow asked
      × (options.content_published scope entry actor asked ≡ (err e, last))

  abbrev with_flow : Site Flow → Flow → Site Flow
  with_flow s flow = record { store = s.store; flow = flow }

  abbrev Told : List ContentEntry → Site Flow → Type 0
  Told entries s =
      ((last : Flow) × Accepted entries s.flow last
        × (tell_published options scope entries actor s ≡ (ok tt, with_flow s last)))
      ⊎ ((e : Failure) × (last : Flow) × Rejected entries s.flow e last
          × (tell_published options scope entries actor s ≡ (err e, with_flow s last)))
