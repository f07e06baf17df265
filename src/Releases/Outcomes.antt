-- ===== src/Releases/Outcomes.antt =====
-- What the operations on releases return.
use grid_story.Prelude.{
  continue, recover, pure, ℕ, suc, ◌+◌, String, Option, none, List, [], ◌∷◌, true, false, ◌≡◌, refl,
  sym, ◌∙◌, subst, arith, Bool-cases, ok, err, sort, ltb, length, keep, inl, inr,
}
use grid_story.Errors.{GridStoryError, Outcome}
use grid_story.Releases.{published, rolled_back, Release}
use grid_story.Releases.Store.{Actor, Services, World, Releases, now, values}
use grid_story.Releases.Changes.{Tally, no_tally, is_due, requester}
use grid_story.Releases.Service.{execute, rollback, process_release, process_releases, process_due}
use grid_story.Releases.Evolution.{unchanged, Keyed, InState}
use grid_story.Releases.Rules.{After, Any}
use grid_story.Releases.Runs.{execute-Holds, rollback-Holds}

module _ {Content : Type 0} (services : Services Content) where
  After-ok :
      {A : Type 0} (post : A → Releases → Type 0) (outcome : Outcome A) (releases : Releases)
      {a : A}
      → outcome ≡ ok a
      → After post Any outcome releases
      → post a releases
  After-ok post (ok b) releases {a} h p = subst (λ c. post c releases) (cc h) p
  After-ok post (err e) releases h p = cc

  -- If the releases are stored under their ids, an execution that returns gives a published release, which is the one that is stored.
  pub execute-InState :
      (id : String) (actor : Actor) (channel : Option String) (world : World Content)
      → Keyed world.releases
      → (release : Release) → (execute services id actor channel world).0 ≡ ok release
      → InState published release (execute services id actor channel world).1.releases
  execute-InState id actor channel world keyed release h =
      let after = execute services id actor channel world in
      let (k, e, p) =
        (execute-Holds services world.releases id actor channel).run world keyed unchanged tt in
      After-ok (InState published) after.0 after.1.releases h p

  -- If the releases are stored under their ids, a rollback that returns gives a release that is rolled back, which is the one that is stored.
  pub rollback-InState :
      (id reason : String) (actor : Actor) (world : World Content)
      → Keyed world.releases
      → (release : Release) → (rollback services id reason actor world).0 ≡ ok release
      → InState rolled_back release (rollback services id reason actor world).1.releases
  rollback-InState id reason actor world keyed release h =
      let after = rollback services id reason actor world in
      let (k, e, p) =
        (rollback-Holds services world.releases id reason actor).run world keyed unchanged tt in
      After-ok (InState rolled_back) after.0 after.1.releases h p

  unfoldable pub count_due : ℕ → List Release → ℕ
  count_due at releases = length (keep (is_due at) releases)

  abbrev pub listed : World Content → List Release
  listed world = sort (λ left right. ltb right.updated_at left.updated_at) (values world.releases)

  -- The execution of a scheduled release for the one who scheduled it.
  abbrev pub attempt_at : Release → World Content → Outcome Release × World Content
  attempt_at release world = execute services release.id (requester release) none world

  -- One release after the other, from one world to the next: those that are not due are passed over,
  -- the others are executed, and it is counted how many executions returned and how many threw.
  pub data Worked (at : ℕ) : List Release → World Content → ℕ → ℕ → World Content → Type 0 where
    finished : {world : World Content} → Worked at [] world 0 0 world
    passed :
        {release : Release} {rest : List Release} {world last : World Content} {good bad : ℕ}
        → is_due at release ≡ false
        → Worked at rest world good bad last
        → Worked at (release ∷ rest) world good bad last
    succeeded :
        {release : Release} {rest : List Release} {world last : World Content} {good bad : ℕ}
        (done : Release)
        → is_due at release ≡ true
        → (attempt_at release world).0 ≡ ok done
        → Worked at rest (attempt_at release world).1 good bad last
        → Worked at (release ∷ rest) world (suc good) bad last
    threw :
        {release : Release} {rest : List Release} {world last : World Content} {good bad : ℕ}
        (failure : GridStoryError)
        → is_due at release ≡ true
        → (attempt_at release world).0 ≡ err failure
        → Worked at rest (attempt_at release world).1 good bad last
        → Worked at (release ∷ rest) world good (suc bad) last

  Worked-count_due :
      {at : ℕ} {releases : List Release} {world last : World Content} {good bad : ℕ}
      → Worked at releases world good bad last
      → good + bad ≡ count_due at releases
  unfolding count_due
  Worked-count_due finished = refl
  Worked-count_due (passed waiting w) = rw waiting (Worked-count_due w)
  Worked-count_due (succeeded done due e w) = rw due (omega (arith, Worked-count_due w))
  Worked-count_due (threw failure due e w) = rw due (omega (arith, Worked-count_due w))

  -- What a round of the loop and the rest of it come to, by the outcome of the execution.
  round :
      (at : ℕ) (release : Release) (rest : List Release) (tally : Tally) (world : World Content)
      → Outcome Release
      → World Content
      → Outcome Tally × World Content
  round at release rest tally world (ok done) after =
      process_releases services at rest (record tally { executed = suc tally.executed }) after
  round at release rest tally world (err failure) after =
      process_releases services at rest (record tally { failed = suc tally.failed }) after

  process_releases-due :
      (at : ℕ) (release : Release) (rest : List Release) (tally : Tally) (world : World Content)
      → is_due at release ≡ true
      → process_releases services at (release ∷ rest) tally world
        ≡ round at release rest tally world
            (attempt_at release world).0
            (attempt_at release world).1
  unfolding process_releases process_release round
  process_releases-due at release rest tally world due =
      rw due (by_outcome (attempt_at release world).0 (attempt_at release world).1)
    where
      by_outcome :
          (outcome : Outcome Release) (after : World Content)
          → continue
              (process_releases services at rest)
              (recover
                (λ failure. pure (record tally { failed = suc tally.failed }))
                (continue
                  (λ done. pure (record tally { executed = suc tally.executed }))
                  outcome
                  after).0
                (continue
                  (λ done. pure (record tally { executed = suc tally.executed }))
                  outcome
                  after).1).0
              (recover
                (λ failure. pure (record tally { failed = suc tally.failed }))
                (continue
                  (λ done. pure (record tally { executed = suc tally.executed }))
                  outcome
                  after).0
                (continue
                  (λ done. pure (record tally { executed = suc tally.executed }))
                  outcome
                  after).1).1
            ≡ round at release rest tally world outcome after
      by_outcome (ok done) after = refl
      by_outcome (err failure) after = refl

  process_releases-waiting :
      (at : ℕ) (release : Release) (rest : List Release) (tally : Tally) (world : World Content)
      → is_due at release ≡ false
      → process_releases services at (release ∷ rest) tally world
        ≡ process_releases services at rest tally world
  unfolding process_releases process_release
  process_releases-waiting at release rest tally world waiting = rw waiting refl

  -- The tally is returned, with what was counted added to that of before.
  abbrev Counted : ℕ → List Release → Tally → World Content → Outcome Tally × World Content → Type 0
  Counted at releases tally world result =
      (good : ℕ) × (bad : ℕ) × (result.0
        ≡ ok (record { executed = tally.executed + good; failed = tally.failed + bad }))
      × Worked at releases world good bad result.1

  tally_eq :
      {a b c d : ℕ}
      → a ≡ c
      → b ≡ d
      → Path
          (Outcome Tally)
          (ok (record { executed = a; failed = b }))
          (ok (record { executed = c; failed = d }))
  tally_eq p q = cc (p, q)

  round-Counted :
      (at : ℕ) (release : Release) (rest : List Release) (tally : Tally) (world : World Content)
      → is_due at release ≡ true
      → ((more : Tally) (w : World Content)
          → Counted at rest more w (process_releases services at rest more w))
      → Counted at (release ∷ rest) tally world (
          round at release rest tally world
            (attempt_at release world).0
            (attempt_at release world).1)
  unfolding round
  round-Counted at release rest tally world due later =
      go (attempt_at release world).0 (attempt_at release world).1 refl refl
    where
      go :
          (outcome : Outcome Release) (after : World Content)
          → (attempt_at release world).0 ≡ outcome
          → (attempt_at release world).1 ≡ after
          → Counted at
              (release ∷ rest)
              tally
              world
              (round at release rest tally world outcome after)
      go (ok done) after e f =
          let (good, bad, returned, worked) =
            later (record tally { executed = suc tally.executed }) after in
          (
            suc good,
            bad,
            returned ∙ tally_eq (omega arith) refl,
            succeeded done due e (
                subst
                  (λ w.
                    Worked at rest w good bad
                      (process_releases services at rest
                        (record tally { executed = suc tally.executed }) after).1)
                  (sym f) worked),
          )
      go (err failure) after e f =
          let (good, bad, returned, worked) =
            later (record tally { failed = suc tally.failed }) after in
          (
            good,
            suc bad,
            returned ∙ tally_eq refl (omega arith),
            threw failure due e (
                subst
                  (λ w.
                    Worked at rest w good bad
                      (process_releases services at rest
                        (record tally { failed = suc tally.failed }) after).1)
                  (sym f) worked),
          )

  process_releases-Counted :
      (at : ℕ) (releases : List Release) (tally : Tally) (world : World Content)
      → Counted at releases tally world (process_releases services at releases tally world)
  unfolding process_releases
  process_releases-Counted at [] tally world =
      (0, 0, tally_eq (omega arith) (omega arith), finished)
  process_releases-Counted at (release ∷ rest) tally world = elim (Bool-cases (is_due at release)) [
    | inl due ↦
        subst (Counted at (release ∷ rest) tally world)
          (sym (process_releases-due at release rest tally world due))
          (round-Counted at release rest tally world due
            (λ more w. process_releases-Counted at rest more w))
    | inr waiting ↦
        let (good, bad, returned, worked) = process_releases-Counted at rest tally world in
        subst (Counted at (release ∷ rest) tally world)
          (sym (process_releases-waiting at release rest tally world waiting))
          (good, bad, returned, passed waiting worked)
  ]

  -- `processDue` never throws. It goes through the releases as they were listed when it had read the
  -- clock, and executes each that is due in the world that the ones before left; it returns how many
  -- of these executions returned and how many threw, and the two add up to the number of listed
  -- releases that were due.
  pub process_due_total :
      (world : World Content)
      → (tally : Tally) × ((process_due services world).0 ≡ ok tally)
        × Worked
            (services.time world.readings)
            (listed world)
            (now services world).1
            tally.executed
            tally.failed
            (process_due services world).1
        × (tally.executed + tally.failed ≡ count_due (services.time world.readings) (listed world))
  unfolding process_due
  process_due_total world =
      let (good, bad, returned, worked) =
        process_releases-Counted (services.time world.readings) (listed world) no_tally
          (now services world).1 in
      (
        record { executed = good; failed = bad },
        returned ∙ tally_eq (omega arith) (omega arith),
        worked,
        Worked-count_due worked,
      )
