-- ===== src/Releases/Rules.antt =====
-- Rules for actions that only let the stored releases evolve.
use grid_story.Prelude.{
  ◌>>-◌, continue, recover, pure, lift, attempt, String, true, false, none, some, string_eq, ◌≡◌,
  ◌≢◌, ◌⊎◌, inl, inr, refl, sym, subst, Bool-cases, Option-cases, lookup, insert, ok, err,
}
use grid_story.Errors.{GridStoryError, Outcome, not_found_error}
use grid_story.Releases.{executing, Release, release_is_valid}
use grid_story.Releases.Store.{Services, World, Releases, Action, on_content, list, now, save, get}
use grid_story.Releases.Evolution.{
  Move, Evolves, changed, Keyed, Idle, Idle-Stored, Keyed-insert, lookup-insert_same, Stored,
}

-- What holds of a returned value, and what of a failure.
abbrev pub After :
    {A : Type 0} → (A → Releases → Type 0) → (Releases → Type 0) → Outcome A → Releases → Type 0
After post fails (ok a) releases = post a releases
After post fails (err e) releases = fails releases

abbrev pub Any : Releases → Type 0
Any releases = Unit

-- An outcome of a service that began with `first`.
abbrev pub Good :
    {Content A : Type 0}
    → Releases
    → (A → Releases → Type 0)
    → (Releases → Type 0)
    → Outcome A
    → World Content
    → Type 0
Good first post fails outcome world =
    Keyed world.releases × Evolves first world.releases × After post fails outcome world.releases

-- From a world that satisfies `pre` an action only lets the releases evolve; what it returns
-- satisfies `post`, and the world that a failure leaves `fails`.
pub record Holds {Content A : Type 0} (first : Releases) (pre : Releases → Type 0)
    (action : Action Content A) (post : A → Releases → Type 0) (fails : Releases → Type 0)
    : Type 0 where
  pub run :
      (world : World Content)
      → Keyed world.releases
      → Evolves first world.releases
      → pre world.releases
      → Good first post fails (action world).0 (action world).1

keeps-After :
    {A : Type 0} (pre fails : Releases → Type 0) (outcome : Outcome A) (releases : Releases)
    → (pre releases → fails releases)
    → pre releases
    → After (λ a. pre) fails outcome releases
keeps-After pre fails (ok a) releases weaken p = p
keeps-After pre fails (err e) releases weaken p = weaken p

module _ {Content : Type 0} (services : Services Content) where
  get_missing :
      (id : String) (world : World Content)
      → lookup id world.releases ≡ none
      → get services id world ≡ (err (not_found_error "Release was not found."), world)
  unfolding get
  get_missing id world h = rw (get, h) refl

  get_found :
      (id : String) (world : World Content) {release : Release}
      → lookup id world.releases ≡ some release
      → get services id world ≡ (ok release, world)
  unfolding get
  get_found id world h = rw (get, h) refl

  pub save_valid :
      (release : Release) (world : World Content)
      → release_is_valid release ≡ true
      → save services release world ≡ (
        ok release,
        record {
          releases = insert release.id release world.releases;
          content = world.content;
          readings = world.readings;
        },
      )
  unfolding save
  save_valid release world h = rw (save, h) refl

  pub save_refused :
      (release : Release) (world : World Content)
      → release_is_valid release ≡ false
      → save services release world ≡ (err (services.release_mismatch release), world)
  unfolding save
  save_refused release world h = rw (save, h) refl

Idle-before :
    {first : Releases} (before : Release) (releases : Releases)
    → (before.state ≢ executing) ⊎ Idle first before.id
    → Evolves first releases
    → Stored before releases
    → Idle first before.id
Idle-before before releases (inl waiting) evolves p = Idle-Stored before waiting evolves p
Idle-before before releases (inr idle) evolves p = idle

module _ {Content : Type 0} {first : Releases} where
  continue-Good :
      {A B : Type 0} (middle : A → Releases → Type 0) (post : B → Releases → Type 0)
      (fails : Releases → Type 0) (next : A → Action Content B)
      → ((a : A) → Holds first (middle a) (next a) post fails)
      → (outcome : Outcome A) (world : World Content) → Good first middle fails outcome world
      → Good first post fails (continue next outcome world).0 (continue next outcome world).1
  continue-Good middle post fails next h (ok a) world (keyed, evolves, m) =
      (h a).run world keyed evolves m
  continue-Good middle post fails next h (err e) world good = good

  infixl 5 ◌then◌
  pub ◌then◌ :
      {A B : Type 0} {pre fails : Releases → Type 0} {middle : A → Releases → Type 0}
      {post : B → Releases → Type 0} {action : Action Content A} {next : A → Action Content B}
      → Holds first pre action middle fails
      → ((a : A) → Holds first (middle a) (next a) post fails)
      → Holds first pre (action >>- next) post fails
  ◌then◌ {fails} {middle} {post} {action} {next} h k = record {
    run = λ world keyed evolves p.
        continue-Good middle post fails next k (action world).0 (action world).1
          (h.run world keyed evolves p);
  }

  recover-Good :
      {A : Type 0} (post : A → Releases → Type 0) (kept fails : Releases → Type 0)
      (handler : GridStoryError → Action Content A)
      → ((e : GridStoryError) → Holds first kept (handler e) post fails)
      → (outcome : Outcome A) (world : World Content) → Good first post kept outcome world
      → Good first post fails (recover handler outcome world).0 (recover handler outcome world).1
  recover-Good post kept fails handler h (ok a) world good = good
  recover-Good post kept fails handler h (err e) world (keyed, evolves, m) =
      (h e).run world keyed evolves m

  pub attempt-Holds :
      {A : Type 0} {pre kept fails : Releases → Type 0} {post : A → Releases → Type 0}
      {action : Action Content A} {handler : GridStoryError → Action Content A}
      → Holds first pre action post kept
      → ((e : GridStoryError) → Holds first kept (handler e) post fails)
      → Holds first pre (attempt action handler) post fails
  attempt-Holds {kept} {fails} {post} {action} {handler} h k = record {
    run = λ world keyed evolves p.
        recover-Good post kept fails handler k (action world).0 (action world).1
          (h.run world keyed evolves p);
  }

  -- Actions that leave the releases alone.
  pub on_content-Holds :
      {A : Type 0} {pre fails : Releases → Type 0} (call : Content → Outcome A × Content)
      → ((releases : Releases) → pre releases → fails releases)
      → Holds first pre (on_content call) (λ a. pre) fails
  on_content-Holds {pre} {fails} call weaken = record {
    run = λ world keyed evolves p. (
      keyed,
      evolves,
      keeps-After pre fails (call world.content).0 world.releases (weaken world.releases) p,
    );
  }

  pub quiet-Holds :
      {pre fails : Releases → Type 0} (call : Content → Content)
      → Holds first pre
          (on_content (λ content. (ok tt, call content)))
          (λ (a : Unit {0}). pre)
          fails
  quiet-Holds call = record { run = λ world keyed evolves p. (keyed, evolves, p) }

  pub lift-Holds :
      {A : Type 0} {pre fails : Releases → Type 0} (outcome : Outcome A)
      → ((releases : Releases) → pre releases → fails releases)
      → Holds {Content = Content} first pre
          (lift outcome)
          (λ a releases. (outcome ≡ ok a) × pre releases)
          fails
  lift-Holds (ok a) weaken = record { run = λ world keyed evolves p. (keyed, evolves, (refl, p)) }
  lift-Holds (err e) weaken = record {
    run = λ world keyed evolves p. (keyed, evolves, weaken world.releases p);
  }

  pub pure-Holds :
      {A : Type 0} {post : A → Releases → Type 0} {fails : Releases → Type 0} (a : A)
      → Holds {Content = Content} first (post a) (pure a) post fails
  pure-Holds a = record { run = λ world keyed evolves p. (keyed, evolves, p) }

  pub pure_any :
      {A : Type 0} {pre fails : Releases → Type 0} (a : A)
      → Holds {Content = Content} first pre (pure a) (λ b. pre) fails
  pure_any a = record { run = λ world keyed evolves p. (keyed, evolves, p) }

  pub list-Holds :
      {pre fails : Releases → Type 0}
      → Holds {Content = Content} first pre list (λ releases. pre) fails
  list-Holds = record { run = λ world keyed evolves p. (keyed, evolves, p) }

  pub now-Holds :
      {pre fails : Releases → Type 0} (services : Services Content)
      → Holds first pre (now services) (λ at. pre) fails
  now-Holds services = record { run = λ world keyed evolves p. (keyed, evolves, p) }

  pub get-Holds :
      (services : Services Content) (id : String) → Holds first Any (get services id) Stored Any
  unfolding get
  get-Holds services id = record {
    run = λ world keyed evolves p. elim (Option-cases (lookup id world.releases)) [
      | inl missing ↦
          subst {A = Outcome Release × World Content} (λ q. Good first Stored Any q.0 q.1)
            (sym (get_missing services id world missing)) (keyed, evolves, tt)
      | inr (release, found) ↦
          subst {A = Outcome Release × World Content} (λ q. Good first Stored Any q.0 q.1)
            (sym (get_found services id world found))
            (
              keyed,
              evolves,
              subst (λ key. lookup key world.releases ≡ some release) (sym (keyed id release found))
                  found,
            )
    ];
  }

  pub save-Holds :
      {fails : Releases → Type 0} (services : Services Content) (before after : Release)
      → (before.state ≢ executing) ⊎ Idle first before.id
      → after.id ≡ before.id
      → after.entries ≡ before.entries
      → Move before.state after.state
      → ((releases : Releases) → Stored before releases → fails releases)
      → Holds first
          (Stored before)
          (save services after)
          (λ saved releases. (saved ≡ after) × (Idle first saved.id × Stored saved releases))
          fails
  unfolding save
  save-Holds {fails} services before after own id entries move weaken = record {
    run = λ world keyed evolves p.
        let post : Release → Releases → Type 0 =
          λ saved releases. (saved ≡ after) × (Idle first saved.id × Stored saved releases) in
        let idle = Idle-before before world.releases own evolves p in
        elim (Bool-cases (release_is_valid after)) [
          | inl valid ↦
              subst {A = Outcome Release × World Content} (λ q. Good first post fails q.0 q.1)
                (sym (save_valid services after world valid))
                (
                  Keyed-insert after world.releases keyed,
                  changed before after evolves p id entries move idle,
                  (
                    refl,
                    (subst (Idle first) (sym id) idle, lookup-insert_same after world.releases),
                  ),
                )
          | inr refused ↦
              subst {A = Outcome Release × World Content} (λ q. Good first post fails q.0 q.1)
                (sym (save_refused services after world refused))
                (keyed, evolves, weaken world.releases p)
        ];
  }

  -- A check before the rest of an operation, which then knows its outcome.
  pub lift_then :
      {A B : Type 0} {pre fails : Releases → Type 0} {post : B → Releases → Type 0}
      (outcome : Outcome A) {next : A → Action Content B}
      → ((releases : Releases) → pre releases → fails releases)
      → ((a : A) → outcome ≡ ok a → Holds first pre (next a) post fails)
      → Holds first pre (lift outcome >>- next) post fails
  lift_then (ok a) weaken h = record { run = (h a refl).run }
  lift_then (err e) weaken h = record {
    run = λ world keyed evolves p. (keyed, evolves, weaken world.releases p);
  }

  -- Facts that do not depend on the releases.
  pub given :
      {A : Type 0} {pre fails : Releases → Type 0} {post : A → Releases → Type 0} {Fact : Type 0}
      {action : Action Content A}
      → (Fact → Holds first pre action post fails)
      → Holds first (λ releases. Fact × pre releases) action post fails
  given h = record { run = λ world keyed evolves p. (h p.0).run world keyed evolves p.1 }

  pub weaken_post :
      {A : Type 0} {pre fails : Releases → Type 0} {stronger weaker : A → Releases → Type 0}
      {action : Action Content A}
      → ((a : A) (releases : Releases) → stronger a releases → weaker a releases)
      → Holds first pre action stronger fails
      → Holds first pre action weaker fails
  weaken_post {A} {fails} {stronger} {weaker} {action} weaken h = record {
    run = λ world keyed evolves p.
        let (still, moved, q) = h.run world keyed evolves p in
        (still, moved, go (action world).0 (action world).1.releases q);
  }
    where
      go :
          (outcome : Outcome A) (releases : Releases)
          → After stronger fails outcome releases
          → After weaker fails outcome releases
      go (ok a) releases q = weaken a releases q
      go (err e) releases q = q

  -- The last saving of an operation returns what it stored.
  pub save_last :
      {fails : Releases → Type 0} (Also : Release → Type 0) (services : Services Content)
      (before after : Release)
      → (before.state ≢ executing) ⊎ Idle first before.id
      → after.id ≡ before.id
      → after.entries ≡ before.entries
      → Move before.state after.state
      → ((releases : Releases) → Stored before releases → fails releases)
      → Also after
      → Holds first
          (Stored before)
          (save services after)
          (λ saved releases. Also saved × Stored saved releases)
          fails
  save_last Also services before after own id entries move weaken also =
      weaken_post (λ saved releases q. (subst Also (sym q.0) also, q.1.1))
        (save-Holds services before after own id entries move weaken)
