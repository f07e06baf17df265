-- ===== src/Prelude/Steps.antt =====
-- Methods that change the object they belong to: a step takes the state, and gives what the method
-- returns or throws with the state that it leaves.
use mathlib.Core.Path.{◌≡◌, refl, ap, ◌∙◌}
use grid_story.Prelude.Results.{Result, ok, err}

abbrev pub Step {ℓ ℓ' κ} : Type ℓ → Type ℓ' → Type κ → Type (ℓ ⊔ ℓ' ⊔ κ)
Step S E A = S → Result E A × S

module _ {ℓ ℓ' κ} {S : Type ℓ} {E : Type ℓ'} where
  abbrev pub continue {μ} :
      {A : Type κ} {B : Type μ} → (A → Step S E B) → Result E A → S → Result E B × S
  continue next (ok a) state = next a state
  continue next (err e) state = (err e, state)

  infixl 5 ◌>>-◌
  abbrev pub ◌>>-◌ {μ} : {A : Type κ} {B : Type μ} → Step S E A → (A → Step S E B) → Step S E B
  (first >>- next) state = continue next (first state).0 (first state).1

  abbrev pub pure : {A : Type κ} → A → Step S E A
  pure a state = (ok a, state)

  abbrev pub lift : {A : Type κ} → Result E A → Step S E A
  lift outcome state = (outcome, state)

  abbrev pub recover : {A : Type κ} → (E → Step S E A) → Result E A → S → Result E A × S
  recover handler (ok a) state = (ok a, state)
  recover handler (err e) state = handler e state

  -- `try { … } catch (error) { … }`.
  abbrev pub attempt : {A : Type κ} → Step S E A → (E → Step S E A) → Step S E A
  attempt step handler state = recover handler (step state).0 (step state).1

  -- A chain returns only if its first step does.
  pub >>--eq-ok {μ} :
      {A : Type κ} {B : Type μ} (first : Step S E A) (next : A → Step S E B) (state : S) {b : B}
      → ((first >>- next) state).0 ≡ ok b
      → (a : A) × ((first state).0 ≡ ok a) × ((next a (first state).1).0 ≡ ok b)
  >>--eq-ok {A} {B} first next state {b} h = go (first state).0 h
    where
      go :
          (outcome : Result E A)
          → (continue next outcome (first state).1).0 ≡ ok b
          → (a : A) × (outcome ≡ ok a) × ((next a (first state).1).0 ≡ ok b)
      go (ok a) k = (a, refl, k)
      go (err e) k = cc

  -- The step returns `a` and leaves `after`.
  pub record Returns {A : Type κ} (step : Step S E A) (state : S) (a : A) (after : S)
      : Type (ℓ ⊔ ℓ' ⊔ κ) where
    pub run : ◌≡◌ {A = Result E A × S} (step state) (ok a, after)

module _ {ℓ ℓ' κ μ} {S : Type ℓ} {E : Type ℓ'} {A : Type κ} {B : Type μ} where
  -- The same as `>>-`; closed, so that a proof takes a chain apart by `>->-Returns`.
  infixl 5 ◌>->◌
  unfoldable pub ◌>->◌ : Step S E A → (A → Step S E B) → Step S E B
  (first >-> next) state = continue next (first state).0 (first state).1

  -- A chain that returns passes through a state in which its first step returned.
  pub >->-Returns :
      {first : Step S E A} {next : A → Step S E B} {state : S} {b : B} {after : S}
      → Returns (first >-> next) state b after
      → (a : A) × (between : S) × Returns first state a between × Returns (next a) between b after
  unfolding ◌>->◌
  >->-Returns {first} {next} {state} {b} {after} h =
      let (a, between, e, k) = go (first state).0 (first state).1 h.run in
      (a, between, record { run = e }, record { run = k })
    where
      go :
          (outcome : Result E A) (left : S)
          → ◌≡◌ {A = Result E B × S} (continue next outcome left) (ok b, after)
          → (a : A) × (between : S) × ◌≡◌ {A = Result E A × S} (outcome, left) (ok a, between)
            × ◌≡◌ {A = Result E B × S} (next a between) (ok b, after)
      go (ok a) left k = (a, left, refl, k)
      go (err e) left k = cc

  -- A chain returns if its steps do.
  pub >->_runs :
      {first : Step S E A} (next : A → Step S E B) {s t w : S} {a : A} {b : B}
      → Returns first s a t
      → Returns (next a) t b w
      → Returns (first >-> next) s b w
  unfolding ◌>->◌
  >->_runs next h k = record {
    run = ap (λ (p : Result E A × S). continue next p.0 p.1) h.run ∙ k.run;
  }
