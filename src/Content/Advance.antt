-- ===== src/Content/Advance.antt =====
-- How claims advance the durable jobs of the store.
use grid_story.Prelude.{
  ℕ, some, none, subst, some, none, subst, ◌<◌, String, true, List, [], ◌∷◌, ◌==◌, string_eq, ◌≡◌,
  refl, sym, ap, ◌∙◌, arith, Bool-cases, inl, inr, ◌⊎◌,
}
use grid_story.Context.{ContentScope, scope_eq}
use grid_story.Content.{processing, DurableJob}
use grid_story.Content.Queue.{count, is_due_job, mark_job}
use grid_story.Content.Due.{IsDue, is_due_job-IsDue}
use grid_story.Content.Claims.{mark_all}

-- The job is in the hands of a worker past the last instant, after at least one more attempt; the
-- rest of it is what it was.
abbrev pub Advanced : ℕ → DurableJob → DurableJob → Type 0
Advanced last before after =
    (worker : String) × (at lease : ℕ) × (after ≡ record before {
      state = processing;
      attempts = after.attempts;
      lease_owner = some worker;
      lease_expires_at = some lease;
      last_error = none;
      updated_at = at;
    })
    × (last < lease)
    × (before.attempts < after.attempts)

Advanced-trans :
    (last : ℕ) (a b c : DurableJob) → Advanced last a b → Advanced last b c → Advanced last a c
Advanced-trans last a b c (v, at, lease, e, early, more) (w, again, until, f, late, further) = (
  w,
  again,
  until,
  f
      ∙ ap
          (λ (j : DurableJob). record j {
            state = processing;
            attempts = c.attempts;
            lease_owner = some w;
            lease_expires_at = some until;
            last_error = none;
            updated_at = again;
          })
          e,
  late,
  omega (arith, more, further),
)

-- Two lists of jobs, one by one.
abbrev pub Pairs : (DurableJob → DurableJob → Type 0) → List DurableJob → List DurableJob → Type 0
Pairs related [] [] = Unit {0}
Pairs related (before ∷ ahead) (after ∷ rest) = related before after × Pairs related ahead rest
Pairs related [] (after ∷ rest) = ⊥
Pairs related (before ∷ ahead) [] = ⊥

abbrev pub Later : ℕ → DurableJob → DurableJob → Type 0
Later last before after = (after ≡ before) ⊎ Advanced last before after

pub Later-refl : (last : ℕ) (jobs : List DurableJob) → Pairs (Later last) jobs jobs
Later-refl last [] = tt
Later-refl last (job ∷ jobs) = (inl refl, Later-refl last jobs)

pub Later-trans :
    (last : ℕ) (firsts bs cs : List DurableJob)
    → Pairs (Later last) firsts bs
    → Pairs (Later last) bs cs
    → Pairs (Later last) firsts cs
Later-trans last [] [] [] p q = tt
Later-trans last [] [] (c ∷ cs) p q = absurd q
Later-trans last [] (b ∷ bs) cs p q = absurd p
Later-trans last (a ∷ firsts) [] cs p q = absurd p
Later-trans last (a ∷ firsts) (b ∷ bs) [] p q = absurd q
Later-trans last (a ∷ firsts) (b ∷ bs) (c ∷ cs) (p, ps) (q, qs) =
    (one p q, Later-trans last firsts bs cs ps qs)
  where
    one : Later last a b → Later last b c → Later last a c
    one (inl e) (inl f) = inl (f ∙ e)
    one (inl e) (inr y) = inr (subst (λ j. Advanced last j c) e y)
    one (inr x) (inl f) = inr (subst (Advanced last a) (sym f) x)
    one (inr x) (inr y) = inr (Advanced-trans last a b c x y)

pub mark_all-Later :
    (last : ℕ) (worker : String) (at lease : ℕ) (rows jobs : List DurableJob)
    → last < lease
    → Pairs (Later last) jobs (mark_all worker at lease rows jobs)
mark_all-Later last worker at lease [] jobs early = Later-refl last jobs
mark_all-Later last worker at lease (row ∷ rows) jobs early =
    Later-trans last jobs (mark_job worker at lease row jobs) _ (one jobs)
      (mark_all-Later last worker at lease rows (mark_job worker at lease row jobs) early)
  where
    one : (js : List DurableJob) → Pairs (Later last) js (mark_job worker at lease row js)
    one [] = tt
    one (j ∷ js) = elim (Bool-cases (j.id == row.id)) [
      | inl t ↦ rw t (inr (worker, at, lease, refl, early, omega arith), one js)
      | inr t ↦ rw t (inl refl, one js)
    ]

-- The job has been claimed, or it was not due and is what it was.
abbrev pub Reached : ContentScope → ℕ → ℕ → DurableJob → DurableJob → Type 0
Reached scope start last before after =
    Advanced last before after ⊎ ((¬ IsDue scope start before) × (after ≡ before))

pub all_Reached :
    (scope : ContentScope) (start last : ℕ) (jobs later : List DurableJob)
    → count (is_due_job scope start) later ≡ 0
    → Pairs (Later last) jobs later
    → Pairs (Reached scope start last) jobs later
all_Reached scope start last [] [] none_due p = tt
all_Reached scope start last [] (after ∷ rest) none_due p = absurd p
all_Reached scope start last (before ∷ ahead) [] none_due p = absurd p
all_Reached scope start last (before ∷ ahead) (after ∷ rest) none_due (p, ps) = (
  elim p [
    | inl same ↦ inr (
      λ due.
          let e = ap (is_due_job scope start) same ∙ (is_due_job-IsDue scope start before).1 due in
          absurd (first_waits e),
      same,
    )
    | inr moved ↦ inl moved
  ],
  all_Reached scope start last ahead rest (ground (arith, none_due)) ps,
)
  where
    first_waits : is_due_job scope start after ≡ true → ⊥
    first_waits e = ground (arith, e, none_due)
