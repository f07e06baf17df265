-- ===== src/Content/Statements/Rollback.antt =====
-- A statement of the repository that throws leaves the tables as they were.
use grid_story.Prelude.{Result, ok, err, ◌≡◌, refl, sym, ap, ◌∙◌, ◌>->◌, continue}
use grid_story.Content.{Failure, Tables, Store}
use grid_story.Content.Statements.{
  Engine, Operation, query, check, return, write, update, transaction, now, fresh_id,
}
use grid_story.Content.Statements.Returns.{transaction_throws}

-- Whatever the operation throws, the tables are the old ones.
pub record Rolls {A : Type 0} (work : Operation A) : Type 0 where
  pub back : (s : Store) (e : Failure) → (work s).0 ≡ err e → (work s).1.tables ≡ s.tables

-- The operation never changes the tables.
pub record Still {A : Type 0} (work : Operation A) : Type 0 where
  pub still : (s : Store) → (work s).1.tables ≡ s.tables

-- The operation does not throw.
pub record Total {A : Type 0} (work : Operation A) : Type 0 where
  pub total : (s : Store) → (a : A) × ((work s).0 ≡ ok a)

pub transaction-Rolls : {A : Type 0} (work : Operation A) → Rolls (transaction work)
transaction-Rolls work = record { back = λ s e h. transaction_throws work s h }

pub Still-Rolls : {A : Type 0} {work : Operation A} → Still work → Rolls work
Still-Rolls h = record { back = λ s e k. h.still s }

pub Total-Rolls : {A : Type 0} {work : Operation A} → Total work → Rolls work
Total-Rolls {work} h = record {
  back = λ s e k. let (a, returned) = h.total s in cc (sym k ∙ returned);
}

module _ {A B : Type 0} {first : Operation A} {next : A → Operation B} where
  -- After an operation that keeps the tables.
  pub >->-Rolls : Still first → ((a : A) → Rolls (next a)) → Rolls (first >-> next)
  unfolding ◌>->◌
  >->-Rolls h k = record { back = λ s e r. go s (first s).0 (first s).1 (h.still s) e r }
    where
      go :
          (s : Store) (outcome : Result Failure A) (left : Store)
          → left.tables ≡ s.tables
          → (e : Failure) → (continue next outcome left).0 ≡ err e
          → (continue next outcome left).1.tables ≡ s.tables
      go s (ok a) left same e r = (k a).back left e r ∙ same
      go s (err f) left same e r = same

  -- Before operations that do not throw.
  pub >->-Rolls_before : Rolls first → ((a : A) → Total (next a)) → Rolls (first >-> next)
  unfolding ◌>->◌
  >->-Rolls_before h k = record { back = λ s e r. go s (first s).0 (first s).1 refl e r }
    where
      go :
          (s : Store) (outcome : Result Failure A) (left : Store)
          → ◌≡◌ {A = Result Failure A × Store} (first s) (outcome, left)
          → (e : Failure) → (continue next outcome left).0 ≡ err e
          → (continue next outcome left).1.tables ≡ s.tables
      go s (ok a) left same e r = let (b, t) = (k a).total left in cc (sym r ∙ t)
      go s (err f) left same e r =
          sym (ap (λ (p : Result Failure A × Store). p.1.tables) same)
          ∙ h.back s f (ap (λ (p : Result Failure A × Store). p.0) same)

pub check-Still : {A : Type 0} (outcome : Result Failure A) → Still (check outcome)
unfolding check
check-Still outcome = record { still = λ s. refl }

pub query-Still : {A : Type 0} (read : Tables → A) → Still (query read)
unfolding query
query-Still read = record { still = λ s. refl }

pub return-Total : {A : Type 0} (a : A) → Total (return a)
unfolding return
return-Total a = record { total = λ s. (a, refl) }

pub return-Still : {A : Type 0} (a : A) → Still (return a)
unfolding return
return-Still a = record { still = λ s. refl }

-- A statement that cannot fail, and what follows it.
pub update-Total :
    {A : Type 0} (change : Tables → Tables) (a : A) → Total (update change >-> λ done. return a)
unfolding ◌>->◌ write return
update-Total change a = record { total = λ s. (a, refl) }

pub now-Still : (engine : Engine) → Still (now engine)
unfolding now
now-Still engine = record { still = λ s. refl }

pub fresh_id-Still : (engine : Engine) → Still (fresh_id engine)
unfolding fresh_id
fresh_id-Still engine = record { still = λ s. refl }
