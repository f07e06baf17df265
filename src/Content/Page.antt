-- ===== src/Content/Page.antt =====
-- A database with one page, published once and edited since, for the tests.
use Prim.Native.String as S
use grid_story.Prelude.{
  ℕ, zero, suc, String, none, some, [], ◌∷◌, ◌≡◌, refl, sym, ap, ◌∙◌, ok, inl, inr, Member-cons,
  here, there, not-Member-nil, subst,
}
use grid_story.Context.Text.{trim, utf16_length}
use grid_story.Tenancy.{assert_valid_content_scope, assert_fields, matches_identifier}
use grid_story.Content.{Entry, Revision, Store}
use grid_story.Content.Statements.{Engine}
use grid_story.Content.Statements.Progress.{IsFresh}
use grid_story.Content.Repository.Joint.{some-path}
use grid_story.Content.Integrity.{WellFormed, Points, Stored}
use grid_story.Content.Sample.{engine, scope, empty}

-- Ids that count.
abbrev pub tally : ℕ → String
tally zero = S.[]
tally (suc n) = S.◌∷◌ "x" (tally n)

abbrev letters : String → ℕ
letters S.[] = 0
letters (S.◌∷◌ c s) = suc (letters s)

letters-tally : (n : ℕ) → letters (tally n) ≡ n
letters-tally zero = refl
letters-tally (suc n) = ap suc (letters-tally n)

abbrev pub counting : Engine
counting = record engine { create_id = tally }

abbrev revision : String → ℕ → Revision
revision id sequence = record {
  id = id;
  entry_id = "home";
  tenant_id = "demo";
  sequence = sequence;
  base_revision_id = none;
  actor_id = "ana";
  fields = [];
  created_at = 0;
}

abbrev pub home : Entry
home = record {
  id = "home";
  scope = scope;
  content_type = "page";
  current_draft_revision_id = some "r2";
  published_revision_id = some "r1";
  created_at = 0;
  updated_at = 0;
}

abbrev pub one_home : Store
one_home = record empty {
  tables = record empty.tables {
    entries = home ∷ [];
    revisions = revision "r2" 2 ∷ revision "r1" 1 ∷ [];
  };
}

pub one_home-WellFormed : WellFormed one_home.tables
one_home-WellFormed = record {
  unique = (λ n. not-Member-nil n, tt);
  pointed = λ e m. elim (Member-cons m) [
    | inl is_it ↦
        subst (λ x. Points x one_home.tables.revisions) (sym is_it)
          (record {
            drafted = ("r2", refl, (revision "r2" 2, here refl, refl, refl));
            published = λ id h. (revision "r1" 1, there (here refl), some-path h, refl);
          })
    | inr n ↦ absurd (not-Member-nil n)
  ];
}

pub one_home-IsFresh : IsFresh counting one_home
one_home-IsFresh = record {
  distinct = λ i j h. sym (letters-tally i) ∙ ap letters h ∙ letters-tally j;
  audit_free = λ k later. refl;
  outbox_free = λ k later. refl;
}

pub scope-is_valid : assert_valid_content_scope scope ≡ ok scope
unfolding assert_valid_content_scope assert_fields matches_identifier trim utf16_length
scope-is_valid = refl

pub r2-Stored : Stored "r2" "home" one_home.tables.revisions
r2-Stored = (revision "r2" 2, here refl, refl, refl)
