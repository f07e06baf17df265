-- ===== src/Content/Tests.antt =====
-- Runs of the content repository, and the theorems about it at concrete inputs.
use grid_story.Prelude.{
  inr, ℕ, String, none, some, List, [], ◌∷◌, ◌++◌, ok, ◌≡◌, refl, ◌⊎◌, ◌>->◌, not-Member-nil,
  length, arith, ◌≤◌,
}
use grid_story.Canonical.{string}
use grid_story.Context.Text.{decimal, trim, utf16_length}
use grid_story.Tenancy.{
  content_event_cache_tags, content_scope_cache_prefix, assert_valid_content_scope, assert_fields,
  matches_identifier,
}
use grid_story.Routing.Content.{Fields}
use grid_story.Content.{Store, DurableJob, pending, to_entry, status_for}
use grid_story.Content.Statements.{
  query, check, return, write, now, fresh_id, transaction, entry_row, insert_entry, insert_variant,
  insert_revision, insert_audit, insert_outbox, audit, audit_row, emit_outbox,
}
use grid_story.Content.Audit.{audit_event_hash}
use grid_story.Content.Repository.{create, chosen_id, place}
use grid_story.Content.Commands.{
  Command, creation, edit, publishing, joint_publication, run, shelf, Refines, HasDraft,
}
use grid_story.Content.Page.{
  counting, one_home, one_home-WellFormed, one_home-IsFresh, scope-is_valid, r2-Stored,
}
use grid_story.Content.Statements.Progress.{IsFresh-HasRoom}
use grid_story.Content.Progress.{publish_returns_iff}
use grid_story.Content.Progress.Edits.{update_draft_returns_iff}
use grid_story.Content.Progress.Joint.{IsReady, publish_many_returns_iff}
use grid_story.Content.Repository.{Publication}
use grid_story.Content.Queue.{count, is_due_job, claim_jobs}
use grid_story.Content.Claims.{AreApart, claim_jobs_exclusive}
use mathlib.Core.List.{Permᴰ}
use grid_story.Content.Due.{IsDue}
use grid_story.Content.Selection.{Each, AreClaimed, IsMost, claim_jobs_bounds}
use grid_story.Content.Advance.{Pairs, Reached}
use grid_story.Content.Backlog.{Turn, claim_turns, claim_turns_reaches_all}
use grid_story.Content.Sample.{engine, scope, author, empty}
use grid_story.Content.Refinement.{run-Refines}
use grid_story.Content.Integrity.{WellFormed}
use grid_story.Content.Soundness.{run-WellFormed}

abbrev hello : Fields
hello = ("title", string "Hello") ∷ []

abbrev page : Command
page = creation (some "home") "page" hello author none

one_page : Store
one_page = (run engine scope page empty).1

created_page :
    shelf one_page.tables scope "home" ≡ some (record { draft = some "0"; published = none })
unfolding one_page run create chosen_id place ◌>->◌ query check return write now fresh_id
    transaction entry_row insert_entry insert_variant insert_revision insert_audit insert_outbox
    audit audit_row emit_outbox audit_event_hash to_entry status_for content_event_cache_tags
    content_scope_cache_prefix assert_valid_content_scope assert_fields matches_identifier trim
    utf16_length decimal
created_page = refl

run-Refines_example : Refines engine scope (publishing "home" "0" author) one_page
run-Refines_example = run-Refines engine scope (publishing "home" "0" author) one_page

empty-WellFormed : WellFormed empty.tables
empty-WellFormed = record { unique = tt; pointed = λ e m. absurd (not-Member-nil m) }

one_page-WellFormed : WellFormed one_page.tables
unfolding one_page
one_page-WellFormed = run-WellFormed engine scope page empty empty-WellFormed

run-WellFormed_example :
    WellFormed (run engine scope (publishing "home" "0" author) one_page).1.tables
run-WellFormed_example =
    run-WellFormed engine scope (publishing "home" "0" author) one_page one_page-WellFormed

abbrev job : String → ℕ → DurableJob
job id run_at = record {
  id = id;
  scope = scope;
  type = "webhook.deliver";
  idempotency_key = id;
  payload = [];
  state = pending;
  attempts = 0;
  max_attempts = 5;
  run_at = run_at;
  lease_owner = none;
  lease_expires_at = none;
  last_error = none;
  result = none;
  created_at = 0;
  updated_at = 0;
  completed_at = none;
}

abbrev queue : Store
queue = record empty {
  tables = record empty.tables { durable_jobs = job "a" 1 ∷ job "b" 2 ∷ job "c" 90 ∷ [] };
}

two_due : count (is_due_job scope 5) queue.tables.durable_jobs ≡ 2
two_due = refl

claim_jobs_exclusive_example :
    let first = claim_jobs scope "worker-1" 1 5 60 queue in
    let second = claim_jobs scope "worker-2" 10 7 67 first.1 in
    (jobs others : List DurableJob) × (first.0 ≡ ok jobs)
    × (second.0 ≡ ok others)
    × AreApart jobs others
claim_jobs_exclusive_example =
    claim_jobs_exclusive scope "worker-1" "worker-2" 1 10 5 7 60 67 queue (omega arith)

claim_jobs_bounds_example :
    (jobs taken others waiting : List DurableJob) × (most : ℕ) × ((claim_jobs scope "worker-1" 1 5
        60 queue).0
      ≡ ok jobs)
    × Permᴰ ((taken ++ others) ++ waiting) queue.tables.durable_jobs
    × AreClaimed scope "worker-1" 5 60 taken jobs
    × Each (IsDue scope 5) others
    × Each (λ job. ¬ IsDue scope 5 job) waiting
    × IsMost 1 most
    × (((others ≡ []) × (length taken ≤ most)) ⊎ (length taken ≡ most))
claim_jobs_bounds_example = claim_jobs_bounds scope "worker-1" 1 5 60 queue

abbrev two_turns : List Turn
two_turns =
    record { worker = "worker-1"; limit = 1; at = 5; lease = 60 }
    ∷ (record { worker = "worker-2"; limit = 1; at = 5; lease = 61 } ∷ [])

claim_turns_reaches_all_example :
    let final = claim_turns scope two_turns queue in
    (final.0 ≡ ok tt)
    × Pairs (Reached scope 5 5) queue.tables.durable_jobs final.1.tables.durable_jobs
claim_turns_reaches_all_example =
    claim_turns_reaches_all scope 5 5 two_turns queue (omega arith)
      ((omega arith, omega arith, omega arith), ((omega arith, omega arith, omega arith), tt))
      (omega (arith, two_due))

home_draft : HasDraft (shelf one_home.tables) scope "home" "r2"
home_draft = (record { draft = some "r2"; published = some "r1" }, refl, refl)

publish_returns_iff_example :
    (run counting scope (publishing "home" "r2" author) one_home).0 ≡ ok tt
publish_returns_iff_example =
    (publish_returns_iff counting scope "home" "r2" author one_home one_home-WellFormed
        scope-is_valid (IsFresh-HasRoom counting one_home one_home-IsFresh)).1
      home_draft

update_draft_returns_iff_example :
    (run counting scope (edit "home" "r2" hello author) one_home).0 ≡ ok tt
update_draft_returns_iff_example =
    (update_draft_returns_iff counting scope "home" "r2" hello author one_home one_home-WellFormed
        scope-is_valid refl (record { audit_free = refl; outbox_free = refl })).1
      home_draft

abbrev releasing : List Publication
releasing =
    record {
      entry_id = "home";
      target_revision_id = "r2";
      expected_draft_revision_id = some "r2";
      expected_published_revision_id = some (some "r1");
    }
    ∷ []

releasing-IsReady : IsReady counting scope author releasing one_home
releasing-IsReady = record {
  distinct = refl;
  expected = ((record { draft = some "r2"; published = some "r1" }, refl, inr refl, inr refl), tt);
  stored = (r2-Stored, tt);
}

publish_many_returns_iff_example :
    (run counting scope (joint_publication releasing author) one_home).0 ≡ ok tt
publish_many_returns_iff_example =
    (publish_many_returns_iff counting scope author releasing one_home one_home-WellFormed
        scope-is_valid one_home-IsFresh).1
      releasing-IsReady
