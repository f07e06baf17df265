-- ===== src/Content/Service/Assessment.antt =====
-- packages/core/src/content-service.ts: `assessRelease`, what stands against publishing the entries
-- of a release together.
use grid_story.Prelude.{
  String, Bool, false, not, Option, none, some, List, [], ◌∷◌, ◌++◌, ◌==◌, string_eq, option_eq,
  or_else, if◌then◌else◌, any, keep, map, lookup, insert, insert_all, gather, push_if, ltb, length,
  Result, ok, err, ◌>>=◌,
}
use grid_story.Canonical.{◌<>◌}
use grid_story.Context.{ContentScope, draft, published}
use grid_story.Routing.Content.{build_content_route}
use grid_story.Releases.{ReleaseMember, ReleaseValidationIssue, error}
use grid_story.Releases.Store.{Actor}
use grid_story.Content.{
  Failure, plain, known, invalid, Issue, Tables, ContentEntry, ContentRevision,
}
use grid_story.Content.Reads as Reads
use grid_story.Content.Reads.{get_by_id, get_revision}
use grid_story.Content.Service.{
  Options, Reference, from_route, schema_of, validate, reference_issue, values,
}

abbrev pub issue_of : String → String → ReleaseValidationIssue
issue_of code message = record { code = code; severity = error; message = message }

-- The issues of one member of the release, and its candidate if it has one.
pub record Finding : Type 0 where
  pub issues : List ReleaseValidationIssue
  pub candidate : Option ContentEntry

abbrev pub not_found_issue : ReleaseValidationIssue
not_found_issue =
    issue_of "entry-not-found"
      "The pinned release entry or revision was not found in the active scope."

abbrev pub stale_issue : ReleaseValidationIssue
stale_issue =
    issue_of "stale-revision" "The draft changed after this revision was added to the release."

-- The entry as it will be published.
abbrev pub candidate_of : ContentEntry → ContentRevision → ContentEntry
candidate_of current revision = record current {
  draft_revision_id = some revision.id;
  fields = revision.fields;
}

-- The issue of a rejection by the workflow.
abbrev pub blocked_issues : Result Failure (Unit {0}) → List ReleaseValidationIssue
blocked_issues (ok u) = []
blocked_issues (err (known e)) = issue_of "workflow-blocked" e.message ∷ []
blocked_issues (err (invalid issues)) =
    issue_of "workflow-blocked" "Content failed validation." ∷ []
blocked_issues (err (plain message)) =
    issue_of "workflow-blocked" "The workflow gate rejected this release entry." ∷ []

abbrev pub append_to :
    String → ContentEntry → List (String × List ContentEntry) → List (String × List ContentEntry)
append_to route entry routes =
    insert route (or_else (lookup route routes) [] ++ (entry ∷ [])) routes

module _ {Flow : Type 0} (options : Options Flow) (scope : ContentScope) where
  abbrev pub quality_issues : ContentEntry → Actor → Option String → List ReleaseValidationIssue
  quality_issues candidate actor channel = elim options.assess [
    | none ↦ []
    | some assess ↦
        let report = assess scope candidate (or_else channel "web") (or_else actor.roles []) in
        push_if (not report.passed) (
          issue_of "quality-blocked"
            ("Content quality score " <> (report.score <> " did not pass the publication policy.")))
  ]

  -- The end of a round, after the validation of the candidate.
  unfoldable pub gate_issues :
      ContentEntry
      → Actor
      → Option String
      → Flow
      → Result Failure (Unit {0})
      → Result Failure (List ReleaseValidationIssue)
  gate_issues candidate actor channel flow (ok u) = ok (
      blocked_issues (options.assert_can_publish scope candidate actor flow)
      ++ quality_issues candidate actor channel)
  gate_issues candidate actor channel flow (err (invalid issues)) =
      ok (map (λ (i : Issue). issue_of "content-invalid" i.message) issues)
  gate_issues candidate actor channel flow (err (plain message)) = err (plain message)
  gate_issues candidate actor channel flow (err (known e)) = err (known e)

  -- One round of the first loop, on what the repository has.
  unfoldable pub assess_found :
      Actor
      → Option String
      → Flow
      → Option ContentEntry
      → Option ContentRevision
      → Result Failure Finding
  assess_found actor channel flow (some current) (some revision) =
      let candidate = candidate_of current revision in
      if current.draft_revision_id == some revision.id
      then (gate_issues candidate actor channel flow
            (validate options candidate.content_type candidate.fields)
          >>= λ issues. ok (record { issues = issues; candidate = some candidate }))
      else ok (record { issues = stale_issue ∷ []; candidate = some candidate })
  assess_found actor channel flow none revision =
      ok (record { issues = not_found_issue ∷ []; candidate = none })
  assess_found actor channel flow (some current) none =
      ok (record { issues = not_found_issue ∷ []; candidate = none })

  unfoldable pub assess_member :
      Actor → Option String → Tables → Flow → ReleaseMember → Result Failure Finding
  assess_member actor channel tables flow member =
      assess_found actor channel flow (get_by_id scope member.entry_id draft tables)
        (get_revision scope member.entry_id member.revision_id tables)

  unfoldable pub assess_members :
      Actor
      → Option String
      → Tables
      → Flow
      → List ReleaseMember
      → Result Failure (List ReleaseValidationIssue × List ContentEntry)
  assess_members actor channel tables flow [] = ok ([], [])
  assess_members actor channel tables flow (member ∷ members) =
      assess_member actor channel tables flow member >>= λ first.
      assess_members actor channel tables flow members >>= λ rest.
      ok (first.issues ++ rest.0, listed first.candidate ++ rest.1)
    where
      listed : Option ContentEntry → List ContentEntry
      listed none = []
      listed (some candidate) = candidate ∷ []

  -- `futureEntries`: what is published, with the candidates in the place of their entries.
  abbrev pub future_entries : Tables → List ContentEntry → List (String × ContentEntry)
  future_entries tables candidates =
      insert_all
        (insert_all []
          (map (λ (e : ContentEntry). (e.id, e)) (Reads.list scope none published tables)))
        (map (λ (e : ContentEntry). (e.id, e)) candidates)

  -- The entries on each route.
  unfoldable pub collect_routes :
      List ContentEntry
      → List (String × List ContentEntry)
      → Result Failure (List (String × List ContentEntry))
  collect_routes [] routes = ok routes
  collect_routes (entry ∷ entries) routes = schema_of options entry.content_type >>= λ schema.
      elim schema.pattern [
        | none ↦ collect_routes entries routes
        | some pattern ↦ from_route (build_content_route schema entry.fields) >>= λ route.
            collect_routes entries (append_to route entry routes)
      ]

  abbrev pub is_member : List ReleaseMember → ContentEntry → Bool
  is_member members entry = any (λ (m : ReleaseMember). m.entry_id == entry.id) members

  -- The issues of one route: each member of the release that shares it.
  abbrev pub collision_issues :
      List ReleaseMember → String × List ContentEntry → List ReleaseValidationIssue
  collision_issues members (route, entries) =
      if ltb (length entries) 2
      then []
      else map
          (λ (e : ContentEntry).
            issue_of "route-collision"
              ("Future canonical route " <> (route <> " belongs to more than one entry.")))
          (keep (is_member members) entries)

  abbrev pub will_be_published : List (String × ContentEntry) → Reference → Bool
  will_be_published future reference = elim (lookup reference.id future) [
    | none ↦ false
    | some target ↦ target.content_type == reference.content_type
  ]

  -- The last loop.
  unfoldable pub unpublished_issues :
      List (String × ContentEntry)
      → List ContentEntry
      → Result Failure (List ReleaseValidationIssue)
  unpublished_issues future [] = ok []
  unpublished_issues future (entry ∷ entries) = schema_of options entry.content_type >>= λ schema.
      unpublished_issues future entries >>= λ rest. ok (
        gather
          (λ (r : Reference). push_if (not (will_be_published future r)) (
            issue_of "reference-unpublished"
              (reference_issue options r " is absent from the future published state.").message))
          (options.collect_references schema entry.fields)
        ++ rest)

  unfoldable pub assess_release :
      List ReleaseMember
      → Actor
      → Option String
      → Tables
      → Flow
      → Result Failure (List ReleaseValidationIssue)
  assess_release members actor channel tables flow =
      assess_members actor channel tables flow members >>= λ found.
      let future = future_entries tables found.1 in
      collect_routes (values future) [] >>= λ routes.
      unpublished_issues future found.1 >>= λ missing.
      ok (found.0 ++ (gather (collision_issues members) routes ++ missing))
