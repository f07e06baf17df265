-- ===== src/Content/Audit.antt =====
-- packages/core/src/audit-service.ts: the hash of an audit event, and the check of the chain that
-- the events of an entry form. `logical_checksum` is the SHA-256 of the canonical JSON.
use grid_story.Prelude.{
  ℕ, suc, ◌+◌, String, Bool, not, Option, none, some, List, [], ◌∷◌, ◌++◌, ◌==◌, string_eq, nat_eq,
  nat_beq, option_eq, ltb, length, sort, push_if, insert, lookup, or_else, ok, ◌>>=◌,
}
use grid_story.Canonical.{◌<>◌, Json, null, string, number, object, end, entry}
use grid_story.Context.Text.{decimal}
use grid_story.Errors.{Outcome}
use grid_story.Tenancy.{content_scope_key}
use grid_story.Content.{
  AuditAction, created, draft_updated, published, AuditFields, AuditEvent, if_filled,
}

abbrev pub action_text : AuditAction → String
action_text created = "content.created"
action_text draft_updated = "content.draft.updated"
action_text published = "content.published"

abbrev pub or_null : Option String → Json
or_null none = null
or_null (some text) = string text

pub data FailureReason : Type 0 where
  sequence_mismatch previous_hash_mismatch event_hash_mismatch : FailureReason

pub record VerificationFailure : Type 0 where
  pub event_id : String
  pub entry_id : String
  pub reason : FailureReason

pub record AuditVerification : Type 0 where
  pub valid : Bool
  pub event_count : ℕ
  pub entry_count : ℕ
  pub failures : List VerificationFailure

abbrev pub failure_of : AuditEvent → FailureReason → VerificationFailure
failure_of event reason = record { event_id = event.id; entry_id = event.entry_id; reason = reason }

module _ (logical_checksum : Json → String) (iso : ℕ → String) where
  unfoldable pub audit_event_hash : AuditFields → String
  audit_event_hash event = logical_checksum (
      object (
        entry "id" (string event.id) (
          entry "organizationId" (string event.scope.organization_id) (
            entry "tenantId" (string event.scope.tenant_id) (
              entry "workspaceId" (string event.scope.workspace_id) (
                entry "siteId" (string event.scope.site_id) (
                  entry "environmentId" (string event.scope.environment_id) (
                    entry "locale" (string event.scope.locale) (
                      entry "entryId" (string event.entry_id) (
                        entry "sequence" (number (decimal event.sequence)) (
                          entry "actorId" (string event.actor_id) (
                            entry "action" (string (action_text event.action)) (
                              entry "revisionId" (string event.revision_id) (
                                entry "occurredAt" (string (iso event.occurred_at)) (
                                  entry "previousHash" (or_null event.previous_hash)
                                    end)))))))))))))))

  -- `{ ...event, ...(previousHash ? { previousHash } : {}) }`.
  abbrev pub with_previous : AuditFields → Option String → AuditFields
  with_previous event none = event
  with_previous event (some hash) = record event { previous_hash = some hash }

  -- The failures of one event; `index` counts from 0.
  unfoldable pub event_failures : ℕ → Option String → AuditEvent → List VerificationFailure
  unfolding audit_event_hash
  event_failures index previous event =
      push_if (not (event.sequence == (index + 1))) (failure_of event sequence_mismatch)
      ++ (push_if (not (event.previous_hash == previous)) (failure_of event previous_hash_mismatch)
          ++ push_if
              (not (
                event.event_hash
                == audit_event_hash (with_previous event.event (if_filled previous))))
              (failure_of event event_hash_mismatch))

  -- The loop over the sorted events of one entry.
  unfoldable pub chain_failures : ℕ → Option String → List AuditEvent → List VerificationFailure
  chain_failures index previous [] = []
  chain_failures index previous (event ∷ events) =
      event_failures index previous event
      ++ chain_failures (suc index) (some event.event_hash) events

  abbrev pub group_key : AuditEvent → Outcome String
  group_key event =
      content_scope_key event.scope >>= λ key. ok (key <> ("\u{1f}" <> event.entry_id))

  abbrev pub Groups : Type 0
  Groups = List (String × List AuditEvent)

  -- The first loop: the events of each entry, in the order of the list.
  unfoldable pub group_events : List AuditEvent → Groups → Outcome Groups
  group_events [] grouped = ok grouped
  group_events (event ∷ events) grouped = group_key event >>= λ key.
      group_events events (insert key (or_else (lookup key grouped) [] ++ (event ∷ [])) grouped)

  -- The second loop.
  unfoldable pub group_failures : Groups → List VerificationFailure
  unfolding chain_failures
  group_failures [] = []
  group_failures ((key, events) ∷ rest) =
      chain_failures 0 none (sort (λ left right. ltb left.sequence right.sequence) events)
      ++ group_failures rest

  unfoldable pub verify_audit_events : List AuditEvent → Outcome AuditVerification
  unfolding group_events group_failures
  verify_audit_events events = group_events events [] >>= λ grouped.
      let failures = group_failures grouped in
      ok (record {
        valid = nat_beq (length failures) 0;
        event_count = length events;
        entry_count = length grouped;
        failures = failures;
      })
