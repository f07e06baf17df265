-- ===== src/Content/Statements/Progress.antt =====
-- When a statement of the repository returns.
use grid_story.Prelude.{
  ◌+◌, >->_runs, sym, Bool-cases, inl, inr, ==-eq, subst, arith, ◌≤◌, ◌<◌, String, Bool, false,
  Result, ok, ◌≡◌, refl, ap, ◌∙◌, Returns, ℕ, suc, ◌∷◌, any, ◌==◌, string_eq,
}
use grid_story.Context.{ContentScope}
use grid_story.Tenancy.{
  content_event_cache_tags, content_scope_cache_prefix, assert_valid_content_scope, prefix_of,
  tags_of,
}
use grid_story.Routing.Content.{Fields}
use grid_story.Releases.Store.{Actor}
use grid_story.Content.{Failure, Tables, Store, AuditAction, AuditRow, OutboxEvent}
use grid_story.Content.Statements.{
  Engine, Operation, query, check, return, write, settle, update, transaction, end_transaction, now,
  fresh_id, last_audit, sequence_of, unique, insert_audit, insert_outbox, audit, audit_row,
  emit_outbox, pending_event,
}
use grid_story.Content.Statements.Sequences.{audit_keys_free}
use grid_story.Content.Statements.Returns.{audited}

pub query_runs :
    {A : Type 0} (read : Tables → A) (s : Store) → Returns (query read) s (read s.tables) s
unfolding query
query_runs read s = record { run = refl }

pub check_runs :
    {A : Type 0} {outcome : Result Failure A} {a : A} (s : Store)
    → outcome ≡ ok a
    → Returns (check outcome) s a s
unfolding check
check_runs s h = record { run = ap (λ o. (o, s)) h }

pub return_runs : {A : Type 0} (a : A) (s : Store) → Returns (return a) s a s
unfolding return
return_runs a s = record { run = refl }

abbrev pub with_tables : Tables → Store → Store
with_tables tables s = record s { tables = tables }

pub write_runs :
    (statement : Tables → Result Failure Tables) (s : Store) {tables : Tables}
    → statement s.tables ≡ ok tables
    → Returns (write statement) s tt (with_tables tables s)
unfolding write
write_runs statement s h = record { run = ap (settle s) h }

pub update_runs :
    (change : Tables → Tables) (s : Store)
    → Returns (update change) s tt (with_tables (change s.tables) s)
update_runs change s = write_runs _ s refl

pub transaction_runs :
    {A : Type 0} {work : Operation A} {s t : Store} {a : A}
    → Returns work s a t
    → Returns (transaction work) s a t
unfolding transaction
transaction_runs {A} {work} {s} h = record {
  run = ap (λ (p : Result Failure A × Store). end_transaction s.tables p.0 p.1) h.run;
}

pub unique_free :
    {taken : Bool} (columns : String) (t : Tables) → taken ≡ false → unique taken columns t ≡ ok t
unique_free columns t h = rw h refl

module _ (engine : Engine) where
  -- The events that a change adds, and their ids.
  pub record Recorded (s t : Store) : Type 0 where
    pub row : AuditRow
    pub audit_id : row.id ≡ engine.create_id s.drawn
    pub event : OutboxEvent
    pub event_id : event.id ≡ engine.create_id (suc s.drawn)
    pub tables :
        record s.tables {
          audit_events = row ∷ s.tables.audit_events;
          outbox_events = event ∷ s.tables.outbox_events;
        }
        ≡ t.tables
    pub drawn : suc (suc s.drawn) ≡ t.drawn

  pub now_runs :
      (s : Store)
      → Returns (now engine) s (engine.time s.readings) (record s { readings = suc s.readings })
  unfolding now
  now_runs s = record { run = refl }

  pub fresh_id_runs :
      (s : Store)
      → Returns (fresh_id engine) s (engine.create_id s.drawn) (record s { drawn = suc s.drawn })
  unfolding fresh_id
  fresh_id_runs s = record { run = refl }

  -- No audit event has the next id that is drawn, and no outbox event the one after it.
  pub record HasRoom (s : Store) : Type 0 where
    pub audit_free : any (λ a. a.id == engine.create_id s.drawn) s.tables.audit_events ≡ false
    pub outbox_free :
        any (λ o. o.id == engine.create_id (suc s.drawn)) s.tables.outbox_events ≡ false

  module _ (scope : ContentScope) (entry_id : String) (actor : Actor) (action : AuditAction)
      (revision_id : String) (at : ℕ) where
    audit_runs :
        (s : Store)
        → any (λ a. a.id == engine.create_id s.drawn) s.tables.audit_events ≡ false
        → Returns (audit engine scope entry_id actor action revision_id at) s tt (record s {
          tables =
              audited engine scope entry_id actor action revision_id at
                (engine.create_id s.drawn)
                s.tables;
          drawn = suc s.drawn;
        })
    unfolding audit audit_row insert_audit
    audit_runs s free = >->_runs _ (fresh_id_runs s) (
        >->_runs _ (query_runs _ _) (
          write_runs _ _ (
            unique_free "audit_events" _ (
              audit_keys_free entry_id (engine.create_id s.drawn)
                (sequence_of (last_audit entry_id s.tables.audit_events) + 1) s.tables.audit_events
                (omega arith) free))))

    emit_outbox_runs :
        (content_type : String) (fields : Fields) (s : Store)
        → assert_valid_content_scope scope ≡ ok scope
        → any (λ o. o.id == engine.create_id s.drawn) s.tables.outbox_events ≡ false
        → Returns
            (emit_outbox engine scope action content_type entry_id revision_id fields at)
            s
            tt
            (record s {
              tables = record s.tables {
                outbox_events =
                    pending_event scope action content_type entry_id revision_id fields at
                      (engine.create_id s.drawn)
                      (tags_of (prefix_of scope) content_type entry_id revision_id)
                    ∷ s.tables.outbox_events;
              };
              drawn = suc s.drawn;
            })
    unfolding emit_outbox insert_outbox content_event_cache_tags content_scope_cache_prefix
    emit_outbox_runs content_type fields s valid free = >->_runs _ (fresh_id_runs s) (
        >->_runs _
          (check_runs {a = tags_of (prefix_of scope) content_type entry_id revision_id} _
            (rw valid refl))
          (write_runs _ _ (unique_free "outbox_events.id" _ free)))

    -- The pair of calls that ends every change.
    pub events_run :
        (content_type : String) (fields : Fields) (s : Store)
        → assert_valid_content_scope scope ≡ ok scope
        → HasRoom s
        → (between after : Store) × Returns
            (audit engine scope entry_id actor action revision_id at)
            s
            tt
            between
          × Returns
              (emit_outbox engine scope action content_type entry_id revision_id fields at)
              between
              tt
              after
          × Recorded s after
    unfolding audit_row
    events_run content_type fields s valid room = (
      _,
      _,
      audit_runs s room.audit_free,
      emit_outbox_runs content_type fields _ valid room.outbox_free,
      record { row = _; audit_id = refl; event = _; event_id = refl; tables = refl; drawn = refl },
    )

  -- No id is drawn twice, and no event has one that is still to be drawn.
  pub record IsFresh (s : Store) : Type 0 where
    pub distinct : (i j : ℕ) → engine.create_id i ≡ engine.create_id j → i ≡ j
    pub audit_free :
        (k : ℕ) → s.drawn ≤ k → any (λ a. a.id == engine.create_id k) s.tables.audit_events ≡ false
    pub outbox_free :
        (k : ℕ) → s.drawn ≤ k → any (λ o. o.id == engine.create_id k) s.tables.outbox_events ≡ false

  pub IsFresh-HasRoom : (s : Store) → IsFresh s → HasRoom s
  IsFresh-HasRoom s h = record {
    audit_free = h.audit_free s.drawn (omega arith);
    outbox_free = h.outbox_free (suc s.drawn) (omega arith);
  }

  drawn_differs :
      {s : Store} {id : String} (i k : ℕ)
      → IsFresh s
      → id ≡ engine.create_id i
      → i < k
      → (id == engine.create_id k) ≡ false
  drawn_differs {id} i k h is_it less = elim (Bool-cases (id == engine.create_id k)) [
    | inl t ↦
        let same : i ≡ k = h.distinct i k (sym is_it ∙ ==-eq t) in
        absurd (omega (arith, same, less))
    | inr f ↦ f
  ]

  pub Recorded-IsFresh : {s t : Store} → Recorded s t → IsFresh s → IsFresh t
  Recorded-IsFresh {s} {t} r h = record {
    distinct = h.distinct;
    audit_free = λ k later.
        let past : s.drawn < k = (let e = r.drawn in omega (arith, e, later)) in
        let new = drawn_differs s.drawn k h r.audit_id past in
        let old = h.audit_free k (omega (arith, past)) in
        subst (λ (x : Tables). any (λ a. a.id == engine.create_id k) x.audit_events ≡ false)
          r.tables (rw (new, old) refl);
    outbox_free = λ k later.
        let past : suc s.drawn < k = (let e = r.drawn in omega (arith, e, later)) in
        let new = drawn_differs (suc s.drawn) k h r.event_id past in
        let old = h.outbox_free k (omega (arith, past)) in
        subst (λ (x : Tables). any (λ o. o.id == engine.create_id k) x.outbox_events ≡ false)
          r.tables (rw (new, old) refl);
  }
