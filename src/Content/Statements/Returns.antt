-- ===== src/Content/Statements/Returns.antt =====
-- What a statement of the repository leaves when it returns.
use grid_story.Prelude.{
  String, Bool, true, false, Option, none, some, Result, ok, err, ◌≡◌, refl, sym, ap, ◌∙◌, throw_if,
  or_throw, Returns, >->-Returns, ℕ, suc, ◌∷◌, any, ◌==◌, string_eq, nat_eq, ◌&&◌, ◌||◌,
}
use grid_story.Context.{ContentScope, scope_eq}
use grid_story.Routing.Content.{Fields}
use grid_story.Releases.Store.{Actor}
use grid_story.Content.{
  Failure, Tables, Store, AuditAction, AuditRow, OutboxEvent, Entry, Revision, TranslationVariant,
}
use grid_story.Content.Statements.{
  Engine, Operation, query, check, return, write, transaction, settle, end_transaction, now,
  fresh_id, unique, insert_entry, insert_variant, insert_revision, insert_audit, insert_outbox,
  audit, audit_row, emit_outbox, pending_event, last_audit,
}

pub throw_if-eq-ok {ℓ} :
    {E : Type ℓ} (test : Bool) (e : E) {u : Unit {0}} → throw_if test e ≡ ok u → test ≡ false
throw_if-eq-ok true e h = cc
throw_if-eq-ok false e h = refl

pub or_throw-eq-ok {ℓ κ} :
    {E : Type ℓ} {A : Type κ} (o : Option A) (e : E) {a : A} → or_throw o e ≡ ok a → o ≡ some a
or_throw-eq-ok none e h = cc
or_throw-eq-ok (some b) e h = cc

pub check-Returns :
    {A : Type 0} {outcome : Result Failure A} {s t : Store} {a : A}
    → Returns (check outcome) s a t
    → (outcome ≡ ok a) × (s ≡ t)
unfolding check
check-Returns h = (cc h.run, cc h.run)

pub return-Returns :
    {A : Type 0} {value : A} {s t : Store} {a : A}
    → Returns (return value) s a t
    → (value ≡ a) × (s ≡ t)
unfolding return
return-Returns h = (cc h.run, cc h.run)

pub query-Returns :
    {A : Type 0} (read : Tables → A) {s t : Store} {a : A}
    → Returns (query read) s a t
    → (read s.tables ≡ a) × (s ≡ t)
unfolding query
query-Returns read h = (cc h.run, cc h.run)

pub write-Returns :
    (statement : Tables → Result Failure Tables) {s t : Store} {u : Unit {0}}
    → Returns (write statement) s u t
    → statement s.tables ≡ ok t.tables
unfolding write
write-Returns statement {s} {t} {u} h = go (statement s.tables) h.run
  where
    go :
        (outcome : Result Failure Tables)
        → ◌≡◌ {A = Result Failure (Unit {0}) × Store} (settle s outcome) (ok u, t)
        → outcome ≡ ok t.tables
    go (ok tables) k =
        let left : record s { tables = tables } ≡ t = cc k in ap (λ (r : Store). ok r.tables) left
    go (err e) k = cc

pub transaction-Returns :
    {A : Type 0} {work : Operation A} {s t : Store} {a : A}
    → Returns (transaction work) s a t
    → Returns work s a t
unfolding transaction
transaction-Returns {A} {work} {s} {t} {a} h = record { run = go (work s).0 (work s).1 h.run }
  where
    go :
        (outcome : Result Failure A) (left : Store)
        → ◌≡◌ {A = Result Failure A × Store} (end_transaction s.tables outcome left) (ok a, t)
        → ◌≡◌ {A = Result Failure A × Store} (outcome, left) (ok a, t)
    go (ok b) left k = k
    go (err e) left k = cc

-- An error rolls back.
pub transaction_throws :
    {A : Type 0} (work : Operation A) (s : Store) {e : Failure}
    → (transaction work s).0 ≡ err e
    → (transaction work s).1.tables ≡ s.tables
unfolding transaction
transaction_throws {A} work s {e} h = go (work s).0 (work s).1 h
  where
    go :
        (outcome : Result Failure A) (left : Store)
        → (end_transaction s.tables outcome left).0 ≡ err e
        → (end_transaction s.tables outcome left).1.tables ≡ s.tables
    go (ok b) left k = cc
    go (err f) left k = refl

pub unique-eq-ok :
    (taken : Bool) (columns : String) (tables : Tables) {after : Tables}
    → unique taken columns tables ≡ ok after
    → (taken ≡ false) × (tables ≡ after)
unique-eq-ok true columns tables h = cc
unique-eq-ok false columns tables h = (refl, cc)

-- An insertion that returns found its keys free, and adds the row.
pub insert_entry-ok :
    (row : Entry) (tables : Tables) {after : Tables}
    → insert_entry row tables ≡ ok after
    → (any (λ e. e.id == row.id) tables.entries ≡ false)
      × (record tables { entries = row ∷ tables.entries } ≡ after)
unfolding insert_entry
insert_entry-ok row tables h = unique-eq-ok _ "entries.id" _ h

pub insert_variant-ok :
    (row : TranslationVariant) (tables : Tables) {after : Tables}
    → insert_variant row tables ≡ ok after
    → (any
          (λ v.
            (v.entry_id == row.entry_id)
            || ((v.scope == row.scope) && (v.translation_group_id == row.translation_group_id)))
          tables.translation_variants
        ≡ false)
      × (record tables { translation_variants = row ∷ tables.translation_variants } ≡ after)
unfolding insert_variant
insert_variant-ok row tables h = unique-eq-ok _ "translation_variants" _ h

pub insert_revision-ok :
    (row : Revision) (tables : Tables) {after : Tables}
    → insert_revision row tables ≡ ok after
    → (any
          (λ r. (r.id == row.id) || ((r.entry_id == row.entry_id) && (r.sequence == row.sequence)))
          tables.revisions
        ≡ false)
      × (record tables { revisions = row ∷ tables.revisions } ≡ after)
unfolding insert_revision
insert_revision-ok row tables h = unique-eq-ok _ "revisions" _ h

pub insert_audit-ok :
    (row : AuditRow) (tables : Tables) {after : Tables}
    → insert_audit row tables ≡ ok after
    → (any
          (λ a. (a.id == row.id) || ((a.entry_id == row.entry_id) && (a.sequence == row.sequence)))
          tables.audit_events
        ≡ false)
      × (record tables { audit_events = row ∷ tables.audit_events } ≡ after)
unfolding insert_audit
insert_audit-ok row tables h = unique-eq-ok _ "audit_events" _ h

pub insert_outbox-ok :
    (row : OutboxEvent) (tables : Tables) {after : Tables}
    → insert_outbox row tables ≡ ok after
    → (any (λ o. o.id == row.id) tables.outbox_events ≡ false)
      × (record tables { outbox_events = row ∷ tables.outbox_events } ≡ after)
unfolding insert_outbox
insert_outbox-ok row tables h = unique-eq-ok _ "outbox_events.id" _ h

module _ (engine : Engine) where
  pub now-Returns : {s t : Store} {at : ℕ} → Returns (now engine) s at t → s.tables ≡ t.tables
  unfolding now
  now-Returns {s} {t} h =
      let left : record s { readings = suc s.readings } ≡ t = cc h.run in
      ap (λ (r : Store). r.tables) left

  -- The next id is drawn.
  pub fresh_id-drawn :
      {s t : Store} {id : String}
      → Returns (fresh_id engine) s id t
      → (engine.create_id s.drawn ≡ id) × (suc s.drawn ≡ t.drawn)
  unfolding fresh_id
  fresh_id-drawn {s} {t} {id} h =
      let left : record s { drawn = suc s.drawn } ≡ t = cc h.run in
      (cc h.run, ap (λ (r : Store). r.drawn) left)

  pub fresh_id-Returns :
      {s t : Store} {id : String} → Returns (fresh_id engine) s id t → s.tables ≡ t.tables
  unfolding fresh_id
  fresh_id-Returns {s} {t} h =
      let left : record s { drawn = suc s.drawn } ≡ t = cc h.run in
      ap (λ (r : Store). r.tables) left

  -- The tables with the row that `#audit` adds.
  abbrev pub audited :
      ContentScope → String → Actor → AuditAction → String → ℕ → String → Tables → Tables
  audited scope entry_id actor action revision_id at id tables = record tables {
    audit_events =
        audit_row engine scope entry_id actor action revision_id at id
          (last_audit entry_id tables.audit_events)
        ∷ tables.audit_events;
  }

  module _ (scope : ContentScope) (entry_id : String) (actor : Actor) (action : AuditAction)
      (revision_id : String) (at : ℕ) where
    pub audit-Returns :
        {s t : Store} {u : Unit {0}}
        → Returns (audit engine scope entry_id actor action revision_id at) s u t
        → (id : String) × (audited scope entry_id actor action revision_id at id s.tables
            ≡ t.tables)
    unfolding audit
    audit-Returns {s} {t} h =
        let (id, s1, h1, k1) = >->-Returns h in
        let (previous, s2, h2, k2) = >->-Returns k1 in
        let (read, same) = query-Returns _ h2 in
        let (new, left) = insert_audit-ok _ _ (write-Returns _ k2) in
        let moved : s1.tables ≡ s2.tables = ap (λ (r : Store). r.tables) same in
        let base : s.tables ≡ s2.tables = fresh_id-Returns h1 ∙ moved in
        let last : last_audit entry_id s2.tables.audit_events ≡ previous =
          ap (λ (r : Tables). last_audit entry_id r.audit_events) (sym moved) ∙ read in
        let add : Option AuditRow → Tables → Tables = λ p x. record x {
          audit_events =
              audit_row engine scope entry_id actor action revision_id at id p ∷ x.audit_events;
        } in
        (
          id,
          ap (λ x. add (last_audit entry_id x.audit_events) x) base
              ∙ ap (λ p. add p s2.tables) last
              ∙ left,
        )

  -- `#emitOutbox` adds one event to the outbox.
  pub emit_outbox-Returns :
      (scope : ContentScope) (type : AuditAction) (content_type entry_id revision_id : String)
      (fields : Fields) (at : ℕ) {s t : Store} {u : Unit {0}}
      → Returns (emit_outbox engine scope type content_type entry_id revision_id fields at) s u t
      → (event : OutboxEvent) × (record s.tables { outbox_events = event ∷ s.tables.outbox_events }
          ≡ t.tables)
  unfolding emit_outbox
  emit_outbox-Returns scope type content_type entry_id revision_id fields at {s} {t} h =
      let (id, s1, h1, k1) = >->-Returns h in
      let (tags, s2, h2, k2) = >->-Returns k1 in
      let (tagged, same) = check-Returns h2 in
      let (new, left) = insert_outbox-ok _ _ (write-Returns _ k2) in
      let base : s.tables ≡ s2.tables = fresh_id-Returns h1 ∙ ap (λ (r : Store). r.tables) same in
      let event = pending_event scope type content_type entry_id revision_id fields at id tags in
      (event, ap (λ (x : Tables). record x { outbox_events = event ∷ x.outbox_events }) base ∙ left)
