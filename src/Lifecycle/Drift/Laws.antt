-- ===== src/Lifecycle/Drift/Laws.antt =====
-- What `inSync` says.
use grid_story.Prelude.{
  String, ◌≡◌, refl, ◌≢◌, ◌↔◌, Bool, true, ◌&&◌, Option, none, some, arith, string_eq, eq_iff,
  Bool-cases, and_true, inl, inr,
}
use mathlib.Core.Option
use grid_story.Context.Text.{is_empty}
use grid_story.Lifecycle.Document.{SchemaIrDocument}
use grid_story.Lifecycle.Drift.{
  SchemaDriftInput, is_match, status_of, unless_empty, generated_types_fingerprint,
  detect_schema_drift,
}

-- The fingerprint is there, is not empty, and is the expected one.
abbrev pub Shows : String → Option String → Type 0
Shows expected none = ⊥
Shows expected (some actual) = (actual ≢ "") × (actual ≡ expected)

is_empty_iff : (s : String) → (is_empty s ≡ true) ↔ (s ≡ "")
is_empty_iff String.[] = (λ h. refl, λ h. refl)
is_empty_iff (String.◌∷◌ c s) = (λ h. cc, λ h. cc)

pub status_iff :
    (expected : String) (actual : Option String)
    → (is_match (status_of expected actual) ≡ true) ↔ Shows expected actual
status_iff expected none = (λ h. cc, λ h. absurd h)
status_iff expected (some a) = (
  λ h. (λ e. ground (arith, is_empty_iff a, e), ground (arith, eq_iff a expected)),
  λ h. filled h,
)
  where
    filled : Shows expected (some a) → is_match (status_of expected (some a)) ≡ true
    filled (n, e) = elim (Bool-cases (is_empty a)) [
      | inl t ↦ absurd (n ((is_empty_iff a).0 t))
      | inr f ↦ rw f (ground (arith, eq_iff a expected))
    ]

module _ (fingerprint : SchemaIrDocument → String) (sha256 : String → String)
    (generate : SchemaIrDocument → String) where
  -- A schema is in sync exactly when its fingerprint is not empty and the deployed document's
  -- fingerprint, the stored fingerprint and the hash of the stored types, which are not empty, are
  -- the ones expected of the source.
  pub in_sync_iff :
      (input : SchemaDriftInput)
      → ((detect_schema_drift fingerprint sha256 generate input).in_sync ≡ true) ↔ (
          (fingerprint input.source ≢ "")
          × Shows (fingerprint input.source) (Option.map fingerprint input.deployed)
          × Shows (fingerprint input.source) input.database_fingerprint
          × Shows
              (generated_types_fingerprint fingerprint sha256 generate input.source)
              (Option.map sha256 (unless_empty input.generated_types)))
  unfolding detect_schema_drift
  in_sync_iff input = (to, from)
    where
      own : String
      own = fingerprint input.source

      types : String
      types = generated_types_fingerprint fingerprint sha256 generate input.source

      a : Bool
      a = is_match (status_of own (some own))

      b : Bool
      b = is_match (status_of own (Option.map fingerprint input.deployed))

      c : Bool
      c = is_match (status_of own input.database_fingerprint)

      d : Bool
      d = is_match (status_of types (Option.map sha256 (unless_empty input.generated_types)))

      to :
          (a && (b && (c && (d && true)))) ≡ true
          → (own ≢ "")
            × Shows own (Option.map fingerprint input.deployed)
            × Shows own input.database_fingerprint
            × Shows types (Option.map sha256 (unless_empty input.generated_types))
      to h =
          let (p, h1) = and_true a _ h in
          let (q, h2) = and_true b _ h1 in
          let (r, h3) = and_true c _ h2 in
          let (s, h4) = and_true d _ h3 in
          (
            ((status_iff own (some own)).0 p).0,
            (status_iff own (Option.map fingerprint input.deployed)).0 q,
            (status_iff own input.database_fingerprint).0 r,
            (status_iff types (Option.map sha256 (unless_empty input.generated_types))).0 s,
          )

      from :
          (own ≢ "")
            × Shows own (Option.map fingerprint input.deployed)
            × Shows own input.database_fingerprint
            × Shows types (Option.map sha256 (unless_empty input.generated_types))
          → (a && (b && (c && (d && true)))) ≡ true
      from (n, p, q, r) =
          let p' = (status_iff own (some own)).1 (n, refl) in
          let q' = (status_iff own (Option.map fingerprint input.deployed)).1 p in
          let r' = (status_iff own input.database_fingerprint).1 q in
          let s' =
            (status_iff types (Option.map sha256 (unless_empty input.generated_types))).1 r in
          rw (p', q', r', s') refl
