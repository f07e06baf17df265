-- ===== src/Lifecycle/Diff/Compatible.antt =====
-- The verdict `compatible` of a comparison.
use grid_story.Prelude.{
  String, ◌≡◌, refl, Bool, not, ◌++◌, arith, any, string_eq, length, length-sort, length-append,
  ◌+◌,
}
use grid_story.Lifecycle.Document.{SchemaIrDocument}
use grid_story.Lifecycle.Diff.{diff_schemas, diff_components, diff_changes, diff_schema_ir}
use grid_story.Lifecycle.Diff.Laws.{destroys, destructive_count-zero, count_risks-total}

module _ (precedes : String → String → Bool) where
  -- The three counts of the summary add up to the number of changes.
  pub summary_total :
      (fingerprint : SchemaIrDocument → String) (before after : SchemaIrDocument)
      → (diff_schema_ir precedes fingerprint before after).summary.safe_count
          + (diff_schema_ir precedes fingerprint before after).summary.backfill_count
          + (diff_schema_ir precedes fingerprint before after).summary.destructive_count
        ≡ length (diff_schemas precedes before after)
          + length (diff_components precedes before after)
  unfolding diff_schema_ir diff_changes
  summary_total fingerprint before after = omega (
    arith,
    count_risks-total (record { safe_count = 0; backfill_count = 0; destructive_count = 0 })
        (diff_changes precedes before after),
    length-sort (λ left right. precedes left.id right.id)
        (diff_schemas precedes before after ++ diff_components precedes before after),
    length-append (diff_schemas precedes before after) (diff_components precedes before after),
  )

  pub diff_schema_ir-compatible :
      (fingerprint : SchemaIrDocument → String) (before after : SchemaIrDocument)
      → (diff_schema_ir precedes fingerprint before after).compatible
        ≡ not (any destroys (diff_schema_ir precedes fingerprint before after).changes)
  unfolding diff_schema_ir
  diff_schema_ir-compatible fingerprint before after =
      destructive_count-zero _ (diff_changes precedes before after)

  pub diff_schema_ir-changes :
      (fingerprint : SchemaIrDocument → String) (before after : SchemaIrDocument)
      → (diff_schema_ir precedes fingerprint before after).changes
        ≡ diff_changes precedes before after
  unfolding diff_schema_ir
  diff_schema_ir-changes fingerprint before after = refl
