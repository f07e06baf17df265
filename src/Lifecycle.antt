-- ===== src/Lifecycle.antt =====
-- packages/schema/src/lifecycle.ts: comparing two schema documents, planning the migration between
-- them, and detecting drift. Documents are the normalised ones, after `schemaIrDocumentSchema.parse`;
-- the values that a change shows before and after, which nothing computes with, are not kept.
pub mod Document
pub mod Changes
pub mod Diff
pub mod Plan
pub mod Drift
pub mod Deployment
