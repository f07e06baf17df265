-- ===== src/Lifecycle/Document.antt =====
-- packages/schema/src/canonical.ts: the parts of a schema document that a comparison reads.
use grid_story.Prelude.{ℕ, String, Bool, List}
use grid_story.Canonical.{Json}

pub record NormalizedField : Type 0 where
  pub id : String
  pub name : String
  pub label : String
  pub required : Bool
  pub type : String
  -- The field without its id, name, label, required flag and type.
  pub constraints : Json

-- A reusable object or a taxonomy: its id and the whole value.
pub record NamedContract : Type 0 where
  pub id : String
  pub value : Json

pub record NormalizedSchema : Type 0 where
  pub id : String
  pub name : String
  pub description : String
  pub version : ℕ
  pub collection : String
  pub route : Json
  pub localization : Json
  pub fields : List NormalizedField
  pub objects : List NamedContract
  pub taxonomies : List NamedContract

pub record ComponentManifest : Type 0 where
  pub id : String
  pub name : String
  pub version : ℕ
  -- The manifest with its version set to 0.
  pub contract : Json

pub record SchemaIrDocument : Type 0 where
  pub schemas : List NormalizedSchema
  pub components : List ComponentManifest
