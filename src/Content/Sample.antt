-- ===== src/Content/Sample.antt =====
-- A scope and an empty database for the tests.
use grid_story.Prelude.{none, []}
use grid_story.Context.{ContentScope}
use grid_story.Context.Text.{decimal}
use grid_story.Releases.Store.{Actor}
use grid_story.Content.{Store}
use grid_story.Content.Statements.{Engine}

abbrev pub engine : Engine
engine = record {
  time = λ n. n;
  create_id = λ n. decimal n;
  logical_checksum = λ json. "checksum";
  iso = λ n. decimal n;
}

abbrev pub scope : ContentScope
scope = record {
  organization_id = "local";
  tenant_id = "demo";
  workspace_id = "default";
  site_id = "default";
  environment_id = "development";
  locale = "en";
}

abbrev pub author : Actor
author = record { id = "ana"; roles = none }

abbrev pub empty : Store
empty = record {
  tables = record {
    entries = [];
    revisions = [];
    audit_events = [];
    translation_variants = [];
    outbox_events = [];
    durable_jobs = [];
  };
  drawn = 0;
  readings = 0;
}
