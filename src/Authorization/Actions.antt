-- ===== src/Authorization/Actions.antt =====
-- packages/core/src/authorization.ts: the actions and the default roles.
use grid_story.Prelude.{String, List, [], ◌∷◌, string_eq}

-- `GridStoryActions`: one constructor for each key.
pub data GridStoryAction : Type 0 where
  schema_read schema_plan schema_deploy component_read asset_read asset_create asset_update :
      GridStoryAction
  collaboration_read collaboration_write presence_write content_read content_create :
      GridStoryAction
  content_draft_update content_publish content_history_read search_read search_manage :
      GridStoryAction
  workflow_read workflow_manage workflow_transition workflow_approve workflow_schedule :
      GridStoryAction
  workflow_action_read workflow_action_run workflow_action_replay release_read release_manage :
      GridStoryAction
  release_execute release_schedule release_rollback delivery_read operations_read : GridStoryAction
  operations_manage operations_run operations_replay portability_export portability_import :
      GridStoryAction
  audit_read audit_export plugin_read plugin_manage plugin_invoke governance_read : GridStoryAction
  governance_manage governance_execute migration_read migration_manage migration_execute :
      GridStoryAction
  marketplace_read marketplace_manage marketplace_review personalization_read : GridStoryAction
  personalization_manage personalization_preview experiment_read experiment_manage : GridStoryAction
  experiment_metrics experiment_promote ai_read ai_manage ai_execute ai_review regional_read :
      GridStoryAction
  regional_manage regional_failover federation_read federation_manage federation_consume :
      GridStoryAction
  federation_sync knowledge_read agent_read agent_manage agent_plan : GridStoryAction
  agent_review agent_execute fleet_read fleet_manage fleet_check : GridStoryAction

-- The text that a key stands for.
unfoldable pub action_name : GridStoryAction → String
action_name schema_read = "schema.read"
action_name schema_plan = "schema.plan"
action_name schema_deploy = "schema.deploy"
action_name component_read = "component.read"
action_name asset_read = "asset.read"
action_name asset_create = "asset.create"
action_name asset_update = "asset.update"
action_name collaboration_read = "collaboration.read"
action_name collaboration_write = "collaboration.write"
action_name presence_write = "presence.write"
action_name content_read = "content.read"
action_name content_create = "content.create"
action_name content_draft_update = "content.draft.update"
action_name content_publish = "content.publish"
action_name content_history_read = "content.history.read"
action_name search_read = "search.read"
action_name search_manage = "search.manage"
action_name workflow_read = "workflow.read"
action_name workflow_manage = "workflow.manage"
action_name workflow_transition = "workflow.transition"
action_name workflow_approve = "workflow.approve"
action_name workflow_schedule = "workflow.schedule"
action_name workflow_action_read = "workflow.action.read"
action_name workflow_action_run = "workflow.action.run"
action_name workflow_action_replay = "workflow.action.replay"
action_name release_read = "release.read"
action_name release_manage = "release.manage"
action_name release_execute = "release.execute"
action_name release_schedule = "release.schedule"
action_name release_rollback = "release.rollback"
action_name delivery_read = "delivery.read"
action_name operations_read = "operations.read"
action_name operations_manage = "operations.manage"
action_name operations_run = "operations.run"
action_name operations_replay = "operations.replay"
action_name portability_export = "portability.export"
action_name portability_import = "portability.import"
action_name audit_read = "audit.read"
action_name audit_export = "audit.export"
action_name plugin_read = "plugin.read"
action_name plugin_manage = "plugin.manage"
action_name plugin_invoke = "plugin.invoke"
action_name governance_read = "governance.read"
action_name governance_manage = "governance.manage"
action_name governance_execute = "governance.execute"
action_name migration_read = "migration.read"
action_name migration_manage = "migration.manage"
action_name migration_execute = "migration.execute"
action_name marketplace_read = "marketplace.read"
action_name marketplace_manage = "marketplace.manage"
action_name marketplace_review = "marketplace.review"
action_name personalization_read = "personalization.read"
action_name personalization_manage = "personalization.manage"
action_name personalization_preview = "personalization.preview"
action_name experiment_read = "experiment.read"
action_name experiment_manage = "experiment.manage"
action_name experiment_metrics = "experiment.metrics"
action_name experiment_promote = "experiment.promote"
action_name ai_read = "ai.read"
action_name ai_manage = "ai.manage"
action_name ai_execute = "ai.execute"
action_name ai_review = "ai.review"
action_name regional_read = "regional.read"
action_name regional_manage = "regional.manage"
action_name regional_failover = "regional.failover"
action_name federation_read = "federation.read"
action_name federation_manage = "federation.manage"
action_name federation_consume = "federation.consume"
action_name federation_sync = "federation.sync"
action_name knowledge_read = "knowledge.read"
action_name agent_read = "agent.read"
action_name agent_manage = "agent.manage"
action_name agent_plan = "agent.plan"
action_name agent_review = "agent.review"
action_name agent_execute = "agent.execute"
action_name fleet_read = "fleet.read"
action_name fleet_manage = "fleet.manage"
action_name fleet_check = "fleet.check"

pub record RoleDefinition : Type 0 where
  pub id : String
  pub actions : List String

abbrev pub admin_role : RoleDefinition
admin_role = record { id = "admin"; actions = "*" ∷ [] }

abbrev pub viewer_role : RoleDefinition
viewer_role = record {
  id = "viewer";
  actions =
      action_name schema_read
      ∷ action_name component_read
      ∷ action_name asset_read
      ∷ action_name content_read
      ∷ action_name content_history_read
      ∷ action_name search_read
      ∷ action_name workflow_read
      ∷ action_name release_read
      ∷ action_name collaboration_read
      ∷ action_name marketplace_read
      ∷ action_name personalization_read
      ∷ action_name experiment_read
      ∷ action_name ai_read
      ∷ action_name regional_read
      ∷ action_name federation_read
      ∷ action_name knowledge_read
      ∷ action_name agent_read
      ∷ action_name fleet_read
      ∷ [];
}

abbrev pub author_role : RoleDefinition
author_role = record {
  id = "author";
  actions =
      action_name schema_read
      ∷ action_name component_read
      ∷ action_name asset_read
      ∷ action_name asset_create
      ∷ action_name asset_update
      ∷ action_name content_read
      ∷ action_name content_history_read
      ∷ action_name search_read
      ∷ action_name content_create
      ∷ action_name content_draft_update
      ∷ action_name workflow_read
      ∷ action_name workflow_transition
      ∷ action_name release_read
      ∷ action_name release_manage
      ∷ action_name collaboration_read
      ∷ action_name collaboration_write
      ∷ action_name presence_write
      ∷ action_name marketplace_read
      ∷ action_name personalization_read
      ∷ action_name personalization_preview
      ∷ action_name experiment_read
      ∷ action_name ai_read
      ∷ action_name ai_execute
      ∷ action_name regional_read
      ∷ action_name federation_read
      ∷ action_name knowledge_read
      ∷ action_name agent_read
      ∷ action_name agent_plan
      ∷ action_name fleet_read
      ∷ [];
}

abbrev pub publisher_role : RoleDefinition
publisher_role = record {
  id = "publisher";
  actions =
      action_name schema_read
      ∷ action_name component_read
      ∷ action_name asset_read
      ∷ action_name asset_create
      ∷ action_name asset_update
      ∷ action_name content_read
      ∷ action_name content_history_read
      ∷ action_name search_read
      ∷ action_name content_create
      ∷ action_name content_draft_update
      ∷ action_name content_publish
      ∷ action_name workflow_read
      ∷ action_name workflow_transition
      ∷ action_name workflow_approve
      ∷ action_name workflow_schedule
      ∷ action_name release_read
      ∷ action_name release_manage
      ∷ action_name release_execute
      ∷ action_name release_schedule
      ∷ action_name release_rollback
      ∷ action_name collaboration_read
      ∷ action_name collaboration_write
      ∷ action_name presence_write
      ∷ action_name marketplace_read
      ∷ action_name personalization_read
      ∷ action_name personalization_manage
      ∷ action_name personalization_preview
      ∷ action_name experiment_read
      ∷ action_name experiment_manage
      ∷ action_name experiment_metrics
      ∷ action_name experiment_promote
      ∷ action_name ai_read
      ∷ action_name ai_manage
      ∷ action_name ai_execute
      ∷ action_name ai_review
      ∷ action_name regional_read
      ∷ action_name regional_manage
      ∷ action_name federation_read
      ∷ action_name federation_manage
      ∷ action_name federation_sync
      ∷ action_name knowledge_read
      ∷ action_name agent_read
      ∷ action_name agent_manage
      ∷ action_name agent_plan
      ∷ action_name agent_review
      ∷ action_name agent_execute
      ∷ action_name fleet_read
      ∷ action_name fleet_manage
      ∷ action_name fleet_check
      ∷ [];
}

abbrev pub delivery_role : RoleDefinition
delivery_role = record { id = "delivery"; actions = action_name delivery_read ∷ [] }

abbrev pub anonymous_role : RoleDefinition
anonymous_role = record { id = "anonymous"; actions = action_name delivery_read ∷ [] }

abbrev pub default_roles : List RoleDefinition
default_roles =
    admin_role ∷ viewer_role ∷ author_role ∷ publisher_role ∷ delivery_role ∷ anonymous_role ∷ []
