-- ===== src/Authorization/Names.antt =====
-- Action names: no two actions share one.
use grid_story.Prelude.{String, Option, some, ◌≡◌, refl, ap, lookup, List, [], ◌∷◌}
use grid_story.Authorization.Actions.{
  GridStoryAction, action_name, schema_read, schema_plan, schema_deploy, component_read, asset_read,
  asset_create, asset_update, collaboration_read, collaboration_write, presence_write, content_read,
  content_create, content_draft_update, content_publish, content_history_read, search_read,
  search_manage, workflow_read, workflow_manage, workflow_transition, workflow_approve,
  workflow_schedule, workflow_action_read, workflow_action_run, workflow_action_replay,
  release_read, release_manage, release_execute, release_schedule, release_rollback, delivery_read,
  operations_read, operations_manage, operations_run, operations_replay, portability_export,
  portability_import, audit_read, audit_export, plugin_read, plugin_manage, plugin_invoke,
  governance_read, governance_manage, governance_execute, migration_read, migration_manage,
  migration_execute, marketplace_read, marketplace_manage, marketplace_review, personalization_read,
  personalization_manage, personalization_preview, experiment_read, experiment_manage,
  experiment_metrics, experiment_promote, ai_read, ai_manage, ai_execute, ai_review, regional_read,
  regional_manage, regional_failover, federation_read, federation_manage, federation_consume,
  federation_sync, knowledge_read, agent_read, agent_manage, agent_plan, agent_review,
  agent_execute, fleet_read, fleet_manage, fleet_check,
}

abbrev action_table : List (String × GridStoryAction)
action_table =
    ("schema.read", schema_read)
    ∷ ("schema.plan", schema_plan)
    ∷ ("schema.deploy", schema_deploy)
    ∷ ("component.read", component_read)
    ∷ ("asset.read", asset_read)
    ∷ ("asset.create", asset_create)
    ∷ ("asset.update", asset_update)
    ∷ ("collaboration.read", collaboration_read)
    ∷ ("collaboration.write", collaboration_write)
    ∷ ("presence.write", presence_write)
    ∷ ("content.read", content_read)
    ∷ ("content.create", content_create)
    ∷ ("content.draft.update", content_draft_update)
    ∷ ("content.publish", content_publish)
    ∷ ("content.history.read", content_history_read)
    ∷ ("search.read", search_read)
    ∷ ("search.manage", search_manage)
    ∷ ("workflow.read", workflow_read)
    ∷ ("workflow.manage", workflow_manage)
    ∷ ("workflow.transition", workflow_transition)
    ∷ ("workflow.approve", workflow_approve)
    ∷ ("workflow.schedule", workflow_schedule)
    ∷ ("workflow.action.read", workflow_action_read)
    ∷ ("workflow.action.run", workflow_action_run)
    ∷ ("workflow.action.replay", workflow_action_replay)
    ∷ ("release.read", release_read)
    ∷ ("release.manage", release_manage)
    ∷ ("release.execute", release_execute)
    ∷ ("release.schedule", release_schedule)
    ∷ ("release.rollback", release_rollback)
    ∷ ("delivery.read", delivery_read)
    ∷ ("operations.read", operations_read)
    ∷ ("operations.manage", operations_manage)
    ∷ ("operations.run", operations_run)
    ∷ ("operations.replay", operations_replay)
    ∷ ("portability.export", portability_export)
    ∷ ("portability.import", portability_import)
    ∷ ("audit.read", audit_read)
    ∷ ("audit.export", audit_export)
    ∷ ("plugin.read", plugin_read)
    ∷ ("plugin.manage", plugin_manage)
    ∷ ("plugin.invoke", plugin_invoke)
    ∷ ("governance.read", governance_read)
    ∷ ("governance.manage", governance_manage)
    ∷ ("governance.execute", governance_execute)
    ∷ ("migration.read", migration_read)
    ∷ ("migration.manage", migration_manage)
    ∷ ("migration.execute", migration_execute)
    ∷ ("marketplace.read", marketplace_read)
    ∷ ("marketplace.manage", marketplace_manage)
    ∷ ("marketplace.review", marketplace_review)
    ∷ ("personalization.read", personalization_read)
    ∷ ("personalization.manage", personalization_manage)
    ∷ ("personalization.preview", personalization_preview)
    ∷ ("experiment.read", experiment_read)
    ∷ ("experiment.manage", experiment_manage)
    ∷ ("experiment.metrics", experiment_metrics)
    ∷ ("experiment.promote", experiment_promote)
    ∷ ("ai.read", ai_read)
    ∷ ("ai.manage", ai_manage)
    ∷ ("ai.execute", ai_execute)
    ∷ ("ai.review", ai_review)
    ∷ ("regional.read", regional_read)
    ∷ ("regional.manage", regional_manage)
    ∷ ("regional.failover", regional_failover)
    ∷ ("federation.read", federation_read)
    ∷ ("federation.manage", federation_manage)
    ∷ ("federation.consume", federation_consume)
    ∷ ("federation.sync", federation_sync)
    ∷ ("knowledge.read", knowledge_read)
    ∷ ("agent.read", agent_read)
    ∷ ("agent.manage", agent_manage)
    ∷ ("agent.plan", agent_plan)
    ∷ ("agent.review", agent_review)
    ∷ ("agent.execute", agent_execute)
    ∷ ("fleet.read", fleet_read)
    ∷ ("fleet.manage", fleet_manage)
    ∷ ("fleet.check", fleet_check)
    ∷ []

action_of : String → Option GridStoryAction
action_of name = lookup name action_table

action_of-action_name : (a : GridStoryAction) → action_of (action_name a) ≡ some a
unfolding action_of action_name
action_of-action_name schema_read = refl
action_of-action_name _ = refl

-- Two actions with the same name are the same action.
pub action_name-injective : (a b : GridStoryAction) → action_name a ≡ action_name b → a ≡ b
action_name-injective a b h = cc (ap action_of h, action_of-action_name a, action_of-action_name b)
