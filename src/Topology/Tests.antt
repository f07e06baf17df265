-- ===== src/Topology/Tests.antt =====
-- A local topology and a context that it admits.
use grid_story.Prelude.{[], none, ok, ◌≡◌, ◌↔◌}
use grid_story.Context.{RequestContext, Principal, published, user}
use grid_story.Topology.{resolve, create_local_topology}
use grid_story.Topology.Laws.{Placement, IsLocal, resolve_iff, create_local_topology-IsLocal_iff}

abbrev reader : Principal
reader = record {
  id = "reader";
  type = user;
  roles = [];
  role_assignments = none;
  grants = none;
  authentication_method = none;
}

abbrev input : RequestContext
input = record {
  scope = record {
    organization_id = "local";
    tenant_id = "acme";
    workspace_id = "default";
    site_id = "default";
    environment_id = "production";
    locale = "en";
  };
  perspective = published;
  principal = reader;
}

resolve_iff_example :
    (resolve (create_local_topology "acme") input ≡ ok input)
    ↔ ((input ≡ input) × Placement (create_local_topology "acme") input)
resolve_iff_example = resolve_iff (create_local_topology "acme") input input

create_local_topology-IsLocal_iff_example :
    (resolve (create_local_topology "acme") input ≡ ok input) ↔ IsLocal "acme" input
create_local_topology-IsLocal_iff_example = create_local_topology-IsLocal_iff "acme" input
