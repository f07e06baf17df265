-- ===== src/Topology/Laws.antt =====
-- Which request contexts `resolve` admits.
use grid_story.Prelude.{
  String, Bool, true, false, ◌&&◌, Option, none, some, ◌==◌, string_eq, if◌then◌else◌, ok, ◌>>=◌,
  ◌≡◌, ◌↔◌, ◌⊎◌, inl, inr, refl, sym, ap, ◌∙◌, arith, Bool-cases, and_true, >>=-eq-ok, eq_iff,
  ==-eq,
}
use grid_story.Errors.{Outcome}
use grid_story.Context.{
  Organization, Tenant, Workspace, Site, Environment, LocaleConfiguration, PlatformTopology,
  RequestContext, Status, active, production, status_eq, status_beq_iff,
}
use grid_story.Topology.{
  require, resolve, find_organization, find_tenant, find_workspace, find_site, find_environment,
  find_locale, create_local_topology,
}

require-ok {ℓ} :
    {A : Type ℓ} (found : Option A) (test : A → Bool) (message : String) {a : A}
    → require found test message ≡ ok a
    → (found ≡ some a) × (test a ≡ true)
unfolding require
require-ok none test message h = cc
require-ok (some b) test message {a} h = elim (Bool-cases (test b)) [
  | inl t ↦ let same : b ≡ a = ground (arith, h, t) in (ap some same, ap test (sym same) ∙ t)
  | inr f ↦ absurd (ground (arith, h, f))
]

require_passes {ℓ} :
    {A : Type ℓ} {found : Option A} (test : A → Bool) (message : String) {a : A}
    → found ≡ some a
    → test a ≡ true
    → require found test message ≡ ok a
unfolding require
require_passes test message f t = rw (f, require, t) refl

-- The parts that a context names, as the topology lists them: each active (the environment apart),
-- each in the one above it, and the locale enabled for the site.
pub record Placement (topology : PlatformTopology) (input : RequestContext) : Type 0 where
  pub organization : Organization
  pub tenant : Tenant
  pub workspace : Workspace
  pub site : Site
  pub environment : Environment
  pub locale : LocaleConfiguration
  pub organization_found : find_organization topology input ≡ some organization
  pub tenant_found : find_tenant topology input ≡ some tenant
  pub workspace_found : find_workspace topology input ≡ some workspace
  pub site_found : find_site topology input ≡ some site
  pub environment_found : find_environment topology input ≡ some environment
  pub locale_found : find_locale topology input site ≡ some locale
  pub organization_active : organization.status ≡ active
  pub tenant_active : tenant.status ≡ active
  pub workspace_active : workspace.status ≡ active
  pub site_active : site.status ≡ active
  pub tenant_placed : tenant.organization_id ≡ organization.id
  pub workspace_placed : workspace.tenant_id ≡ tenant.id
  pub site_placed : site.workspace_id ≡ workspace.id
  pub environment_placed : environment.site_id ≡ site.id
  pub locale_enabled : locale.enabled ≡ true

both : {a b : String} {s : Bool} → ((a == b) && s) ≡ true → (a ≡ b) × (s ≡ true)
both {a} {b} {s} h = let (x, y) = and_true (a == b) s h in (==-eq x, y)

and_intro : {a b : Bool} → a ≡ true → b ≡ true → (a && b) ≡ true
and_intro p q = rw (p, q) refl

eq_status : {a : Status} → a ≡ active → (a == active) ≡ true
eq_status {a} h = (status_beq_iff a active).1 h

eq_test : {a b : String} → a ≡ b → (a == b) ≡ true
eq_test {a} {b} h = (eq_iff a b).1 h

resolve_places :
    (topology : PlatformTopology) (input result : RequestContext)
    → resolve topology input ≡ ok result
    → (input ≡ result) × Placement topology input
unfolding resolve
resolve_places topology input result h =
    let (organization, o, h1) = >>=-eq-ok (require (find_organization topology input) _ _) _ h in
    let (tenant, t, h2) = >>=-eq-ok (require (find_tenant topology input) _ _) _ h1 in
    let (workspace, w, h3) = >>=-eq-ok (require (find_workspace topology input) _ _) _ h2 in
    let (site, s, h4) = >>=-eq-ok (require (find_site topology input) _ _) _ h3 in
    let (environment, e, h5) = >>=-eq-ok (require (find_environment topology input) _ _) _ h4 in
    let (locale, l, h6) = >>=-eq-ok (require (find_locale topology input site) _ _) _ h5 in
    let (of, oa) = require-ok (find_organization topology input) _ _ o in
    let (tf, tb) = require-ok (find_tenant topology input) _ _ t in
    let (wf, wb) = require-ok (find_workspace topology input) _ _ w in
    let (sf, sb) = require-ok (find_site topology input) _ _ s in
    let (ef, ep) = require-ok (find_environment topology input) _ _ e in
    let (lf, le) = require-ok (find_locale topology input site) _ _ l in
    (
      cc h6,
      record {
        organization = organization;
        tenant = tenant;
        workspace = workspace;
        site = site;
        environment = environment;
        locale = locale;
        organization_found = of;
        tenant_found = tf;
        workspace_found = wf;
        site_found = sf;
        environment_found = ef;
        locale_found = lf;
        organization_active = ==-eq oa;
        tenant_active = ==-eq (both tb).1;
        workspace_active = ==-eq (both wb).1;
        site_active = ==-eq (both sb).1;
        tenant_placed = (both tb).0;
        workspace_placed = (both wb).0;
        site_placed = (both sb).0;
        environment_placed = ==-eq ep;
        locale_enabled = le;
      },
    )

then_ok {ℓ κ} :
    {A : Type ℓ} {B : Type κ} {first : Outcome A} {a : A} (next : A → Outcome B)
    {result : Outcome B}
    → first ≡ ok a
    → next a ≡ result
    → (first >>= next) ≡ result
then_ok next h k = rw h k

resolve_placed :
    (topology : PlatformTopology) (input : RequestContext)
    → Placement topology input
    → resolve topology input ≡ ok input
unfolding resolve
resolve_placed topology input p =
    then_ok _ (require_passes _ _ p.organization_found (eq_status p.organization_active)) (
      then_ok _
        (require_passes _ _ p.tenant_found
          (and_intro (eq_test p.tenant_placed) (eq_status p.tenant_active)))
        (then_ok _
          (require_passes _ _ p.workspace_found
            (and_intro (eq_test p.workspace_placed) (eq_status p.workspace_active)))
          (then_ok _
            (require_passes _ _ p.site_found
              (and_intro (eq_test p.site_placed) (eq_status p.site_active)))
            (then_ok _ (require_passes _ _ p.environment_found (eq_test p.environment_placed))
              (then_ok _ (require_passes _ _ p.locale_found p.locale_enabled) refl)))))

-- `resolve` returns exactly on the contexts that have a place in the topology, and returns the
-- context unchanged.
pub resolve_iff :
    (topology : PlatformTopology) (input result : RequestContext)
    → (resolve topology input ≡ ok result) ↔ ((input ≡ result) × Placement topology input)
resolve_iff topology input result = (
  resolve_places topology input result,
  λ (same, placed). resolve_placed topology input placed ∙ ap ok same,
)

module _ {ℓ} {A : Type ℓ} where
  chosen : (b : Bool) (x : A) {a : A} → (if b then some x else none) ≡ some a → b ≡ true
  chosen b x h = ground (arith, h)

  one_chosen :
      (b c : Bool) (x y : A) {a : A}
      → (if b then some x else (if c then some y else none)) ≡ some a
      → (b ≡ true) ⊎ (c ≡ true)
  one_chosen true c x y h = inl refl
  one_chosen false c x y h = inr (chosen c y h)

  choose : {b : Bool} {x : A} (rest : Option A) → b ≡ true → (if b then some x else rest) ≡ some x
  choose rest h = rw h refl

abbrev pub IsLocal : String → RequestContext → Type 0
IsLocal tenant input =
    (input.organization_id ≡ "local")
    × (input.tenant_id ≡ tenant)
    × (input.workspace_id ≡ "default")
    × (input.site_id ≡ "default")
    × ((input.environment_id ≡ "development") ⊎ (input.environment_id ≡ "production"))
    × (input.locale ≡ "en")

Placement-IsLocal :
    (tenant : String) (input : RequestContext)
    → Placement (create_local_topology tenant) input
    → IsLocal tenant input
unfolding create_local_topology
Placement-IsLocal tenant input p = (
  sym (==-eq (chosen ("local" == input.organization_id) _ p.organization_found)),
  sym (==-eq (chosen (tenant == input.tenant_id) _ p.tenant_found)),
  sym (==-eq (chosen ("default" == input.workspace_id) _ p.workspace_found)),
  sym (==-eq (chosen ("default" == input.site_id) _ p.site_found)),
  elim (one_chosen ("development" == input.environment_id) ("production" == input.environment_id) _
      _ p.environment_found) [ inl d ↦ inl (sym (==-eq d)) | inr d ↦ inr (sym (==-eq d)) ],
  sym (
      ==-eq
        (and_true ("default" == p.site.id) ("en" == input.locale)
          (chosen (("default" == p.site.id) && ("en" == input.locale)) _ p.locale_found)).1),
)

local_environment :
    (tenant : String) (input : RequestContext)
    → (input.environment_id ≡ "development") ⊎ (input.environment_id ≡ "production")
    → (environment : Environment) × (find_environment (create_local_topology tenant) input
        ≡ some environment)
      × (environment.site_id ≡ "default")
unfolding create_local_topology
local_environment tenant input (inl d) = (_, choose _ (eq_test (sym d)), refl)
local_environment tenant input (inr d) = (
  record {
    id = "production";
    site_id = "default";
    name = "Production";
    kind = production;
    status = active;
  },
  rw d refl,
  refl,
)

IsLocal-Placement :
    (tenant : String) (input : RequestContext)
    → IsLocal tenant input
    → Placement (create_local_topology tenant) input
unfolding create_local_topology
IsLocal-Placement tenant input (o, t, w, s, e, l) =
    let (environment, found, placed) = local_environment tenant input e in
    record {
      organization = _;
      tenant = _;
      workspace = _;
      site = _;
      environment = environment;
      locale = _;
      organization_found = choose _ (eq_test (sym o));
      tenant_found = choose _ (eq_test (sym t));
      workspace_found = choose _ (eq_test (sym w));
      site_found = choose _ (eq_test (sym s));
      environment_found = found;
      locale_found = choose _ (eq_test (sym l));
      organization_active = refl;
      tenant_active = refl;
      workspace_active = refl;
      site_active = refl;
      tenant_placed = refl;
      workspace_placed = refl;
      site_placed = refl;
      environment_placed = placed;
      locale_enabled = refl;
    }

-- In a local topology exactly the contexts of its one organization, tenant, workspace and site
-- resolve, in the development or the production environment and in English.
pub create_local_topology-IsLocal_iff :
    (tenant : String) (input : RequestContext)
    → (resolve (create_local_topology tenant) input ≡ ok input) ↔ IsLocal tenant input
create_local_topology-IsLocal_iff tenant input = (
  λ h.
      Placement-IsLocal tenant input
        (resolve_places (create_local_topology tenant) input input h).1,
  λ h. resolve_placed (create_local_topology tenant) input (IsLocal-Placement tenant input h),
)
