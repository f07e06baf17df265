-- ===== src/Lib.antt =====
-- GridStory, a content management system: a model of the core services and of the rules that
-- they enforce. The schema package (packages/schema/src) holds the contracts and the pure
-- algorithms, the core package (packages/core/src) the services over a repository. Errors that
-- the code throws are values of a result type; state is passed explicitly; arrays are lists and
-- maps are association lists in insertion order.
--
-- packages/core/src/errors.ts is Errors, packages/schema/src/context.ts and content.ts are
-- Context. packages/core/src/authorization.ts is Authorization: Actions has the action names
-- and the default roles, Authorization itself the policy (decide, assert), Meaning what a
-- decision means. packages/schema/src/canonical.ts is Canonical (canonicalStringify) and
-- Lifecycle.Document (the normalised document). packages/schema/src/lifecycle.ts is Lifecycle:
-- Changes and Diff compare two documents (diffFields, diffNamedContracts, diffSchemas,
-- diffComponents, diffSchemaIr), Plan makes the migration plan (createSchemaMigrationPlan),
-- Drift finds drift (detectSchemaDrift). packages/core/src/schema-lifecycle-service.ts is
-- Lifecycle.Deployment (assess, deploySource, initialize, drift) over the store of one scope.
--
-- packages/schema/src/routing.ts is Routing: Paths has normalizeRoutePath, Routing itself the
-- RedirectResolver, whose walk takes one round more than there are redirects, which is enough
-- since each round but the last leaves another source; Routing.Content has buildContentRoute
-- and the resolve of packages/core/src/routing-service.ts. packages/core/src/scope-registry.ts
-- is Topology (resolve, createLocalTopology), packages/core/src/tenant-scope.ts is Tenancy
-- (contentScopeKey, contentScopeCachePrefix, contentEventCacheTags, cacheTagBelongsToScope and
-- the checks). packages/schema/src/release.ts is Releases;
-- packages/core/src/release-repository.ts is Releases.Store, with the world that an operation
-- of the service reads and changes; packages/core/src/release-service.ts is Releases.Changes
-- (the releases that are saved) and Releases.Service (create, validate, schedule,
-- cancelSchedule, execute, rollback, processDue). The content service, the analytics and the
-- clock are the record Services, and a call may fail and change the content at any point.
-- Releases.Evolution has the state machine of releases, Releases.Rules the rules for operations
-- that keep to it, Additions what a creation adds, Fate what may become of a stored release,
-- Releases.History the sequences of operations.
--
-- packages/core/src/sqlite-repository.ts is Content: Content itself has the rows, the tables
-- (lists of rows) and what the repository returns of them, Statements the single SQL statements
-- with the keys they check, Reads the queries (list, getById, getBySlug, the revisions and the
-- audit events), Repository the operations (create, updateDraft, publish, publishMany,
-- deleteEntry, getTranslationGroup), Queue the durable jobs and Outbox the outbox events
-- (claim, complete, fail, retry). A transaction restores all tables when its work throws. The
-- clock, the new ids and the hash of an audit event are the record Engine, and a call of them
-- takes the next value. Content.Audit is packages/core/src/audit-service.ts. Content.Commands
-- is an abstract machine that knows the draft and the published revision of each entry and
-- nothing else, Refinement relates the operations to it, Soundness is about the tables they
-- leave, Progress about when they return, Due says when a job is due, and Claims, Selection,
-- Dues, Advance and Backlog are about the claims of jobs. That ids are new is a hypothesis on
-- the Engine where an operation is to return (HasRoom, IsFresh); Page and Sample have the
-- databases of the tests.
--
-- packages/core/src/content-service.ts is Content.Service: Service itself has create,
-- updateDraft, publish and their checks, Assessment has assessRelease, Joint previewRelease,
-- publishRelease and rollbackRelease; Publishing, Releases, Undo and Failures are about
-- publish, publishRelease and rollbackRelease. The record Options has the schemas, the
-- validation of content, the collection of references and the gates of governance, quality and
-- workflow; the workflow has a state of its own, which its calls change, and a gate that is not
-- configured is one that admits everything. Each loop is over the entries or schemas it is
-- given.
--
-- Prelude has the shared types, tests, list and map operations and their lemmas. The decimal
-- digits of a number take as many rounds as the number, which is enough since each round
-- divides by ten.
--
-- Not modelled: the optional details of errors, the values that a schema change shows before
-- and after, the collation of localeCompare (a parameter), the SHA-256 and the generated
-- TypeScript text (parameters of the lifecycle), content validation (a parameter of the
-- deployment), the preview of the release service, the release, webhook and schema tables of
-- the SQLite repository, its portable export and import, the PostgreSQL repository, telemetry,
-- a database that another connection keeps busy (a transaction always begins), persistence,
-- HTTP and user interface code.
pub mod Authorization
pub mod Canonical
pub mod Content
pub mod Context
pub mod Errors
pub mod Lifecycle
pub mod Prelude
pub mod Releases
pub mod Routing
pub mod Tenancy
pub mod Topology
