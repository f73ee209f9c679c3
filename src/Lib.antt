-- ===== src/Lib.antt =====
-- pyiamkit: identity and access management for Python services. This library models the core of its
-- authorization: who may do what in which tenant, and why.
--
-- The program's parts and the files that model them:
-- + src/pyiamkit/shared: Shared/Time (moments and `_require_utc`), Shared/Events (DomainEvent),
--   Shared/Ids (`str` of an identifier).
-- + src/pyiamkit/identity: Identity/Values (value objects, profiles, events, errors), Identity/Creation
--   and Identity/Aggregate (aggregates/identity.py) with Lifecycle, Identity/Memory (the in-memory
--   repository) and Identity/Service (application/service.py) with Entries, Narrowing, Subjects and
--   Links, about what the repository keeps.
-- + src/pyiamkit/authentication/domain: Authentication/Values (value objects, events, errors),
--   Authentication/Context (context.py), Authentication/Session (session.py) with Lifecycle and
--   Storage, Authentication/Credential and Authentication/MfaFactor with Lifecycle.
-- + src/pyiamkit/authentication/adapters/memory.py: Authentication/Memory with Credentials, Sessions
--   and Factors, each a Copier of Shared/Stores.
-- + src/pyiamkit/authentication/application.py: Authentication/Service with Calls, Saving and
--   Revocation; mfa.py: Authentication/Mfa with Rotation and StepUp.
-- + src/pyiamkit/tenancy/domain: Tenancy/Values (value objects, events, errors), Tenancy/Tenant and
--   Tenancy/Membership (the aggregates); below them Lifecycle, about sequences of their calls.
-- + src/pyiamkit/authorization/domain: Authorization/Values (value objects, events, errors,
--   permission codes), Authorization/Role with Role/Laws, Authorization/RoleBinding with
--   RoleBinding/Lifecycle, Authorization/Requests (governance.py and the requests of decision.py),
--   Authorization/Decisions (decision.py, and audit.py above it).
-- + src/pyiamkit/authorization/hierarchy.py: Authorization/Hierarchy with Sorting (the order of the
--   parents), Paths, Coverage, Effective, Reach, Ancestors and Clear; its
--   RoleHierarchyApplicationService: Hierarchy/Changes (what the methods check) and Hierarchy/Service
--   with Links, Saving, Removing, Acyclic and Returning.
-- + src/pyiamkit/authorization/governance.py: Authorization/Governance with Decimals (the numbers that
--   a rule compares), Constraints and Duties; its AccessGovernanceApplicationService:
--   Governance/Registration with Registered and Exclusion.
-- + src/pyiamkit/authorization/engine.py: Authorization/Engine with Repositories (what it takes from
--   its ports), Calls (the decisions, their record and the public calls), Grants, Soundness, Sink (what
--   a sink that raises does), Outcomes, Completeness, Reasons, Violations, Denials, Events and Audit.
-- + src/pyiamkit/authorization/adapters/memory.py: Authorization/Memory with Bindings (the repository
--   of bindings), Roles (that of roles, which the service on the hierarchy takes as a RolePort) and
--   Rules (those of permissions, constraints and separation-of-duty rules); Filled gives the engine
--   its ports by them, and Enforced follows a constraint from its registration to a decision.
-- + src/pyiamkit/tenancy/adapters/memory.py: Tenancy/Memory with Tenants and Memberships.
-- + src/pyiamkit/authorization/binding_application.py: Authorization/Assignment with
--   Assigned and Changes.
-- + src/pyiamkit/operations: Operations/State (state.py) with Freshness, Operations/Cache
--   (cache.py) with Kept, Operations/Revocation (revocation.py) with Keys, Recorded and Newest, each
--   with its part of adapters/memory.py; Operations/Effects, Operations/Metadata and Operations/Mutations
--   (mutations.py and invalidation.py) with Staleness and Uncached; Operations/Checks and
--   Operations/Runtime (runtime.py) with Bounded, Shrinking, Justified and Answers.
-- Prelude has the shared tests, lists, results, texts, sets and maps, and Prelude/Actions, the monad of
-- a state and an exception; Shared/Runs runs the calls of an aggregate, and Shared/Stores is what the
-- in-memory repositories have in common. Tests runs the definitions on a small organisation.
--
-- How they interact: `authorize` of the engine reads the identity, the tenant, the Membership and the
-- bindings of a subject from its repositories, asks the hierarchy for a path from each bound Role to
-- the permission, asks the governance evaluators for a violation, and makes a decision, which it hands
-- to the audit recorder; what the audit sink raises there goes out of `authorize` in place of the
-- decision. The aggregates change by their methods alone, each of which is a function
-- from the moment and the aggregate to the changed aggregate or the exception; their pending events
-- are part of them. The binding service checks a new assignment against them all, asks the same
-- separation-of-duties evaluator, and stores the binding; the governance service stores the rules that
-- the evaluators read, and the hierarchy service writes the parents that the searches follow.
-- An application service reads a copy from its repository, calls one method of the aggregate, saves a
-- copy of it and publishes its events. In the hierarchy service the sink may raise after the save, and
-- the Role is then stored; the sinks of the other services are those that append to a list. The sink
-- of operations/mutations.py turns each event into new versions, an invalidation and, where the event
-- takes something away, a revocation marker; a cached decision is used only under the stamp of
-- versions that it was made under. The runtime stands in front of the engine: it asks the markers and
-- the cache first, and reads the versions again behind each answer; since others write them, a record
-- has what the reads of one iteration gave.
--
-- How the code is read: an identifier is the number of its UUID, and a new one is an argument, as is
-- the clock's moment. An exception is a value of the component's error type. A set is a list in the
-- order of insertion, a mapping an association list. A text is the list of its code points; the case
-- of letters and `isalnum` come from a record of functions with the two laws that are used. The value
-- of a resource's attribute is what the program asks of it: whether it is a bool, its text, and the
-- identity that it equals.
--
-- Bounds: the loop of the runtime runs on the iterations that its settings leave. The searches of
-- the hierarchy run on the levels that are left, `max_depth + 1 - depth`, where nought is the
-- program's own error, so that they need no other fuel. `Decimal` reads ASCII digits, and compares
-- exactly.
--
-- Not modelled: message and detail texts and random event identifiers; the application services of the
-- catalog and of tenancy, privileged access; the digest of a request, which is the key of the cache;
-- moments beyond the last year of `datetime`; rate limits, tokens and federation; audit outbox,
-- provisioning; persistence, Redis, HTTP and framework glue, and cryptography, which call third-party
-- libraries. The record Ports states what the engine takes from its repositories: an answer of
-- `find_active` or `find_active_for_subject` is well formed, of the subject, in the tenant and active.
-- The provider of one-time codes and the standard library's readers of identifiers and moments are
-- parameters.
pub mod Prelude
pub mod Shared
pub mod Identity
pub mod Authentication
pub mod Tenancy
pub mod Authorization
pub mod Operations
pub mod Tests
