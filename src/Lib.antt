-- ===== src/Lib.antt =====
-- COMRAD's manager and its workers. The manager keeps nodes, slots, profiles, tasks and accounts in
-- one database, plans which copy of which model runs where, hands tasks to ready slots, and charges
-- the work that is reported.
--
-- All operations on the database are callbacks of the store's `Update`, under one lock; here each is
-- a function from the database to the database, with an error where it has one. Clock readings and
-- random ids are arguments. An `int64` is its two's-complement pattern and wraps; a counter that only
-- goes up from 0 and a time in nanoseconds are unbounded numbers; a map is an association list in the
-- order of a range over it; strings compare byte by byte, and their case is that of ASCII.
--
--   Prelude      tests, lists, 64-bit words, maps, the stable sort, texts and sets
--                (internal/comrad/util.go, sort.go)
--   Types        the records and states of internal/comrad/types.go
--   Store        internal/comrad/store.go: open, migrate, update, over a backend that is a parameter, and
--                in Store.JsonFile the one of internal/comrad/store_backend.go, over its encoder
--   Accounting   internal/comrad/compute_accounting.go and the users and adjustments of
--                manager_accounting_admin.go
--   Profile      internal/comrad/profile_fit.go: variants, effective profiles, resolving a model
--   Fit          internal/comrad/fit.go: whether a profile fits a slot, and why not
--   Capacity     internal/comrad/placement_capacity.go, placement_cooldown.go: what a policy wants
--   Flapping     internal/comrad/manager_worker_flapping.go
--   Quarantine   internal/comrad/quarantine.go
--   Candidates   internal/comrad/placement_plan.go: the slots that a policy may use, in their order
--   Plan         internal/comrad/placement_plan.go, placement_drain.go: the planner's state, its
--                budgets and limits, and draining
--   Planner      internal/comrad/placement_plan.go: the planner's steps, in the order of
--                `planPlacementWithCooldown`
--   WorkerState  internal/comrad/manager_worker_state.go: what a worker says of itself
--   Attempts     the life of an attempt: internal/comrad/manager_chat.go, manager_scheduler.go,
--                manager_worker_messages.go, manager_worker_security.go, manager_ws.go, in the modules
--                Attempts.Reports (the report that ends it) and Attempts.Disconnect
--   Scheduler    internal/comrad/manager_scheduler.go: the choice of a ready slot
--   Security     internal/comrad/manager_worker_security.go: sessions and the tokens of nodes
--   Sessions     internal/comrad/manager_worker_heartbeat.go, manager_worker_messages.go: workers that
--                register, and those whose heartbeats stop
--   Client       internal/comrad/manager_client.go, manager_chat.go: chats, their tasks and answers
--   Tasks        internal/comrad/manager_tasks.go: filters, pages and summaries of tasks
--   Catalog      internal/comrad/manager_admin.go, manager_profile_delete.go, manager_artifact_admin.go:
--                profiles, policies and artifacts; ProfileConfig is internal/comrad/profile_config.go,
--                and LlamaServer the arguments of internal/comrad/worker_runtime.go
--   Eviction     internal/comrad/manager_cache_eviction.go, manager_cache_eviction_state.go
--   Admin        internal/comrad/manager_admin.go, manager_worker_updates.go: nodes, bans, settings
--   ApiKeys      internal/comrad/identity.go, manager_accounting_admin.go: the keys of clients
--   Tickets      internal/comrad/manager_ws.go: the tickets of the dashboard
--   Worker       internal/comrad/worker.go, worker_task.go: a worker's slots and messages, and in its
--                modules Worker.Tasks (the execution of a task), Worker.Assignments
--                (worker_assignment.go), Worker.Restarts (worker_runtime.go) and Worker.Evict
--                (worker_cache_evict.go)
--   Scenarios    concrete data, and the theorems applied to it
--
-- The planner reads policies through Capacity and slots through Candidates; the scheduler picks a slot
-- that Attempts then reserves; reports go through Attempts to Accounting, failures to Quarantine. What a
-- worker evicts, Eviction has asked for, and learns of by the message that Worker sends.
--
-- Loops are structural, over the lists that the code ranges over. The planner's two loops up to a
-- target run on fuel, which is the target: each turn counts one copy, so it is enough.
--
-- Not modelled: HTTP, web sockets and streams, the worker's processes and transfers, the SQL backends,
-- the dashboard and the planner's explainer, which only show or move what is modelled. Where the code
-- asks one of them, its answer is an argument.
pub mod Prelude
pub mod Tasks
pub mod LlamaServer
pub mod ProfileConfig
pub mod Catalog
pub mod Eviction
pub mod ApiKeys
pub mod Tickets
pub mod Client
pub mod Sessions
pub mod Admin
pub mod Worker
pub mod Types
pub mod Store
pub mod Accounting
pub mod Profile
pub mod Fit
pub mod Capacity
pub mod Flapping
pub mod Quarantine
pub mod Candidates
pub mod Plan
pub mod Planner
pub mod WorkerState
pub mod Attempts
pub mod Scheduler
pub mod Security
pub mod Scenarios
