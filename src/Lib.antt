-- ===== src/Lib.antt =====
-- Meshonator: the core of a manager for fleets of mesh radios, as definitions that compute and
-- theorems about them. Services keep nodes, groups, jobs and configurations in a database; a worker
-- claims jobs and runs them; operations change the configuration of the radios through providers.
-- Paths below are under src/meshonator of the repository.
--
-- Base: shared names and lemmas: lists, sorting, membership, integers, texts, dicts.
-- Json: JSON values as Python's dicts and lists. Json/Merge: `_merge_dict` (operations/service.py),
--   `_deep_merge_dict` (jobs/queue.py) and `_merge_patch` (api/app.py).
-- Channels: `_merge_channels`, `_merge_channels_patch` and `_merge_list_patch` of the same files.
--   Channels/Clone: what jobs/queue.py and api/app.py copy from a source node.
-- Db: the rows of db/models.py. Db/Session: a session, with its pending and committed state, the
--   readings of the clock, the supply of UUIDs and the world outside; actions on it may raise.
-- Jobs: jobs/service.py; Jobs/Heartbeat: its worker heartbeats; Jobs/Race: its transactions as steps
--   of workers that share the table; Jobs/Keeps: what leaves the jobs alone. Worker:
--   jobs/worker.py.
-- Auth: auth/security.py. Discovery: discovery/service.py and expand_targets of
--   providers/utils/tcp_scan.py. Markers: map/service.py.
-- Groups: groups/service.py; Groups/Filters: the filters of dynamic groups; Groups/Resolve: all
--   members of a group; Groups/Members: nodes assigned, and removed; Groups/Relation: the members as
--   a relation.
-- Inventory: inventory/service.py; Inventory/Keys: its keys; Inventory/Reachability: its probes;
--   Inventory/Stale: its marks.
-- Sync: sync/service.py. Queue: four job handlers of jobs/queue.py; Queue/Bulk: the bulk handler;
--   Queue/Multi: the patch of several nodes; Queue/Discover: the discovery of endpoints; Queue/Run:
--   run_job; Queue/Keeps and Queue/Ends: what the handlers do to the table of jobs.
-- Console: pure helpers of api/app.py: Console/Forms reads forms, Console/Nested follows paths in
--   JSON, Console/Redact hides secrets, Console/Compare and Console/Alignment compare and align
--   nodes, Console/Summary and Console/Labels tell of a job and its patch,
--   Console/Favorites collects the favorites of radios and Console/Hops the nodes that they hear,
--   Console/Visibility tells who hears whom, Console/Baseline builds the patches for a fleet.
-- Audit: audit/service.py. Providers: providers/base.py and providers/registry.py.
-- Operations: operations/service.py; Operations/NodeDb: mutate_node_db; Operations/Configs: the
--   stored configurations.
-- Radios: providers/meshtastic/provider.py and providers/meshcore/provider.py, over their libraries:
--   Radios/Connect: connecting with retries, Radios/Sections and Radios/Channels: what is written,
--   Radios/Apply: patches and the node database, Radios/Info: what is read, Radios/Meshtastic and
--   Radios/Meshcore: the providers, Radios/Capabilities: what they say of themselves,
--   Radios/Discover: the scan of hosts and providers/utils/tcp_scan.py, Radios/JsonSafe:
--   providers/utils/json_safe.py, Radios/Settings: settings that they read.
--
-- A service method is a function from a session to its outcome and the session after it, written in
-- do notation in the order of the source. Commits and rollbacks are explicit, and so is the closing
-- of a connection under `finally`. Services call each other as in the source: the worker claims by
-- the job service, the handlers call the services, operations log by the audit service and call a
-- provider. What the source takes from outside (the radios' libraries, the probe of a host, the clock,
-- hashes, pydantic's checks) is a parameter.
--
-- Bounds: numbers are unbounded, as Python's are; a Float column is a dyadic number. The loops over
-- lists are structural recursion. The worker's loop may go on for ever, so it takes the number of
-- rounds that are looked at; a worker with `once` needs one round. The rounds of connecting are one
-- more than the retries of the settings.
--
-- Not modelled: the radios' libraries and sockets, the rendering of pages and the routes of
-- api/app.py, the reading of settings, migrations and the command line, which are I/O around the
-- services; the command line fallback of the Meshtastic provider, which nothing calls; and a database
-- that fails, other than by the unique constraints that a commit is checked against.
pub mod Base
pub mod Json
pub mod Channels
pub mod Console
pub mod Db
pub mod Discovery
pub mod Jobs
pub mod Markers
pub mod Worker
pub mod Groups
pub mod Inventory
pub mod Audit
pub mod Auth
pub mod Providers
pub mod Operations
pub mod Radios
pub mod Sync
pub mod Queue
