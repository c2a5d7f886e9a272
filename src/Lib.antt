-- ===== src/Lib.antt =====
-- Spark Pulse: the control plane that deploys model servers on a desk of GPU machines.
--
-- The program's parts that are modelled, and the files that model them:
--
-- * Sessions (spark_pulse/sessions.py): the table of logins. `create`, `get`, `remove`, `sweep`,
--   `count` and `clear` are functions of the table; `get` drops the row that it finds expired.
-- * Hub (spark_pulse/agent/hub.py): one `AgentConnection` per stream (Hub/Connection.antt) and the
--   registry `AgentHub` (Hub.antt). A connection is an object with an identity, so the hub's state
--   holds a heap of connections beside the registry of references to them, and a heap of futures.
--   `call` is two steps, what it does before its wait (`begin_call`) and after it (`end_call`), so
--   that other steps of the event loop come between them (Hub/Steps.antt).
-- * Records (spark_pulse/tools/deployment_records.py): the `deployments` table, the legacy file that
--   is imported once, and every operation on them. A call that may raise returns a `Result`.
-- * Runtime (spark_pulse/tools/native_runtime.py): stopping and deleting a deployment, its pulls
--   (Runtime/Lifecycle.antt), the teardown of a gang (Runtime/Teardown.antt), the sweep of orphans
--   (Runtime/Sweep.antt), the ports that runs hold and get (Runtime/Ports.antt, against a separate
--   account of where a run is in Runtime/Places.antt), the status that is reported
--   (Runtime/Status.antt) and the listing against this machine's containers (Runtime/Listing.antt,
--   Runtime/Marks.antt). `start` is in five files: the reap of earlier generations
--   (Runtime/Reap.antt), the pulls (Runtime/Pull.antt), the section under the lock
--   (Runtime/Gang.antt), the waits (Runtime/Wait.antt), and what chains them (Runtime/Start.antt),
--   with `create_deployment` and its threads above it (Runtime/Create.antt). A call that raises is
--   an `Outcome` (Runtime/Flow.antt), which tells the runtime's own error from a cancelled pull and
--   from any other exception. What other threads do before a lock is taken is a function of the
--   world, a parameter. It works on the records of Records. What a machine answers is a function of
--   the history of the questions (Runtime/Nodes.antt, Runtime/Agents.antt), so every claim on
--   evidence is a claim on that history.
-- * Reconciler (spark_pulse/tools/reconciler.py): the intents on the records, and the sweep that
--   makes them true through the runtime's `stop_deployment`, `delete_deployment` and
--   `list_deployments`.
-- * EventLog (spark_pulse/tools/event_log.py): the table of events, its retention and its pages.
-- * Enrollment (spark_pulse/agent/enrollment.py): the tokens and the membership list that every
--   connection of an agent is judged by, the working copy, the two tables, the import of the file
--   at the first start (Enrollment/Import.antt), and whole lives of starts, operations and restarts
--   (Enrollment/Life.antt).
-- * Schedules (spark_pulse/tools/scheduled_deploys.py): deployments that wait on a download.
-- * Prelude (what the parts share): Boolean tests, lists, dictionaries as association lists,
--   `str.strip`.
--
-- Conventions. A dictionary and a table by its primary key is an association list. Absent values:
-- an absent text is "", an absent list is [], any other is `none`. Times are natural numbers, in
-- milliseconds for the hub, microseconds for the event log and seconds elsewhere. A lock or a
-- database transaction makes one step of what it holds. SHA-256, fresh ids and secrets, the clock,
-- date parsing, the redaction of secrets, local addresses, what containers do and what a create
-- gives are parameters.
--
-- Bounds and fuel: `confirm_loop` runs on the number of looks that its deadline leaves, `rpc_loop`
-- and `ready_loop` on the number of rounds that theirs leave, `pull_rounds` on the attempts that are
-- left of three, and `allocate_from` on the number of ports in the range. Each is exact: the code
-- ends at the same point, so none runs out early.
--
-- Not modelled: a write to the ledger's tables that raises after the working copy was changed; what
-- other threads do between the first look of `stop_deployment` at a record and its lock; a database
-- that fails while the event log is trimmed or swept; planning and preflight, how mods and scripts get into a container (only how that
-- ends), the log tails in the messages of a failed wait, the reconciler's thread, the agent's own
-- program in Rust, the web interface, the HTTP routers, image and model downloads, discovery,
-- bootstrap and ssh, and the mocks. The calls of the listeners that raise are not told apart from
-- those that return. Log lines are left out.
mod Prelude
pub mod Sessions
pub mod Hub
pub mod Records
pub mod Runtime
pub mod Enrollment
pub mod Schedules
pub mod EventLog
pub mod Reconciler
