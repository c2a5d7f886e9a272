-- ===== src/Runtime.antt =====
-- The native runtime (spark_pulse/tools/native_runtime.py), by the parts it takes from a node.
pub mod Nodes
pub mod Teardown
pub mod Evidence
pub mod Lifecycle
pub mod Sweep
pub mod Reading
pub mod Release
pub mod Order
pub mod Cleared
pub mod Ports
pub mod Free
pub mod Places
pub mod Choice
pub mod Examples
pub mod Status
pub mod Flow
pub mod Plan
pub mod Agents
pub mod Reap
pub mod Pull
pub mod Wait
pub mod Gang
pub mod Start
pub mod Create
pub mod Outcomes
pub mod Traces
pub mod Workers
pub mod Acts
pub mod Launching
pub mod Covering
pub mod Owing
pub mod Failing
pub mod Stopped
pub mod Reaped
pub mod Listing
pub mod Marks
pub mod StartExamples
