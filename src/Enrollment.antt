-- ===== src/Enrollment.antt =====
-- The enrollment ledger (spark_pulse/agent/enrollment.py). The lock serialises its operations, so
-- each is one step. Every write to the tables succeeds; one that raises after the working copy was
-- changed is not modelled.
pub mod Ledger
pub mod Tokens
pub mod Membership
pub mod Redemption
pub mod Access
pub mod Restart
pub mod Import
pub mod Synced
pub mod Runs
pub mod Life
pub mod SingleUse
pub mod Examples
