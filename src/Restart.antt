-- ===== src/Restart.antt =====
-- src/restart_policy.c and src/sp_recovery.c: whether a domain that crashed is restarted, and the
-- recovery of a secure partition.
pub mod Policy
pub mod Recovery
pub mod Budget
