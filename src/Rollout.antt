-- ===== src/Rollout.antt =====
-- pkg/rollout: what the cluster says about the workloads a promotion or a restart rolls.
pub mod Workload
pub mod Complete
