-- ===== src/Rollout/Workload/Partition.antt =====
-- How many pods a partitioned update replaces, counted one pod at a time.
use hoist.Prelude.{ℕ, zero, suc, ◌≡◌, arith, leb, if◌then◌else◌}
use hoist.Rollout.Workload.{partitioned_updates}

-- The pods numbered start, start + 1, … that are at or above the partition.
pub count_updated : ℕ → ℕ → ℕ → ℕ
count_updated zero partition start = 0
count_updated (suc replicas) partition start =
    let rest = count_updated replicas partition (suc start) in
    if leb partition start then suc rest else rest

-- The number of pods a rolling update replaces is the number of ordinals
-- start, …, start + replicas - 1 that are not below the partition.
pub partitioned_updates-count :
    (replicas partition start : ℕ)
    → partitioned_updates replicas partition start ≡ count_updated replicas partition start
unfolding partitioned_updates count_updated
partitioned_updates-count zero partition start = ground arith
partitioned_updates-count (suc replicas) partition start =
    ground (arith, partitioned_updates-count replicas partition (suc start))
