-- ===== src/Rollout/Workload/Concerns.antt =====
-- What it means that a workload's restart raises no concern.
use hoist.Prelude.{
  ◌≡◌, ◌≤◌, ◌<◌, ◌⊎◌, ◌↔◌, false, List, [], ◌∷◌, ◌++◌, Text, text_eq, codes, arith, if◌then◌else◌,
}
use hoist.Rollout.Workload.{
  Kind, deployment, stateful_set, daemon_set, WorkloadStatus, on_delete, partitioned_updates,
  unpinned_images, graceful_restart_concerns, strategy_concerns, deployment_concerns,
  partition_concerns, gap_concerns, daemon_set_concerns, probe_concerns, image_concerns,
  on_delete_concern,
}

-- What each kind's own settings must say.
abbrev pub Seamless : WorkloadStatus → Kind → Type 0
Seamless w deployment =
    (text_eq w.strategy (codes "Recreate") ≡ false)
    × (w.max_unavailable < w.replicas)
    × (2 ≤ w.replicas)
Seamless w stateful_set =
    (w.replicas ≤ partitioned_updates w.replicas w.partition w.ordinal_start)
    × (2 ≤ w.replicas)
    × ((w.parallel_pods ≡ false) ⊎ (w.max_unavailable < w.replicas))
Seamless w daemon_set = 1 ≤ w.max_surge

append-nil_iff : {A : Type 0} (xs ys : List A) → (xs ++ ys ≡ []) ↔ ((xs ≡ []) × (ys ≡ []))
append-nil_iff [] ys = ground arith
append-nil_iff (x ∷ xs) ys = ground arith

strategy_concerns-none :
    (w : WorkloadStatus) (k : Kind) → 1 ≤ w.replicas → (strategy_concerns w k ≡ []) ↔ Seamless w k
unfolding strategy_concerns deployment_concerns partition_concerns gap_concerns daemon_set_concerns
strategy_concerns-none w deployment h = ground arith
strategy_concerns-none w stateful_set h =
    ground (arith, append-nil_iff (partition_concerns w) (gap_concerns w))
strategy_concerns-none w daemon_set h = ground arith

probe_concerns-none : (w : WorkloadStatus) → (probe_concerns w ≡ []) ↔ (1 ≤ w.readiness_probes)
unfolding probe_concerns
probe_concerns-none w = ground arith

image_concerns-none : (is : List Text) → (image_concerns is ≡ []) ↔ (is ≡ [])
unfolding image_concerns
image_concerns-none [] = ground arith
image_concerns-none (i ∷ is) = ground arith

-- A workload with replicas raises no concern exactly when its strategy is not OnDelete, its kind's
-- settings are seamless, it has a readiness probe and none of its images is without a digest; a
-- workload with no replicas always raises one.
pub graceful_restart_concerns-none :
    (w : WorkloadStatus)
    → (graceful_restart_concerns w ≡ []) ↔ (
        (1 ≤ w.replicas)
        × (text_eq w.strategy on_delete ≡ false)
        × Seamless w w.kind
        × (1 ≤ w.readiness_probes)
        × (unpinned_images w ≡ []))
unfolding graceful_restart_concerns
graceful_restart_concerns-none w =
    let strategy = strategy_concerns-none w w.kind in
    let probes = probe_concerns-none w in
    let images = image_concerns-none (unpinned_images w) in
    let tail = append-nil_iff (probe_concerns w) (image_concerns (unpinned_images w)) in
    let all =
      append-nil_iff
        (if text_eq w.strategy on_delete
          then on_delete_concern w ∷ []
          else strategy_concerns w w.kind)
        (probe_concerns w ++ image_concerns (unpinned_images w)) in
    ground arith
