-- ===== src/Rollout/Workload.antt =====
-- pkg/rollout/workload.go: a restartable workload as it was read, and what its settings say about
-- a restart. Counts are never negative, and an int32 is its bit pattern.
pub mod Concerns
pub mod Partition
use hoist.Prelude.{
  ℕ, zero, suc, ◌+◌, ◌-◌, ◌%◌, ◌^◌, Bool, true, false, not, ◌&&◌, ◌||◌, List, [], ◌∷◌, ◌++◌, Option,
  none, some, Text, codes, text_eq, is_empty, has_prefix, leb, ltb, ◌==◌, decimal, join, sort_texts,
  if◌then◌else◌,
}

-- A restartable kind; Workload builds the status with no other.
pub data Kind : Type 0 where
  deployment : Kind
  stateful_set : Kind
  daemon_set : Kind

abbrev pub kind_text : Kind → Text
kind_text deployment = codes "Deployment"
kind_text stateful_set = codes "StatefulSet"
kind_text daemon_set = codes "DaemonSet"

-- RestartableKinds.
abbrev pub restartable_kinds : List Text
restartable_kinds = codes "Deployment" ∷ codes "StatefulSet" ∷ codes "DaemonSet" ∷ []

unfoldable pub is_one_of : List Text → Text → Bool
is_one_of [] k = false
is_one_of (x ∷ xs) k = text_eq x k || is_one_of xs k

-- IsRestartable.
unfoldable pub is_restartable : Text → Bool
unfolding is_one_of
is_restartable k = is_one_of restartable_kinds k

abbrev pub on_delete : Text
on_delete = codes "OnDelete"

pub record ContainerImage : Type 0 where
  pub name : Text
  pub init : Bool
  pub image : Text

pub record WorkloadStatus : Type 0 where
  pub kind : Kind
  pub namespace : Text
  pub name : Text
  pub images : List ContainerImage
  pub complete : Bool
  pub deadline_exceeded : Bool
  pub detail : Text
  pub restarted_at : Text
  pub replicas : ℕ
  pub strategy : Text
  pub max_unavailable : ℕ
  pub max_surge : ℕ
  pub partition : ℕ
  pub ordinal_start : ℕ
  pub parallel_pods : Bool
  pub readiness_probes : ℕ

-- %d of an int32.
abbrev int32_text : ℕ → Text
int32_text n =
    let k = n % 2 ^ 32 in if ltb k (2 ^ 31) then decimal k else b'-' ∷ decimal (2 ^ 32 - k)

-- The difference of two counts is at least -2^31, and below 0 it is replaced by 0, which is where
-- subtraction on ℕ stops.
unfoldable pub partitioned_updates : ℕ → ℕ → ℕ → ℕ
partitioned_updates replicas partition start =
    let below = partition - start in
    if ltb replicas below then replicas - replicas else replicas - below

-- strings.Contains.
unfoldable pub contains : Text → Text → Bool
contains [] sub = has_prefix [] sub
contains (c ∷ s) sub = has_prefix (c ∷ s) sub || contains s sub

abbrev pub digest_mark : Text
digest_mark = codes "@sha256:"

unfoldable pub unpinned : List ContainerImage → List Text
unpinned [] = []
unpinned (i ∷ images) =
    let rest = unpinned images in
    if not (contains i.image digest_mark) then i.image ∷ rest else rest

unfoldable pub unpinned_images : WorkloadStatus → List Text
unpinned_images w = sort_texts (unpinned w.images)

unfoldable pub on_delete_concern : WorkloadStatus → Text
on_delete_concern w =
    codes
      "update strategy is OnDelete: the restart stamps the pod template, but no pod restarts until it is deleted, and hoist will not report this "
    ++ (kind_text w.kind ++ codes " as rolled")

unfoldable pub deployment_concerns : WorkloadStatus → List Text
deployment_concerns w =
    if text_eq w.strategy (codes "Recreate")
    then codes "strategy is Recreate: every pod stops before any new one starts" ∷ []
    else if leb w.replicas w.max_unavailable
    then (codes "maxUnavailable is "
        ++ (decimal w.max_unavailable
            ++ (codes " of "
                ++ (decimal w.replicas ++ codes " replica(s): every pod can be down at once"))))
      ∷ []
    else if w.replicas == 1
    then codes
        "only 1 replica: it keeps serving until the replacement is ready, but there is no redundancy if the replacement fails"
      ∷ []
    else []

unfoldable pub partition_concerns : WorkloadStatus → List Text
partition_concerns w =
    let rolled = partitioned_updates w.replicas w.partition w.ordinal_start in
    if ltb rolled w.replicas
    then (if rolled == 0
        then (codes "rollingUpdate.partition is "
            ++ (decimal w.partition
                ++ (codes ", above every pod's ordinal ("
                    ++ (decimal w.ordinal_start
                        ++ (codes " to "
                            ++ (int32_text (w.ordinal_start + w.replicas + (2 ^ 32 - 1))
                                ++ codes "): no pod restarts"))))))
          ∷ []
        else (codes "rollingUpdate.partition is "
            ++ (decimal w.partition
                ++ (codes ": only pods with ordinal "
                    ++ (decimal w.partition
                        ++ (codes " and above restart; the other "
                            ++ (decimal (w.replicas - rolled) ++ codes " keep running"))))))
          ∷ [])
    else []

unfoldable pub gap_concerns : WorkloadStatus → List Text
gap_concerns w =
    if w.replicas == 1
    then codes
        "only 1 replica: a StatefulSet stops its pod before starting the replacement, so nothing serves until the new one is ready"
      ∷ []
    else if w.parallel_pods && leb w.replicas w.max_unavailable
    then (codes "maxUnavailable is "
        ++ (decimal w.max_unavailable
            ++ (codes " of "
                ++ (decimal w.replicas
                    ++ codes
                        " replica(s) under the Parallel policy: every pod can be down at once"))))
      ∷ []
    else []

unfoldable pub daemon_set_concerns : WorkloadStatus → List Text
daemon_set_concerns w =
    if w.max_surge == 0
    then (if leb w.replicas w.max_unavailable
        then (codes "maxUnavailable is "
            ++ (decimal w.max_unavailable
                ++ (codes " of "
                    ++ (decimal w.replicas
                        ++ codes
                            " pod(s) and maxSurge is 0: every node's pod can be down at once"))))
          ∷ []
        else codes
            "maxSurge is 0: on each node the old pod stops before its replacement starts, so that node runs none in between"
          ∷ [])
    else []

unfoldable pub strategy_concerns : WorkloadStatus → Kind → List Text
strategy_concerns w deployment = deployment_concerns w
strategy_concerns w stateful_set = partition_concerns w ++ gap_concerns w
strategy_concerns w daemon_set = daemon_set_concerns w

unfoldable pub probe_concerns : WorkloadStatus → List Text
probe_concerns w =
    if w.readiness_probes == 0
    then codes
        "no readiness probe: a new pod counts as available the moment it starts, before it can serve"
      ∷ []
    else []

unfoldable pub image_concerns : List Text → List Text
image_concerns [] = []
image_concerns (i ∷ is) =
    (codes "unpinned image(s) "
      ++ (join (codes ", ") (i ∷ is)
          ++ codes
              ": a replacement pod can pull a different build than the one running now, so this restart may not be a no-op"))
    ∷ []

abbrev no_pod_concern : Kind → Text
no_pod_concern daemon_set =
    codes "scheduled on no node: a restart changes the pod template but starts no pod"
no_pod_concern deployment =
    codes "scaled to 0 replicas: a restart changes the pod template but starts no pod"
no_pod_concern stateful_set =
    codes "scaled to 0 replicas: a restart changes the pod template but starts no pod"

-- GracefulRestartConcerns.
unfoldable pub graceful_restart_concerns : WorkloadStatus → List Text
graceful_restart_concerns w =
    if w.replicas == 0
    then no_pod_concern w.kind ∷ []
    else (if text_eq w.strategy on_delete
        then on_delete_concern w ∷ []
        else strategy_concerns w w.kind)
      ++ (probe_concerns w ++ image_concerns (unpinned_images w))
