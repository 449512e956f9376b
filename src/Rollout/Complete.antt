-- ===== src/Rollout/Complete.antt =====
-- pkg/rollout: whether a rollout has finished, per kind, as kubectl's viewers decide it. The
-- records hold the fields of the Kubernetes objects that the code reads.
pub mod Finished
use hoist.Prelude.{
  ℕ, ◌-◌, Bool, true, false, not, ◌&&◌, ◌||◌, List, [], ◌∷◌, ◌++◌, Option, none, some, Text, codes,
  text_eq, ltb, ◌==◌, decimal, quoted, if◌then◌else◌,
}
use hoist.Rollout.Workload.{partitioned_updates, on_delete}

pub record Condition : Type 0 where
  pub kind : Text
  pub reason : Text

pub record Deployment : Type 0 where
  pub name : Text
  pub generation : ℕ
  pub spec_replicas : Option ℕ
  pub observed_generation : ℕ
  pub replicas : ℕ
  pub updated_replicas : ℕ
  pub available_replicas : ℕ
  pub conditions : List Condition

pub record StatefulSet : Type 0 where
  pub name : Text
  pub generation : ℕ
  pub spec_replicas : Option ℕ
  pub strategy : Text
  pub partition : Option ℕ
  pub ordinals : Option ℕ
  pub observed_generation : ℕ
  pub ready_replicas : ℕ
  pub updated_replicas : ℕ
  pub current_replicas : ℕ
  pub update_revision : Text
  pub current_revision : Text

pub record DaemonSet : Type 0 where
  pub name : Text
  pub generation : ℕ
  pub strategy : Text
  pub observed_generation : ℕ
  pub updated_number_scheduled : ℕ
  pub desired_number_scheduled : ℕ
  pub number_available : ℕ

abbrev pub or_default : ℕ → Option ℕ → ℕ
or_default d none = d
or_default d (some n) = n

unfoldable pub deadline_passed : List Condition → Bool
deadline_passed [] = false
deadline_passed (c ∷ cs) =
    (text_eq c.kind (codes "Progressing") && text_eq c.reason (codes "ProgressDeadlineExceeded"))
    || deadline_passed cs

pub record Rollout : Type 0 where
  pub complete : Bool
  pub deadline_exceeded : Bool
  pub detail : Text

abbrev waiting : Text → Rollout
waiting d = record { complete = false; deadline_exceeded = false; detail = d }

abbrev finished : Text → Rollout
finished d = record { complete = true; deadline_exceeded = false; detail = d }

abbrev of_count : Text → ℕ → Text → ℕ → Text → Text
of_count start n between k rest = start ++ (decimal n ++ (between ++ (decimal k ++ rest)))

-- deploymentRolloutComplete.
unfoldable pub deployment_rollout_complete : Deployment → Rollout
deployment_rollout_complete d =
    let want = or_default 1 d.spec_replicas in
    if ltb d.observed_generation d.generation
    then waiting (codes "waiting for the deployment spec update to be observed")
    else if deadline_passed d.conditions
    then record {
      complete = false;
      deadline_exceeded = true;
      detail = codes "deployment " ++ (quoted d.name ++ codes " exceeded its progress deadline");
    }
    else if ltb d.updated_replicas want
    then waiting (
        of_count (codes "waiting for rollout to finish: ") d.updated_replicas (codes " out of ")
          want (codes " new replicas have been updated"))
    else if ltb d.updated_replicas d.replicas
    then waiting (
        codes "waiting for rollout to finish: "
        ++ (decimal (d.replicas - d.updated_replicas)
            ++ codes " old replicas are pending termination"))
    else if ltb d.available_replicas d.updated_replicas
    then waiting (
        of_count (codes "waiting for rollout to finish: ") d.available_replicas (codes " of ")
          d.updated_replicas (codes " updated replicas are available"))
    else finished (codes "deployment " ++ (quoted d.name ++ codes " successfully rolled out"))

-- statefulSetRolloutComplete.
unfoldable pub stateful_set_rollout_complete : StatefulSet → Rollout
stateful_set_rollout_complete s =
    let replicas = or_default 1 s.spec_replicas in
    let want = partitioned_updates replicas (or_default 0 s.partition) (or_default 0 s.ordinals) in
    if text_eq s.strategy on_delete
    then waiting (
        codes "statefulset "
        ++ (quoted s.name
            ++ codes
                " uses the OnDelete update strategy: its pods take the new template only when deleted"))
    else if (s.observed_generation == 0) || ltb s.observed_generation s.generation
    then waiting (codes "waiting for the statefulset spec update to be observed")
    else if ltb s.ready_replicas replicas
    then waiting (
        codes "waiting for "
        ++ (decimal (replicas - s.ready_replicas) ++ codes " pods to be ready"))
    else if ltb want replicas
    then (if ltb s.updated_replicas want
        then waiting (
            of_count (codes "waiting for partitioned roll out to finish: ") s.updated_replicas
              (codes " out of ") want (codes " new pods have been updated"))
        else finished (
            of_count (codes "partitioned roll out complete: ") s.updated_replicas
              (codes " new pods have been updated; ") (replicas - want)
              (codes " below the partition were not")))
    else if ltb s.updated_replicas replicas || not (text_eq s.update_revision s.current_revision)
    then waiting (
        codes "waiting for statefulset rolling update to complete "
        ++ (decimal s.updated_replicas ++ (codes " pods at revision " ++ s.update_revision)))
    else finished (
        codes "statefulset "
        ++ (quoted s.name
            ++ (codes " rolling update complete "
                ++ (decimal s.current_replicas
                    ++ (codes " pods at revision " ++ s.current_revision)))))

-- daemonSetRolloutComplete.
unfoldable pub daemon_set_rollout_complete : DaemonSet → Rollout
daemon_set_rollout_complete d =
    if text_eq d.strategy on_delete
    then waiting (
        codes "daemon set "
        ++ (quoted d.name
            ++ codes
                " uses the OnDelete update strategy: its pods take the new template only when deleted"))
    else if ltb d.observed_generation d.generation
    then waiting (codes "waiting for the daemon set spec update to be observed")
    else if ltb d.updated_number_scheduled d.desired_number_scheduled
    then waiting (
        codes "waiting for daemon set "
        ++ (quoted d.name
            ++ of_count (codes " rollout to finish: ") d.updated_number_scheduled (codes " out of ")
                d.desired_number_scheduled (codes " new pods have been updated")))
    else if ltb d.number_available d.desired_number_scheduled
    then waiting (
        codes "waiting for daemon set "
        ++ (quoted d.name
            ++ of_count (codes " rollout to finish: ") d.number_available (codes " of ")
                d.desired_number_scheduled (codes " updated pods are available")))
    else finished (codes "daemon set " ++ (quoted d.name ++ codes " successfully rolled out"))
