-- ===== src/Resolve/Batch.antt =====
-- pkg/resolve/resolve.go: Resolve, all repositories of an environment, and what BuildPlanWith takes of
-- the outcome.
pub mod Writable
use hoist.Prelude.{
  Bool, true, false, not, ◌&&◌, ◌||◌, List, [], ◌∷◌, ◌++◌, Option, none, some, Text, codes, text_eq,
  is_empty, quoted, concat, sort_texts, if◌then◌else◌,
}
use hoist.Redact.{Registry}
use hoist.Image.Ref.{Ref}
use hoist.Gitops.Types.{Occurrence, Warning}
use hoist.Gitops.Deploy.{is_seen}
use hoist.Gitops.Promote.{of_repo}
use hoist.Resolve.{
  RunningImage, Answer, answered, failed, ImageRegistry, Source, source_pods, source_manifest,
  source_registry, source_override,
}
use hoist.Resolve.Repo.{Resolution, resolve_repo}

unfoldable pub is_source : Source → Bool
is_source s = text_eq s source_pods || (text_eq s source_manifest || text_eq s source_registry)

-- checkOrder, from the sources already seen.
unfoldable pub check_order : List Source → List Source → Option Text
unfolding is_source is_seen
check_order seen [] = none
check_order seen (s ∷ order) = elim (is_source s) [
  | false ↦ some (codes "resolve: unknown digest source " ++ quoted s)
  | true ↦ elim (is_seen s seen) [
    | true ↦ some (concat (codes "resolve: digest source " ∷ quoted s ∷ codes " listed twice" ∷ []))
    | false ↦ check_order (s ∷ seen) order
  ]
]

-- Resolved.
unfoldable pub is_resolved : Resolution → Bool
is_resolved r = not (is_empty r.ref.tag) && not (is_empty r.ref.digest)

-- Digests.
unfoldable pub digests : List (Text × Resolution) → List (Text × Ref)
unfolding is_resolved
digests [] = []
digests ((repo, r) ∷ res) = elim (is_resolved r) [
  | true ↦ (repo, r.ref) ∷ digests res
  | false ↦ digests res
]

unfoldable pub reason : Resolution → Text
reason r = if text_eq r.source source_override then r.detail else codes "resolved from " ++ r.source

-- Reasons.
unfoldable pub reasons : List (Text × Resolution) → List (Text × Text)
unfolding is_resolved reason
reasons [] = []
reasons ((repo, r) ∷ res) = elim (is_resolved r) [
  | true ↦ (repo, reason r) ∷ reasons res
  | false ↦ reasons res
]

unfoldable pub distinct_repos : List Text → List Occurrence → List Text
distinct_repos seen [] = []
distinct_repos seen (o ∷ os) = elim (is_seen o.ref.repo seen) [
  | true ↦ distinct_repos seen os
  | false ↦ o.ref.repo ∷ distinct_repos (o.ref.repo ∷ seen) os
]

module _ (registered : Registry) (canonical : Text → Text) (namespace : Text) where
  -- running[image.Canonical(repo)].
  unfoldable pub running_as : Text → List RunningImage → List RunningImage
  running_as name [] = []
  running_as name (x ∷ xs) = elim (text_eq (canonical x.ref.repo) name) [
    | true ↦ x ∷ running_as name xs
    | false ↦ running_as name xs
  ]

  -- The loop over the repositories.
  unfoldable pub resolve_each :
      ImageRegistry
      → List Source
      → List (Text × Ref)
      → List Occurrence
      → List RunningImage
      → List Text
      → Option (List (Text × Resolution))
  unfolding running_as of_repo resolve_repo
  resolve_each reg order overrides occ running [] = some []
  resolve_each reg order overrides occ running (repo ∷ repos) =
      cons_resolved repo
        (resolve_repo registered namespace repo (of_repo repo occ)
          (running_as (canonical repo) running) reg order overrides)
        (resolve_each reg order overrides occ running repos)
    where
      cons_resolved :
          Text
          → Option Resolution
          → Option (List (Text × Resolution))
          → Option (List (Text × Resolution))
      cons_resolved repo (some r) (some res) = some ((repo, r) ∷ res)
      cons_resolved repo (some r) none = none
      cons_resolved repo none res = none

-- A registry that is nil: where the order does not name it, it is not asked.
abbrev nil_registry : ImageRegistry
nil_registry = record { head = λ r. failed (codes "nil registry"); per_repo = some (λ repo. none) }

registry_or_nil : Option ImageRegistry → ImageRegistry
registry_or_nil none = nil_registry
registry_or_nil (some reg) = reg

abbrev is_nil : {A : Type 0} → Option A → Bool
is_nil none = true
is_nil (some a) = false

-- A map of resolutions that cannot be made reads out of range.
all_resolved : Option (List (Text × Resolution)) → Answer (List (Text × Resolution))
all_resolved none = failed (codes "index out of range")
all_resolved (some res) = answered res

-- RunningImages, where the order wants the pods.
running_images :
    Bool → Option (Text → Answer (List RunningImage)) → Text → Answer (List RunningImage)
running_images true (some images) namespace = images namespace
running_images true none namespace = answered []
running_images false cluster namespace = answered []

module _ (registered : Registry) (canonical : Text → Text) (namespace : Text)
    (cluster : Option (Text → Answer (List RunningImage))) (reg : Option ImageRegistry)
    (order : List Source) (overrides : List (Text × Ref)) (occ : List Occurrence) where
  resolve_running : Answer (List RunningImage) → Answer (List (Text × Resolution))
  unfolding all_resolved registry_or_nil resolve_each distinct_repos
  resolve_running (failed e) = failed (codes "resolve: " ++ e)
  resolve_running (answered running) = all_resolved (
      resolve_each registered canonical namespace (registry_or_nil reg) order overrides occ running
        (sort_texts (distinct_repos [] occ)))

  resolve_checked : Answer (List (Text × Resolution))
  unfolding resolve_running running_images
  resolve_checked =
      if is_empty namespace
      then failed (codes "resolve: namespace is required")
      else if is_seen source_pods order && is_nil cluster
      then failed (codes "resolve: the pods source needs a cluster")
      else if is_seen source_registry order && is_nil reg
      then failed (codes "resolve: the registry source needs a registry")
      else resolve_running (running_images (is_seen source_pods order) cluster namespace)

  has_work : List Source → List Occurrence → Bool
  has_work [] os = false
  has_work (s ∷ ss) [] = false
  has_work (s ∷ ss) (o ∷ os) = true

  -- Resolve.
  unfoldable pub resolve : Answer (List (Text × Resolution))
  unfolding resolve_checked check_order has_work
  resolve = elim (check_order [] order) [
    | some why ↦ failed why
    | none ↦ elim (has_work order occ) [ true ↦ resolve_checked | false ↦ answered [] ]
  ]
