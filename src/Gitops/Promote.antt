-- ===== src/Gitops/Promote.antt =====
-- pkg/gitops/plan.go: BuildPlanWith, the promotion of every promotable repository of one environment
-- into another.
pub mod Warnings
pub mod Sources
pub mod Chosen
pub mod Moved
pub mod Loop
pub mod Sound
use hoist.Prelude.{
  ℕ, Bool, true, false, not, ◌&&◌, ◌||◌, List, [], ◌∷◌, ◌++◌, Option, none, some, Text, codes,
  text_eq, is_empty, quoted, join, concat, decimal, sort_texts, length, ltb, if◌then◌else◌,
}
use hoist.Image.Ref.{Ref, to_text}
use hoist.Image.Validate.{validate}
use hoist.Gitops.Types.{Occurrence, Env, Repo, Edit, Warning, Plan, variant_promote}
use hoist.Gitops.Prefix.{is_promotable}
use hoist.Gitops.Editable.{Styles, unwritable, check_editable}
use hoist.Gitops.Order.{sort_occurrences, sort_refs, env_occurrences}
use hoist.Gitops.Choose.{Choice, choose_ref}
use hoist.Gitops.Deploy.{Planned, planned, refused, find_env, is_seen, has_some}
use hoist.Gitops.Promote.Warnings.{
  target_newer_warning, disagree_warning, source_only_warning, missing_warning,
}

-- envNames.
unfoldable pub env_names : Repo → List Text
env_names r = sort_texts (names r.envs)
  where
    names : List (Text × Env) → List Text
    names [] = []
    names ((n, e) ∷ es) = n ∷ names es

-- The first value of a key in a map.
unfoldable pub lookup : {A : Type 0} → Text → List (Text × A) → Option A
lookup key [] = none
lookup key ((k, a) ∷ rest) = elim (text_eq k key) [ true ↦ some a | false ↦ lookup key rest ]

-- The distinct promotable repositories, in the order in which they are met.
unfoldable pub source_repos : List Text → List Text → List Occurrence → List Text
source_repos promotable seen [] = []
source_repos promotable seen (o ∷ os) =
    elim (is_promotable o.ref.repo promotable && not (is_seen o.ref.repo seen)) [
      | true ↦ o.ref.repo ∷ source_repos promotable (o.ref.repo ∷ seen) os
      | false ↦ source_repos promotable seen os
    ]

-- The occurrences of a repository, in their order.
unfoldable pub of_repo : Text → List Occurrence → List Occurrence
of_repo repo [] = []
of_repo repo (o ∷ os) =
    let rest = of_repo repo os in if text_eq o.ref.repo repo then o ∷ rest else rest

abbrev pub default_override_reason : Text
default_override_reason = codes "caller-supplied digest"

abbrev pub reason_for : Option Text → Text
reason_for none = default_override_reason
reason_for (some []) = default_override_reason
reason_for (some (c ∷ why)) = c ∷ why

-- The override is for this repository, well-formed and writable.
unfoldable pub check_override : Text → Ref → Planned Ref
check_override repo ov =
    if not (text_eq ov.repo repo)
    then refused (
        concat
          (codes "digest override for " ∷ repo ∷ codes " names a different repo " ∷ ov.repo ∷ []))
    else elim (validate ov) [
      | some why ↦
          refused
            (concat (codes "digest override for " ∷ repo ∷ codes " is malformed: " ∷ why ∷ []))
      | none ↦
          if not (is_empty (unwritable ov))
          then refused
              (concat (codes "digest override for " ∷ repo ∷ codes " is " ∷ unwritable ov ∷ []))
          else planned ov
    ]

unfoldable pub override_ref : Text → Ref → Planned Ref
unfolding check_override
override_ref repo ov =
    check_override repo (if is_empty ov.repo then record ov { repo = repo } else ov)

unfoldable pub with_override : Choice → Text → Planned Ref → Planned Choice
with_override c reason (refused why) = refused why
with_override c reason (planned ov) = planned (record c { chosen = ov; reason = reason })

-- What a run over the repositories gathers.
pub record Part : Type 0 where
  pub edits : List Edit
  pub warnings : List Warning
  pub repos : List Text

abbrev pub and_part : Part → Planned Part → Planned Part
and_part p (refused why) = refused why
and_part p (planned q) = planned (record {
  edits = p.edits ++ q.edits;
  warnings = p.warnings ++ q.warnings;
  repos = p.repos ++ q.repos;
})

abbrev pub cons_planned : Edit → Planned (List Edit) → Planned (List Edit)
cons_planned e (planned es) = planned (e ∷ es)
cons_planned e (refused why) = refused why

unfoldable pub edits_to : Styles → Ref → List Occurrence → Planned (List Edit)
edits_to y ref [] = planned []
edits_to y ref (t ∷ ts) = elim (check_editable y (record { occurrence = t; new = ref })) [
  | some why ↦ refused why
  | none ↦ cons_planned (record { occurrence = t; new = ref }) (edits_to y ref ts)
]

-- occ[0].Container; a repository is planned only where it has an occurrence.
abbrev first_container : List Occurrence → Text
first_container [] = []
first_container (o ∷ os) = o.container

-- ChooseRef, and the override that always wins. With no occurrence order[0] is out of range.
unfoldable pub choose_for :
    List (Text × Ref) → List (Text × Text) → Text → Option Choice → Planned Choice
choose_for digests reasons repo none = refused (codes "index out of range")
choose_for digests reasons repo (some c) = elim (lookup repo digests) [
  | none ↦ planned c
  | some ov ↦ with_override c (reason_for (lookup repo reasons)) (override_ref repo ov)
]

module _ (y : Styles) (src dst : Text) where
  part_of :
      Text
      → List Occurrence
      → List Occurrence
      → Choice
      → List Warning
      → Planned (List Edit)
      → Planned Part
  part_of repo occ targets c ws (refused why) = refused why
  part_of repo occ targets c ws (planned es) = planned (record {
    edits = es;
    warnings =
        ws
        ++ (target_newer_warning src dst c.chosen targets
            ++ missing_warning src dst repo occ targets);
    repos = repo ∷ [];
  })

  -- One repository with its reference chosen.
  unfoldable pub write_repo :
      Text → List Occurrence → List Occurrence → Choice → List Warning → Planned Part
  unfolding part_of
  write_repo repo occ targets c ws =
      if is_empty (unwritable c.chosen)
      then part_of repo occ targets c ws (edits_to y c.chosen targets)
      else elim targets [
        | [] ↦ planned (record {
          edits = [];
          warnings =
              ws ++ (source_only_warning src dst repo occ c.chosen (unwritable c.chosen) ∷ []);
          repos = [];
        })
        | t ∷ ts ↦ refused (
            concat (
              repo
              ∷ codes ": "
              ∷ to_text c.chosen
              ∷ codes " runs as "
              ∷ first_container occ
              ∷ codes " in "
              ∷ src
              ∷ codes ", "
              ∷ unwritable c.chosen
              ∷ []))
      ]

  pub plan_chosen : Text → List Occurrence → List Occurrence → Planned Choice → Planned Part
  unfolding write_repo
  plan_chosen repo occ targets (refused why) = refused why
  plan_chosen repo occ targets (planned c) =
      write_repo repo occ targets c
        (if c.disagree then disagree_warning src repo occ c.chosen c.reason ∷ [] else [])

  -- The loop over the repositories.
  unfoldable pub plan_repos :
      List (Text × Ref)
      → List (Text × Text)
      → List Occurrence
      → List Occurrence
      → List Text
      → Planned Part
  unfolding plan_chosen choose_for
  plan_repos digests reasons src_occ dst_occ [] =
      planned (record { edits = []; warnings = []; repos = [] })
  plan_repos digests reasons src_occ dst_occ (repo ∷ repos) =
      elim (plan_chosen repo (of_repo repo src_occ) (of_repo repo dst_occ)
        (choose_for digests reasons repo (choose_ref (of_repo repo src_occ)))) [
          | refused why ↦ refused why
          | planned p ↦ and_part p (plan_repos digests reasons src_occ dst_occ repos)
        ]

-- The distinct references of the target that no planned repository covers.
unfoldable pub untouched_refs : List Text → List Text → List Occurrence → List Ref
untouched_refs planned_repos seen [] = []
untouched_refs planned_repos seen (t ∷ ts) =
    elim (is_seen t.ref.repo planned_repos || is_seen (to_text t.ref) seen) [
      | true ↦ untouched_refs planned_repos seen ts
      | false ↦ t.ref ∷ untouched_refs planned_repos (to_text t.ref ∷ seen) ts
    ]

finish_plan : ℕ → Text → Text → List Occurrence → Planned Part → Planned Plan
unfolding untouched_refs
finish_plan now src dst dst_occ (refused why) = refused why
finish_plan now src dst dst_occ (planned p) = planned (record {
  variant = variant_promote;
  source_env = src;
  target_env = dst;
  edits = sort_occurrences (λ (e : Edit). e.occurrence) p.edits;
  untouched = sort_refs (untouched_refs p.repos [] dst_occ);
  warnings = p.warnings;
  generated_at = now;
})

unfoldable pub plan_between :
    Styles
    → ℕ
    → Text
    → Text
    → List Text
    → List (Text × Ref)
    → List (Text × Text)
    → List Occurrence
    → List Occurrence
    → List Text
    → Planned Plan
unfolding finish_plan plan_repos
plan_between y now src dst promotable digests reasons src_occ dst_occ repos =
    if not (has_some repos) && ltb 0 (length src_occ)
    then refused (
        concat (
          codes "the promotable prefixes "
          ∷ join (codes ", ") promotable
          ∷ codes " (--promotable or repos[].promotable) match none of the "
          ∷ decimal (length src_occ)
          ∷ codes " image references in "
          ∷ src
          ∷ codes "; check the prefixes"
          ∷ []))
    else finish_plan now src dst dst_occ
        (plan_repos y src dst digests reasons src_occ dst_occ repos)

unknown_env : Text → Text → Repo → Text
unfolding env_names
unknown_env which env r = concat (
    which
    ∷ codes " env "
    ∷ quoted env
    ∷ codes " not found; envs: "
    ∷ join (codes ", ") (env_names r)
    ∷ [])

-- BuildPlanWith; none is the nil pointer.
unfoldable pub build_plan_with :
    Styles
    → ℕ
    → Option Repo
    → Text
    → Text
    → List Text
    → List (Text × Ref)
    → List (Text × Text)
    → Planned Plan
unfolding unknown_env plan_between source_repos
build_plan_with y now none src dst promotable digests reasons = refused (codes "nil repo")
build_plan_with y now (some r) src dst promotable digests reasons =
    if text_eq src dst
    then refused (codes "source and target env are both " ++ quoted src)
    else elim (find_env src r.envs) [
      | none ↦ refused (unknown_env (codes "source") src r)
      | some s ↦ elim (find_env dst r.envs) [
        | none ↦ refused (unknown_env (codes "target") dst r)
        | some d ↦
            if not (has_some promotable)
            then refused (codes "no promotable image prefixes given; nothing can be planned")
            else plan_between y now src dst promotable digests reasons (env_occurrences s)
                (env_occurrences d) (sort_texts (source_repos promotable [] (env_occurrences s)))
      ]
    ]

-- BuildPlan.
unfoldable pub build_plan :
    Styles → ℕ → Option Repo → Text → Text → List Text → List (Text × Ref) → Planned Plan
build_plan y now r src dst promotable digests =
    build_plan_with y now r src dst promotable digests []
