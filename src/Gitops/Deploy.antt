-- ===== src/Gitops/Deploy.antt =====
-- pkg/gitops/plan.go: BuildDeployPlan, one reference written into one environment.
pub mod Exact
use hoist.Prelude.{
  ℕ, Bool, true, false, not, ◌||◌, ◌&&◌, List, [], ◌∷◌, ◌++◌, Option, none, some, Text, codes,
  text_eq, is_empty, quoted, join, if◌then◌else◌,
}
use hoist.Image.Ref.{Ref, to_text}
use hoist.Image.Validate.{validate}
use hoist.Gitops.Types.{Occurrence, Env, Repo, Edit, Plan, variant_deploy}
use hoist.Gitops.Prefix.{is_promotable}
use hoist.Gitops.Editable.{Styles, unwritable, check_editable}
use hoist.Gitops.Order.{sort_occurrences, sort_refs, env_occurrences}

-- A plan, or the error's text.
pub data Planned (A : Type 0) : Type 0 where
  planned : A → Planned A
  refused : Text → Planned A

unfoldable pub find_env : Text → List (Text × Env) → Option Env
find_env name [] = none
find_env name ((n, e) ∷ es) = elim (text_eq n name) [ true ↦ some e | false ↦ find_env name es ]

unfoldable pub is_seen : Text → List Text → Bool
is_seen t [] = false
is_seen t (u ∷ us) = text_eq u t || is_seen t us

abbrev cons_edit : Edit → Planned (List Edit × List Ref) → Planned (List Edit × List Ref)
cons_edit e (planned (es, us)) = planned (e ∷ es, us)
cons_edit e (refused why) = refused why

abbrev cons_untouched : Ref → Planned (List Edit × List Ref) → Planned (List Edit × List Ref)
cons_untouched r (planned (es, us)) = planned (es, r ∷ us)
cons_untouched r (refused why) = refused why

-- The loop over the occurrences: the edits, and the distinct references of other repositories.
unfoldable pub deploy_loop :
    Styles → Ref → List Text → List Occurrence → Planned (List Edit × List Ref)
deploy_loop y ref seen [] = planned ([], [])
deploy_loop y ref seen (o ∷ os) = elim (text_eq o.ref.repo ref.repo) [
  | false ↦ elim (is_seen (to_text o.ref) seen) [
    | true ↦ deploy_loop y ref seen os
    | false ↦ cons_untouched o.ref (deploy_loop y ref (to_text o.ref ∷ seen) os)
  ]
  | true ↦ elim (check_editable y (record { occurrence = o; new = ref })) [
    | some why ↦ refused why
    | none ↦ cons_edit (record { occurrence = o; new = ref }) (deploy_loop y ref seen os)
  ]
]

unfoldable pub deploy_plan : ℕ → Text → Ref → Planned (List Edit × List Ref) → Planned Plan
deploy_plan now env ref (refused why) = refused why
deploy_plan now env ref (planned ([], us)) =
    refused
      (ref.repo ++ (codes " has no occurrence in " ++ (env ++ codes "; nothing to deploy into")))
deploy_plan now env ref (planned (e ∷ es, us)) = planned (record {
  variant = variant_deploy;
  source_env = codes "";
  target_env = env;
  edits = sort_occurrences (λ (e : Edit). e.occurrence) (e ∷ es);
  untouched = sort_refs us;
  warnings = [];
  generated_at = now;
})

abbrev pub has_some : List Text → Bool
has_some [] = false
has_some (p ∷ ps) = true

unfoldable pub deploy_into : Styles → ℕ → Text → Ref → List Text → Env → Planned Plan
deploy_into y now env ref promotable e = elim (validate ref) [
  | some why ↦ refused (codes "image " ++ (to_text ref ++ (codes ": " ++ why)))
  | none ↦
      if not (is_empty (unwritable ref))
      then refused (codes "image " ++ (to_text ref ++ (codes " is " ++ unwritable ref)))
      else if has_some promotable && not (is_promotable ref.repo promotable)
      then refused (
          ref.repo
          ++ (codes " is not a promotable repo; prefixes: " ++ join (codes ", ") promotable))
      else deploy_plan now env ref (deploy_loop y ref [] (env_occurrences e))
]

-- BuildDeployPlan; none is the nil pointer.
unfoldable pub build_deploy_plan : Styles → ℕ → Option Repo → Text → Ref → List Text → Planned Plan
build_deploy_plan y now none env ref promotable = refused (codes "nil repo")
build_deploy_plan y now (some r) env ref promotable = elim (find_env env r.envs) [
  | none ↦ refused (codes "env " ++ (quoted env ++ codes " not found in the discovered repo"))
  | some e ↦ deploy_into y now env ref promotable e
]
