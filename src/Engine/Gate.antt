-- ===== src/Engine/Gate.antt =====
-- internal/engine/direct.go: DirectCommitGateStep, the one place where direct mode is refused.
pub mod Refusal
use hoist.Prelude.{
  Bool, true, false, not, List, [], ◌∷◌, ◌++◌, Option, none, some, Text, codes, text_eq, quoted,
  em_dash, is_empty, if◌then◌else◌,
}
use hoist.Engine.StepName
use hoist.Engine.Errors.{plain, ok}
use hoist.Engine.State.{PromotionState, Observation, satisfied_by, blocked_by, Step}

pub record DirectCommitGate : Type 0 where
  pub production_envs : List Text
  pub confirmed : Bool

unfoldable pub is_listed : List Text → Text → Bool
is_listed [] env = false
is_listed (p ∷ envs) env = elim (text_eq p env) [ true ↦ true | false ↦ is_listed envs env ]

abbrev production_refusal : Text → Text
production_refusal env =
    codes "direct mode refused: "
    ++ (quoted env
        ++ (codes " is listed in envs.production; production always goes through a PR and never "
            ++ (codes "direct mode "
                ++ (em_dash
                    ++ codes
                        " this is enforced here regardless of what any UI layer offered or any caller believed"))))

abbrev confirmation_refusal : Text
confirmation_refusal =
    codes
      "direct mode refused: the operator has not completed the required keypress + confirmation for this env"

-- refuse: the empty text when direct mode is allowed.
unfoldable pub refuse : DirectCommitGate → PromotionState → Text
unfolding is_listed
refuse gate s =
    if is_listed gate.production_envs s.target_env
    then production_refusal s.target_env
    else if not gate.confirmed
    then confirmation_refusal
    else []

gate_observation : DirectCommitGate → PromotionState → Observation
unfolding refuse
gate_observation gate s =
    let reason = refuse gate s in
    if not (is_empty reason)
    then blocked_by reason
    else satisfied_by (codes "direct mode confirmed for non-production env " ++ quoted s.target_env)

unfoldable pub gate_step : {W : Type 0} → DirectCommitGate → Step W
unfolding gate_observation refuse
gate_step gate = record {
  name = StepName.direct_gate;
  observe = λ env. (ok (gate_observation gate env.state), env);
  act = λ env.
      let reason = refuse gate env.state in
      (
        (if not (is_empty reason)
            then some (plain (StepName.direct_gate ++ (codes ": " ++ reason)))
            else none),
        env,
      );
}
