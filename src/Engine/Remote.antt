-- ===== src/Engine/Remote.antt =====
-- What the steps call of forge.Forge (pkg/forge) and git.Git (pkg/git). Each call may change the
-- world: FetchBranch changes the clone, MergePR the forge.
use hoist.Prelude.{ℕ, Bool, List, Option, Text}
use hoist.Engine.Errors.{Result}
use hoist.Engine.State.{Pr}

-- forge.PRSpec.
pub record PrSpec : Type 0 where
  pub title : Text
  pub body : Text
  pub head : Text
  pub base : Text

-- A pair of a value and an `ok` is an Option.
pub record Remote (W : Type 0) : Type 0 where
  pub find_pr : Text → Text → W → Result (Option Pr) × W
  pub get_pr : ℕ → W → Result (Option Pr) × W
  pub create_pr : PrSpec → W → Result Pr × W
  pub merge_pr : ℕ → Text → W → Result Pr × W
  pub worktree_branch : Text → Text → W → Result (Option Text) × W
  pub worktree : Text → Text → Text → Text → W → Result (Unit {0}) × W
  pub rev_parse : Text → Text → W → Result (Option Text) × W
  pub ls_tree_blob : Text → Text → Text → W → Result (Option Text) × W
  pub diff_name_only : Text → Text → Text → W → Result (List Text) × W
  pub push : Text → Text → Text → W → Result (Unit {0}) × W
  pub ls_remote_branch : Text → Text → Text → W → Result (Option Text) × W
  pub fetch_branch : Text → Text → Text → W → Result (Option Text) × W
  pub object_exists : Text → Text → W → Result Bool × W
  pub is_shallow : Text → W → Result Bool × W
  pub is_ancestor : Text → Text → Text → W → Result Bool × W
  pub delete_remote_branch : Text → Text → Text → W → Result (Unit {0}) × W
