-- ===== src/Engine/Review.antt =====
-- internal/engine/steps_review.go: the review gates, and what they ask of the forge and the clone.
pub mod Command
pub mod Approval
pub mod Ci
use hoist.Prelude.{ℕ, Bool, List, Text}
use hoist.Engine.Errors.{Result}

-- forge.Comment.
pub record Comment : Type 0 where
  pub id : ℕ
  pub author : Text
  pub author_type : Text
  pub body : Text
  pub created_at : ℕ

-- forge.CheckSummary.
pub record CheckSummary : Type 0 where
  pub total : ℕ
  pub pending : ℕ
  pub success : ℕ
  pub failure : ℕ
  pub skipped : ℕ
  pub failed_names : List Text
  pub skipped_names : List Text
  pub ignored : List Text

-- What the gates ask: forge.Forge and git.Git, as questions to the world. One observation reads
-- one world. `time_text` is Local().Format("15:04:05"), `rfc3339` Format(time.RFC3339).
pub record Queries (W : Type 0) : Type 0 where
  pub now : W → ℕ
  pub checks : W → Text → List Text → Result CheckSummary
  pub comments : W → ℕ → ℕ → Result (List Comment)
  pub is_allowed_author : W → Text → Result Bool
  pub commit_time : W → Text → Text → Result ℕ
  pub time_text : ℕ → Text
  pub rfc3339 : ℕ → Text
