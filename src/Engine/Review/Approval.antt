-- ===== src/Engine/Review/Approval.antt =====
-- internal/engine/steps_review.go: ApprovedStep, the human gate.
pub mod Order
pub mod Tally
pub mod Verdict
use hoist.Prelude.{
  ℕ, ◌+◌, ◌-◌, Bool, true, false, not, ◌&&◌, ◌||◌, List, [], ◌∷◌, ◌++◌, Option, none, some, Text,
  codes, text_eq, equal_fold, ltb, ◌==◌, decimal, if◌then◌else◌,
}
use hoist.Engine.StepName
use hoist.Engine.Errors.{Err, wrapped, Result, ok, err}
use hoist.Engine.State.{
  Pr, PromotionState, Observation, satisfied_by, waiting_for, blocked_by, zero_observation, Env,
  Step,
}
use hoist.Engine.Review.{Comment, Queries}
use hoist.Engine.Review.Command.{approves, rejects}

abbrev pub approval_auto : Text
approval_auto = codes "auto"

-- sinceSlop: one second, in nanoseconds.
abbrev pub since_slop : ℕ
since_slop = 1000000000

unfoldable pub is_newer_comment : Comment → Option Comment → Bool
is_newer_comment candidate none = true
is_newer_comment candidate (some current) =
    if ltb current.created_at candidate.created_at
    then true
    else if candidate.created_at == current.created_at
    then ltb current.id candidate.id
    else false

unfoldable pub listed_approver : List Text → Text → Bool
listed_approver [] login = false
listed_approver (a ∷ approvers) login = elim (equal_fold a login) [
  | true ↦ true
  | false ↦ listed_approver approvers login
]

-- The loop's variables.
pub record Votes : Type 0 where
  pub cache : List (Text × Bool)
  pub approve : Option Comment
  pub reject : Option Comment

unfoldable pub cached : Text → List (Text × Bool) → Option Bool
cached login [] = none
cached login ((l, a) ∷ cache) = elim (text_eq l login) [
  | true ↦ some a
  | false ↦ cached login cache
]

module _ {W : Type 0} (q : Queries W) (w : W) (s : PromotionState) where
  unfoldable pub is_allowed : Text → Result Bool
  is_allowed login =
      if listed_approver s.approvers login
      then ok true
      else if not s.collaborators
      then ok false
      else q.is_allowed_author w login

  -- The answer for one author, from the cache if it was asked before.
  unfoldable pub allowed_cached : Text → Votes → Result (Bool × Votes)
  allowed_cached login v = elim (cached login v.cache) [
    | some a ↦ ok (a, v)
    | none ↦ elim (is_allowed login) [
      | err e ↦ err e
      | ok a ↦ ok (a, record v { cache = (login, a) ∷ v.cache })
    ]
  ]

  -- The switch on the comment's text.
  unfoldable pub vote : Comment → Votes → Votes
  vote c v =
      if approves s.id c.body
      then (if is_newer_comment c v.approve then record v { approve = some c } else v)
      else if rejects s.id c.body
      then (if is_newer_comment c v.reject then record v { reject = some c } else v)
      else v

  -- Skipped unasked: posted before the commit, or by a bot.
  unfoldable pub is_skipped : ℕ → Comment → Bool
  is_skipped since c = ltb c.created_at since || text_eq c.author_type (codes "Bot")

  abbrev refused_author : ℕ → Text → Err → Err
  refused_author number author e =
      wrapped
        (codes "checking whether "
          ++ (author ++ (codes " may approve #" ++ (decimal number ++ codes ": "))))
        e

  unfoldable pub count_vote : ℕ → Comment → Result (Bool × Votes) → Result Votes
  count_vote number c (err e) = err (refused_author number c.author e)
  count_vote number c (ok (allowed, v)) = ok (if not allowed then v else vote c v)

  unfoldable pub one_comment : ℕ → ℕ → Comment → Votes → Result Votes
  one_comment number since c v =
      if is_skipped since c then ok v else count_vote number c (allowed_cached c.author v)

  abbrev bind_votes : Result Votes → (Votes → Result Votes) → Result Votes
  bind_votes (ok v) f = f v
  bind_votes (err e) f = err e

  -- The loop over the comments.
  unfoldable pub all_comments : ℕ → ℕ → List Comment → Votes → Result Votes
  all_comments number since [] v = ok v
  all_comments number since (c ∷ cs) v =
      bind_votes (one_comment number since c v) (λ v'. all_comments number since cs v')

  -- The newer of the two decides; a rejection wins only if it is the newer.
  unfoldable pub decide_votes : Option Comment → Option Comment → Observation
  decide_votes approve none = elim approve [
    | some a ↦ satisfied_by (codes "approved by " ++ a.author)
    | none ↦
        waiting_for (codes "waiting for `hoist approve " ++ (s.id ++ codes "` from an approver"))
  ]
  decide_votes approve (some r) =
      if is_newer_comment r approve
      then blocked_by
          (codes "rejected by " ++ (r.author ++ (codes " at " ++ q.rfc3339 r.created_at)))
      else elim approve [
        | some a ↦ satisfied_by (codes "approved by " ++ a.author)
        | none ↦
            waiting_for
              (codes "waiting for `hoist approve " ++ (s.id ++ codes "` from an approver"))
      ]

  unfoldable pub decide : Result Votes → Result Observation
  decide (err e) = err e
  decide (ok v) = ok (decide_votes v.approve v.reject)

  unfoldable pub no_votes : Votes
  no_votes = record { cache = []; approve = none; reject = none }

  unfoldable pub decide_comments : ℕ → ℕ → Result (List Comment) → Result Observation
  decide_comments number since (err e) =
      err (wrapped (codes "listing PR #" ++ (decimal number ++ codes " comments: ")) e)
  decide_comments number since (ok cs) = decide (all_comments number since cs no_votes)

  unfoldable pub decide_since : ℕ → Result ℕ → Result Observation
  decide_since number (err e) =
      err (wrapped (codes "reading commit time for " ++ (s.commit_sha ++ codes ": ")) e)
  decide_since number (ok since) =
      decide_comments number since (q.comments w number (since - since_slop))

  -- ApprovedStep.Observe.
  unfoldable pub approved_observation : Result Observation
  approved_observation =
      if text_eq s.approval approval_auto
      then ok (
          satisfied_by
            (codes "approval mode is auto for " ++ (s.target_env ++ codes "; no comment required")))
      else elim s.pr [
        | none ↦ ok zero_observation
        | some pr ↦ decide_since pr.number (q.commit_time w s.clone_dir s.commit_sha)
      ]

-- ApprovedStep: its Act does nothing.
unfoldable pub approved_step : {W : Type 0} → Queries W → Step W
approved_step q = record {
  name = StepName.approved;
  observe = λ env. (approved_observation q env.world env.state, env);
  act = λ env. (none, env);
}
