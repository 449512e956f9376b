-- ===== src/Examples/Gates.antt =====
-- The gates, the history and the retry policy.
use hoist.Prelude.{
  ◌↔◌, ℕ, ◌≡◌, refl, true, false, [], ◌∷◌, ◌++◌, none, codes, is_empty, equal_fold, split,
}
use mathlib.Core.List.{Memᴰ}
use hoist.Engine.StepName
use hoist.Engine.StepName.{StepName}
use hoist.Engine.Errors.{Err, plain, step_error, observing, blocked_error, ok, err}
use hoist.Engine.State.{satisfied_by, blocked_by}
use hoist.Engine.History.{put_entry, acted, is_stopping_detail}
use hoist.Engine.History.Repeats.{put_entry-stop_repeated}
use hoist.Engine.Landing.{with_landing_walk}
use hoist.Engine.Drive.{drive_status, record_stop, stopped}
use hoist.Engine.Lists.{Wiring, all_direct_steps}
use hoist.Engine.Gate.{DirectCommitGate, refuse, is_listed}
use hoist.Engine.Gate.Refusal.{refuse-allows, direct_mode_refused, Named}
use hoist.Engine.Review.{Comment, Queries}
use hoist.Engine.Review.Approval.{
  approved_observation, decide_since, decide_comments, decide, all_comments, one_comment,
  is_skipped, count_vote, allowed_cached, cached, no_votes, is_allowed, listed_approver,
  decide_votes, vote, is_newer_comment,
}
use hoist.Engine.Review.Command.{approves, rejects, matches_command, line_matches}
use hoist.Engine.Review.Approval.Verdict.{Approved, approved_observation-Approved}
use hoist.Examples.Fixtures.{clock, promotion, start, fixed}

abbrev pub wiring : Wiring ℕ
wiring = record {
  branched = fixed StepName.branched (satisfied_by (codes "there"));
  committed = fixed StepName.committed (satisfied_by (codes "there"));
  pushed = fixed StepName.pushed (satisfied_by (codes "there"));
  pr_opened = fixed StepName.pr_opened (satisfied_by (codes "there"));
  ci_green = fixed StepName.ci_green (satisfied_by (codes "there"));
  approved = fixed StepName.approved (satisfied_by (codes "there"));
  merged = fixed StepName.merged (satisfied_by (codes "there"));
  direct_pushed = fixed StepName.direct_pushed (satisfied_by (codes "there"));
  argo_refreshed = fixed StepName.argo_refreshed (satisfied_by (codes "there"));
  argo_synced = fixed StepName.argo_synced (satisfied_by (codes "there"));
  rolled_out = fixed StepName.rolled_out (satisfied_by (codes "there"));
}

abbrev wired : Named wiring
wired = record {
  branched = refl;
  committed = refl;
  direct_pushed = refl;
  argo_refreshed = refl;
  argo_synced = refl;
  rolled_out = refl;
}

-- The operator confirmed, but the target is production.
abbrev gate : DirectCommitGate
gate = record { production_envs = codes "prod" ∷ []; confirmed = true }

direct_mode_refused_example : drive_status clock none (all_direct_steps wiring gate) start ≡ (
  stopped
      (record { step = StepName.direct_gate; observation = blocked_by (refuse gate promotion) }
        ∷ [])
      (blocked_error StepName.direct_gate (refuse gate promotion)),
  record_stop clock none StepName.direct_gate
      (codes "blocked: " ++ refuse gate promotion)
      (with_landing_walk start),
)
unfolding refuse is_listed
direct_mode_refused_example = direct_mode_refused wiring wired gate clock none start refl refl

refuse-allows_example :
    (is_empty (refuse gate promotion) ≡ true)
    ↔ ((Memᴰ (codes "prod") (codes "prod" ∷ []) → ⊥) × (gate.confirmed ≡ true))
refuse-allows_example = refuse-allows gate promotion

put_entry-stop_repeated_example :
    put_entry StepName.approved 9 (codes "waiting: nobody") (
      put_entry StepName.approved 3 (codes "waiting: nobody") []
      ++ (record { step = StepName.committed; at = 5; detail = acted } ∷ []))
    ≡ put_entry StepName.approved 3 (codes "waiting: nobody") []
      ++ (record { step = StepName.committed; at = 5; detail = acted } ∷ [])
unfolding is_stopping_detail
put_entry-stop_repeated_example =
    put_entry-stop_repeated [] (record { step = StepName.committed; at = 5; detail = acted } ∷ [])
      StepName.approved 3 9 (codes "waiting: nobody") (refl, refl) (refl, tt)

abbrev timed_out : Err
timed_out = step_error StepName.approved observing (plain (codes "timeout"))

-- One approval, by an approver, after the commit.
abbrev approval : Comment
approval = record {
  id = 1;
  author = codes "ann";
  author_type = codes "User";
  body = codes "hoist approve ab";
  created_at = 3000000000;
}

abbrev pub queries : Queries ℕ
queries = record {
  now = λ w. w;
  checks = λ w ref ignore. err (plain (codes "none"));
  comments = λ w number since. ok (approval ∷ []);
  is_allowed_author = λ w login. ok false;
  commit_time = λ w dir sha. ok 2000000000;
  time_text = λ t. codes "";
  rfc3339 = λ t. codes "";
}

approved_observation-Approved_example : (by : Comment) × Approved queries 0 promotion by
unfolding approved_observation decide_since decide_comments decide all_comments one_comment
    is_skipped count_vote allowed_cached cached no_votes is_allowed listed_approver equal_fold
    decide_votes vote is_newer_comment approves rejects matches_command line_matches split
approved_observation-Approved_example =
    approved_observation-Approved queries 0 promotion (satisfied_by (codes "approved by ann")) refl
      refl refl
