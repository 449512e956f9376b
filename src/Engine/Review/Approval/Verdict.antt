-- ===== src/Engine/Review/Approval/Verdict.antt =====
-- What an approval rests on.
use hoist.Prelude.{
  ℕ, ◌-◌, ◌≡◌, refl, sym, ◌∙◌, ap, inl, inr, ◌⊎◌, true, false, List, Option, none, some, text_eq,
  All, All-map, Bool-cases, Option-cases, if_true, if_false,
}
use mathlib.Core.Path.{subst}
use mathlib.Core.List.{Memᴰ}
use hoist.Engine.Errors.{Result, ok, err}
use hoist.Engine.State.{Pr, PromotionState, Observation, zero_observation}
use hoist.Engine.Review.{Comment, Queries}
use hoist.Engine.Review.Approval.{
  since_slop, is_newer_comment, all_comments, decide_votes, decide, no_votes, decide_comments,
  decide_since, approved_observation, approval_auto,
}
use hoist.Engine.Review.Approval.Order.{Result-cases, newer_than_none, not_newer_trans}
use hoist.Engine.Review.Approval.Tally.{Approving, Rejecting, all_comments-Tallied}

module _ {W : Type 0} (q : Queries W) (w : W) (s : PromotionState) where
  -- The comments that were read, and the one of them the approval rests on: it counts and says
  -- `hoist approve <id>`, and no counting rejection among them is newer.
  pub record Approved (by : Comment) : Type 0 where
    pub pr : Pr
    pub opened : s.pr ≡ some pr
    pub since : ℕ
    pub committed : q.commit_time w s.clone_dir s.commit_sha ≡ ok since
    pub read : List Comment
    pub listed : q.comments w pr.number (since - since_slop) ≡ ok read
    pub among : Memᴰ by read
    pub approving : Approving q w s since by
    pub newest : All (λ r. Rejecting q w s since r → is_newer_comment r (some by) ≡ false) read

  decide_votes-some :
      (a r : Option Comment)
      → (decide_votes q w s a r).satisfied ≡ true
      → (by : Comment) × (a ≡ some by)
        × ((x : Comment) → is_newer_comment x r ≡ false → is_newer_comment x (some by) ≡ false)
  unfolding decide_votes
  decide_votes-some none none h = absurd (cc h)
  decide_votes-some (some a) none h = (a, refl, λ x n. absurd (newer_than_none x n))
  decide_votes-some a (some r) h = elim (Bool-cases (is_newer_comment r a)) [
    | inl newer ↦
        let stopped : false ≡ true =
          sym (ap (λ (o : Observation). o.satisfied) (if_true _ _ newer)) ∙ h in
        absurd (cc stopped)
    | inr older ↦
        let passed = sym (ap (λ (o : Observation). o.satisfied) (if_false _ _ older)) ∙ h in
        older_than_some a older passed
  ]
    where
      older_than_some :
          (a : Option Comment)
          → is_newer_comment r a ≡ false
          → (decide_votes q w s a none).satisfied ≡ true
          → (by : Comment) × (a ≡ some by)
            × ((x : Comment)
                → is_newer_comment x (some r) ≡ false
                → is_newer_comment x (some by) ≡ false)
      older_than_some none older passed = absurd (cc passed)
      older_than_some (some by) older passed =
          (by, refl, λ x n. not_newer_trans x r (some by) n older)

  -- What the comments that were read decide.
  decide_comments-Approved :
      (number since : ℕ) (cs : List Comment) (obs : Observation)
      → decide_comments q w s number since (ok cs) ≡ ok obs
      → obs.satisfied ≡ true
      → (by : Comment) × Memᴰ by cs
        × Approving q w s since by
        × All (λ r. Rejecting q w s since r → is_newer_comment r (some by) ≡ false) cs
  unfolding decide_comments decide no_votes
  decide_comments-Approved number since cs obs h good =
      elim (Result-cases (all_comments q w s number since cs (no_votes q w s))) [
        | inr (x, e) ↦
            let failed : err x ≡ ok obs = ap (decide q w s) (sym e) ∙ h in absurd (cc failed)
        | inl (v, e) ↦
            let counted = all_comments-Tallied q w s number since cs (no_votes q w s) v tt e in
            let decided : ok (decide_votes q w s v.approve v.reject) ≡ ok obs =
              ap (decide q w s) (sym e) ∙ h in
            let same : decide_votes q w s v.approve v.reject ≡ obs = cc decided in
            let passed : (decide_votes q w s v.approve v.reject).satisfied ≡ true =
              ap (λ (o : Observation). o.satisfied) same ∙ good in
            let (by, b, older) = decide_votes-some v.approve v.reject passed in
            let (m, a) = from_some v.approve by b counted.origin in
            (by, m, a, All-map (λ r bound k. older r (bound k)) cs counted.bounds)
      ]
    where
      from_some :
          (a : Option Comment) (by : Comment)
          → a ≡ some by
          → (a ≡ none) ⊎ ((c : Comment) × Memᴰ c cs × Approving q w s since c × (a ≡ some c))
          → Memᴰ by cs × Approving q w s since by
      from_some a by b (inl n) = absurd (cc (b, n))
      from_some a by b (inr (c, m, k, e)) =
          let same : c ≡ by = cc (b, e) in
          subst (λ c. Memᴰ c cs × Approving q w s since c) same (m, k)

  decide_since-Approved :
      (pr : Pr) (answer : Result ℕ) (obs : Observation)
      → s.pr ≡ some pr
      → q.commit_time w s.clone_dir s.commit_sha ≡ answer
      → decide_since q w s pr.number answer ≡ ok obs
      → obs.satisfied ≡ true
      → (by : Comment) × Approved by
  unfolding decide_since decide_comments
  decide_since-Approved pr (err x) obs opened asked h good = absurd (cc h)
  decide_since-Approved pr (ok since) obs opened asked h good =
      elim (Result-cases (q.comments w pr.number (since - since_slop))) [
        | inr (x, e) ↦
            let failed = ap (decide_comments q w s pr.number since) (sym e) ∙ h in
            absurd (cc failed)
        | inl (cs, e) ↦
            let (by, m, a, older) =
              decide_comments-Approved pr.number since cs obs
                (ap (decide_comments q w s pr.number since) (sym e) ∙ h) good in
            (
              by,
              record {
                pr = pr;
                opened = opened;
                since = since;
                committed = asked;
                read = cs;
                listed = e;
                among = m;
                approving = a;
                newest = older;
              },
            )
      ]

  -- If the approval mode is not "auto" and the approval gate observes itself satisfied, there is a
  -- comment it rests on: it is among the comments the forge lists for the promotion's own pull
  -- request, was posted no earlier than the head commit, not by a bot, by an allowed author, and
  -- says the approve command for this promotion; and no rejection that counts as one is newer.
  pub approved_observation-Approved :
      (obs : Observation)
      → text_eq s.approval approval_auto ≡ false
      → approved_observation q w s ≡ ok obs
      → obs.satisfied ≡ true
      → (by : Comment) × Approved by
  unfolding approved_observation
  approved_observation-Approved obs gated h good = elim (Option-cases s.pr) [
    | inl closed ↦
        let waits : ok zero_observation ≡ ok obs = opened_by none closed in
        absurd (cc (waits, good))
    | inr (pr, opened) ↦
        decide_since-Approved pr (q.commit_time w s.clone_dir s.commit_sha) obs opened refl
          (opened_by (some pr) opened) good
  ]
    where
      asks : Option Pr → Result Observation
      asks o = elim o [
        | none ↦ ok zero_observation
        | some pr ↦ decide_since q w s pr.number (q.commit_time w s.clone_dir s.commit_sha)
      ]

      opened_by : (o : Option Pr) → s.pr ≡ o → asks o ≡ ok obs
      opened_by o e = ap asks (sym e) ∙ sym (if_false _ _ gated) ∙ h
