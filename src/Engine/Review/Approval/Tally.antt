-- ===== src/Engine/Review/Approval/Tally.antt =====
-- What the loop over the comments of the approval gate has counted at its end.
use hoist.Prelude.{
  ℕ, ◌≡◌, refl, sym, ◌∙◌, ap, inl, inr, ◌⊎◌, Bool, true, false, List, [], ◌∷◌, some, Text,
  text_eq_iff, All, arith, Bool-cases, Option-cases, if_true, if_false,
}
use mathlib.Core.Path.{subst}
use mathlib.Core.List.{Memᴰ}
use hoist.Engine.Errors.{Err, Result, ok, err}
use hoist.Engine.State.{PromotionState}
use hoist.Engine.Review.{Comment, Queries}
use hoist.Engine.Review.Command.{approves, rejects}
use hoist.Engine.Review.Approval.{
  Votes, cached, is_newer_comment, is_allowed, allowed_cached, vote, is_skipped, count_vote,
  one_comment, all_comments, bind_votes, refused_author,
}
use hoist.Engine.Review.Approval.Order.{Result-cases, not_newer_refl, not_newer_than_newer}

module _ {W : Type 0} (q : Queries W) (w : W) (s : PromotionState) where
  -- The comment counts: posted at or after the commit, not by a bot, and by an allowed author.
  pub record Counts (since : ℕ) (c : Comment) : Type 0 where
    pub in_time : is_skipped q w s since c ≡ false
    pub allowed : is_allowed q w s c.author ≡ ok true

  abbrev pub IsCache : List (Text × Bool) → Type 0
  IsCache = All (λ e. is_allowed q w s e.0 ≡ ok e.1)

  cached-is_allowed :
      (login : Text) (cache : List (Text × Bool)) (a : Bool)
      → IsCache cache
      → cached login cache ≡ some a
      → is_allowed q w s login ≡ ok a
  unfolding cached
  cached-is_allowed login [] a k h = cc
  cached-is_allowed login ((l, b) ∷ cache) a k h =
      ground (arith, text_eq_iff l login, cached-is_allowed login cache a k.1)

  -- What the vote does to the two votes, whatever the cache.
  vote_votes :
      (c : Comment) (v : Votes) (cache : List (Text × Bool))
      → let v' = vote q w s c (record v { cache = cache }) in
        (v'.cache ≡ cache)
        × (v'.approve ≡ (vote q w s c v).approve)
        × (v'.reject ≡ (vote q w s c v).reject)
  unfolding vote
  vote_votes c v cache = ground arith

  data Counted (since : ℕ) (c : Comment) (v v' : Votes) : Type 0 where
    left_out :
        ¬ Counts since c → v'.approve ≡ v.approve → v'.reject ≡ v.reject → Counted since c v v'
    voted :
        Counts since c
        → v'.approve ≡ (vote q w s c v).approve
        → v'.reject ≡ (vote q w s c v).reject
        → Counted since c v v'

  count_vote-Counted :
      (number since : ℕ) (c : Comment) (v v' : Votes) (allowed : Bool) (cache : List (Text × Bool))
      → is_skipped q w s since c ≡ false
      → is_allowed q w s c.author ≡ ok allowed
      → IsCache cache
      → count_vote q w s number c (ok (allowed, record v { cache = cache })) ≡ ok v'
      → IsCache v'.cache × Counted since c v v'
  unfolding count_vote
  count_vote-Counted number since c v v' false cache in_time a k h =
      let same : record v { cache = cache } ≡ v' = cc in
      subst (λ (u : Votes). IsCache u.cache × Counted since c v u) same
        (k, left_out (λ counts. not_allowed (a) counts.allowed) refl refl)
    where
      not_allowed : {r : Result Bool} → r ≡ ok false → r ≡ ok true → ⊥
      not_allowed e f = cc
  count_vote-Counted number since c v v' true cache in_time a k h =
      let same : vote q w s c (record v { cache = cache }) ≡ v' = cc in
      let (kept, ap_eq, re_eq) = vote_votes c v cache in
      subst (λ (u : Votes). IsCache u.cache × Counted since c v u) same
        (rw kept k, voted (record { in_time = in_time; allowed = a }) ap_eq re_eq)

  -- The cache never changes an answer.
  allowed_cached-cases :
      (login : Text) (v : Votes)
      → IsCache v.cache
      → ((allowed : Bool) × (cache : List (Text × Bool)) × (allowed_cached q w s login v
            ≡ ok (allowed, record v { cache = cache }))
          × (is_allowed q w s login ≡ ok allowed)
          × IsCache cache)
        ⊎ ((e : Err) × (allowed_cached q w s login v ≡ err e))
  unfolding allowed_cached
  allowed_cached-cases login v k = elim (Option-cases (cached login v.cache)) [
    | inr (a, e) ↦
        inl (a, v.cache, rw (e, allowed_cached) refl, cached-is_allowed login v.cache a k e, k)
    | inl fresh ↦ elim (Result-cases (is_allowed q w s login)) [
      | inl (a, e) ↦ inl (a, (login, a) ∷ v.cache, rw (fresh, e, allowed_cached) refl, e, (e, k))
      | inr (x, e) ↦ inr (x, rw (fresh, e, allowed_cached) refl)
    ]
  ]

  one_comment-Counted :
      (number since : ℕ) (c : Comment) (v v' : Votes)
      → IsCache v.cache
      → one_comment q w s number since c v ≡ ok v'
      → IsCache v'.cache × Counted since c v v'
  unfolding one_comment count_vote
  one_comment-Counted number since c v v' k h = elim (Bool-cases (is_skipped q w s since c)) [
    | inl skipped ↦
        let left : ok v ≡ ok v' = sym (if_true _ _ skipped) ∙ h in
        let same : v ≡ v' = cc in
        subst (λ (u : Votes). IsCache u.cache × Counted since c v u) same
          (k, left_out (λ counts. cc (skipped, counts.in_time)) refl refl)
    | inr in_time ↦
        let counted : count_vote q w s number c (allowed_cached q w s c.author v) ≡ ok v' =
          sym (if_false _ _ in_time) ∙ h in
        elim (allowed_cached-cases c.author v k) [
          | inl (allowed, cache, e, a, k') ↦
              count_vote-Counted number since c v v' allowed cache in_time a k'
                (ap (count_vote q w s number c) (sym e) ∙ counted)
          | inr (x, e) ↦
              let failed : err (refused_author q w s number c.author x) ≡ ok v' =
                ap (count_vote q w s number c) (sym e) ∙ counted in
              absurd (cc failed)
        ]
  ]

  -- The comment is an approval that counts, and the same of a rejection. A comment that holds both
  -- commands is an approval.
  abbrev pub Approving : ℕ → Comment → Type 0
  Approving since c = Counts since c × (approves s.id c.body ≡ true)

  abbrev pub Rejecting : ℕ → Comment → Type 0
  Rejecting since c = Counts since c × (approves s.id c.body ≡ false) × (rejects s.id c.body ≡ true)

  vote-approve :
      (c : Comment) (v : Votes)
      → ((vote q w s c v).approve ≡ v.approve)
        ⊎ ((approves s.id c.body ≡ true) × ((vote q w s c v).approve ≡ some c))
  unfolding vote
  vote-approve c v = ground arith

  vote-reject_grows :
      (c r : Comment) (v : Votes)
      → is_newer_comment r v.reject ≡ false
      → is_newer_comment r (vote q w s c v).reject ≡ false
  unfolding vote
  vote-reject_grows c r v h = elim (Bool-cases (approves s.id c.body)) [
    | inl yes_vote ↦ elim (Bool-cases (is_newer_comment c v.approve)) [
      | inl n ↦ rw (yes_vote, n, vote) h
      | inr n ↦ rw (yes_vote, n, vote) h
    ]
    | inr no_vote ↦ elim (Bool-cases (rejects s.id c.body)) [
      | inr silent ↦ rw (no_vote, silent, vote) h
      | inl says_no ↦ elim (Bool-cases (is_newer_comment c v.reject)) [
        | inl n ↦ rw (no_vote, says_no, n, vote) (not_newer_than_newer c r v.reject n h)
        | inr n ↦ rw (no_vote, says_no, n, vote) h
      ]
    ]
  ]

  vote-rejects :
      (c : Comment) (v : Votes)
      → approves s.id c.body ≡ false
      → rejects s.id c.body ≡ true
      → is_newer_comment c (vote q w s c v).reject ≡ false
  unfolding vote
  vote-rejects c v a r = elim (Bool-cases (is_newer_comment c v.reject)) [
    | inl n ↦ rw (a, r, n, vote) (not_newer_refl c)
    | inr n ↦ rw (a, r, n, vote) n
  ]

  pub record Tallied (since : ℕ) (cs : List Comment) (v v' : Votes) : Type 0 where
    pub origin :
        (v'.approve ≡ v.approve)
        ⊎ ((c : Comment) × Memᴰ c cs × Approving since c × (v'.approve ≡ some c))
    pub kept :
        (r : Comment) → is_newer_comment r v.reject ≡ false → is_newer_comment r v'.reject ≡ false
    pub bounds : All (λ r. Rejecting since r → is_newer_comment r v'.reject ≡ false) cs

  Counted-origin :
      (since : ℕ) (c : Comment) (v v' : Votes)
      → Counted since c v v'
      → (v'.approve ≡ v.approve) ⊎ (Approving since c × (v'.approve ≡ some c))
  Counted-origin since c v v' (left_out n a r) = inl a
  Counted-origin since c v v' (voted k a r) = elim (vote-approve c v) [
    | inl e ↦ inl (a ∙ e)
    | inr (yes_vote, e) ↦ inr ((k, yes_vote), a ∙ e)
  ]

  Counted-kept :
      (since : ℕ) (c : Comment) (v v' : Votes)
      → Counted since c v v'
      → (r : Comment) → is_newer_comment r v.reject ≡ false
      → is_newer_comment r v'.reject ≡ false
  Counted-kept since c v v' (left_out n a e) r h = ap (is_newer_comment r) e ∙ h
  Counted-kept since c v v' (voted k a e) r h =
      ap (is_newer_comment r) e ∙ vote-reject_grows c r v h

  Counted-bound :
      (since : ℕ) (c : Comment) (v v' : Votes)
      → Counted since c v v'
      → Rejecting since c
      → is_newer_comment c v'.reject ≡ false
  Counted-bound since c v v' (left_out n a e) (k, no_a, r) = absurd (n k)
  Counted-bound since c v v' (voted _ a e) (k, no_a, r) =
      ap (is_newer_comment c) e ∙ vote-rejects c v no_a r

  Tallied-cons :
      (since : ℕ) (c : Comment) (cs : List Comment) (v u v' : Votes)
      → Counted since c v u
      → Tallied since cs u v'
      → Tallied since (c ∷ cs) v v'
  Tallied-cons since c cs v u v' counted t = record {
    origin = elim t.origin [
      | inr (x, m, a, e) ↦ inr (x, Memᴰ.tail m, a, e)
      | inl e ↦ elim (Counted-origin since c v u counted) [
        | inl f ↦ inl (e ∙ f)
        | inr (a, f) ↦ inr (c, Memᴰ.head refl, a, e ∙ f)
      ]
    ];
    kept = λ r h. t.kept r (Counted-kept since c v u counted r h);
    bounds = (λ r. t.kept c (Counted-bound since c v u counted r), t.bounds);
  }

  pub all_comments-Tallied :
      (number since : ℕ) (cs : List Comment) (v v' : Votes)
      → IsCache v.cache
      → all_comments q w s number since cs v ≡ ok v'
      → Tallied since cs v v'
  unfolding all_comments
  all_comments-Tallied number since [] v v' k h =
      let same : v ≡ v' = cc in
      subst (Tallied since [] v) same (record { origin = inl refl; kept = λ r n. n; bounds = tt })
  all_comments-Tallied number since (c ∷ cs) v v' k h =
      elim (Result-cases (one_comment q w s number since c v)) [
        | inr (x, e) ↦
            let failed : err x ≡ ok v' =
              ap (λ a. bind_votes q w s a (λ u. all_comments q w s number since cs u)) (sym e)
              ∙ h in
            absurd (cc failed)
        | inl (u, e) ↦
            let rest : all_comments q w s number since cs u ≡ ok v' =
              ap (λ a. bind_votes q w s a (λ u. all_comments q w s number since cs u)) (sym e)
              ∙ h in
            let (k', counted) = one_comment-Counted number since c v u k e in
            Tallied-cons since c cs v u v' counted
              (all_comments-Tallied number since cs u v' k' rest)
      ]
