-- ===== src/Engine/Landing/Judged.antt =====
-- What the landing guard takes for a landing.
use hoist.Prelude.{
  ◌≡◌, ◌↔◌, ◌⊎◌, ◌≢◌, inl, inr, refl, sym, ap, ◌∙◌, true, false, not, ◌&&◌, List, [], ◌∷◌, Option,
  none, some, Text, is_empty, text_eq_iff, Bool-cases, if_true, if_false, arith,
}
use hoist.Engine.Errors.{Result, ok, err}
use hoist.Engine.State.{
  Pr, PromotionState, Observation, cleanly_satisfied, LandingAnswer, landing_yes,
}
use hoist.Engine.Landing.{no_entries, landing_observable, merged_here, judge_landing}

-- What makes an observation count.
abbrev pub IsClean : Observation → Type 0
IsClean o = (o.satisfied ≡ true) × (o.waiting ≡ false) × (is_empty o.blocked ≡ true)

cleanly_satisfied-IsClean : (o : Observation) → (cleanly_satisfied o ≡ true) ↔ IsClean o
unfolding cleanly_satisfied
cleanly_satisfied-IsClean o =
    (λ h. (ground arith, ground arith, ground arith), λ (a, b, c). ground arith)

-- The state records something that could have landed: a commit, and for a direct promotion also the
-- edits and the blobs that it is judged by.
abbrev pub Landable : PromotionState → Type 0
Landable s =
    (is_empty s.commit_sha ≡ false) × (s.direct ≡ true → (s.expected_blobs ≢ []) × (s.edits ≢ []))

-- The landing step's answer is of this promotion: it is direct, or the forge says that its PR merged
-- this commit.
abbrev pub OwnLanding : Text → PromotionState → Type 0
OwnLanding sha cp = (cp.direct ≡ true) ⊎ ((pr : Pr) × (cp.pr ≡ some pr) × (pr.head_sha ≡ sha))

no_entries-nil {ℓ} : {A : Type ℓ} (xs : List A) → (no_entries xs ≡ false) ↔ (xs ≢ [])
no_entries-nil [] = (λ h. absurd (cc h), λ n. absurd (n refl))
no_entries-nil (x ∷ xs) = (λ h e. cc e, λ n. refl)

pub landing_observable-Landable : (s : PromotionState) → (landing_observable s ≡ true) ↔ Landable s
unfolding landing_observable
landing_observable-Landable s =
    let blobs = no_entries-nil s.expected_blobs in
    let edits = no_entries-nil s.edits in
    (
      λ h. (ground arith, λ d. (blobs.0 (ground arith), edits.0 (ground arith))),
      λ (c, k). elim (Bool-cases s.direct) [
        | inr e ↦ ground arith
        | inl e ↦ let b = blobs.1 (k e).0 in let d = edits.1 (k e).1 in ground arith
      ],
    )

merged_here-own :
    (sha : Text) (o : Option Pr)
    → (merged_here sha o ≡ true) ↔ ((pr : Pr) × (o ≡ some pr) × (pr.head_sha ≡ sha))
merged_here-own sha none = (λ h. absurd (cc h), λ (pr, e, m). absurd (cc e))
merged_here-own sha (some pr) = (
  λ h. (pr, refl, (text_eq_iff pr.head_sha sha).0 h),
  λ (other, e, m). (text_eq_iff pr.head_sha sha).1 (let same : pr ≡ other = cc e in cc (same, m)),
)

own-OwnLanding :
    (sha : Text) (cp : PromotionState)
    → ((not cp.direct && not (merged_here sha cp.pr)) ≡ false) ↔ OwnLanding sha cp
own-OwnLanding sha cp = (
  λ h. elim (Bool-cases cp.direct) [
    | inl d ↦ inl d
    | inr n ↦ inr ((merged_here-own sha cp.pr).0 (ground arith))
  ],
  λ k. elim k [
    | inl d ↦ ground arith
    | inr m ↦ let here = (merged_here-own sha cp.pr).1 m in ground arith
  ],
)

pub judge_landing-yes :
    (s cp : PromotionState) (r : Result Observation)
    → (judge_landing s cp r ≡ landing_yes)
      ↔ ((o : Observation) × (r ≡ ok o) × IsClean o × OwnLanding s.commit_sha cp)
unfolding judge_landing
judge_landing-yes s cp (err e) = (λ h. absurd (cc h), λ (o, k, c, w). absurd (cc k))
judge_landing-yes s cp (ok o) = (
  λ h. elim (Bool-cases (cleanly_satisfied o)) [
    | inr n ↦ absurd (other (sym (if_true _ _ (ap not n)) ∙ h))
    | inl c ↦ elim (Bool-cases (not cp.direct && not (merged_here s.commit_sha cp.pr))) [
      | inl n ↦ absurd (other (sym (if_false _ _ (ap not c) ∙ if_true _ _ n) ∙ h))
      | inr w ↦ (o, refl, (cleanly_satisfied-IsClean o).0 c, (own-OwnLanding s.commit_sha cp).0 w)
    ]
  ],
  λ (x, k, c, w).
      let same : x ≡ o = cc k in
      if_false _ _ (ap not (ap cleanly_satisfied (sym same) ∙ (cleanly_satisfied-IsClean x).1 c))
      ∙ if_false _ _ ((own-OwnLanding s.commit_sha cp).1 w),
)
  where
    other : LandingAnswer.landing_no ≡ landing_yes → ⊥
    other h = cc h
