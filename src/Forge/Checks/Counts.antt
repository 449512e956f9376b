-- ===== src/Forge/Checks/Counts.antt =====
-- What Summarize counts, against a count of each state by itself.
use hoist.Prelude.{
  Memᴰ-tested, ◌↔◌, ℕ, zero, suc, ◌++◌, append-nil, append_assoc, ◌+◌, ◌≡◌, refl, Bool, true, false,
  List, [], ◌∷◌, Text, Bool-cases, arith, if◌then◌else◌, inl, inr,
}
use mathlib.Core.List.{Memᴰ}
use hoist.Redact.{Registry, strings}
use hoist.Engine.Review.{CheckSummary}
use hoist.Forge.Checks.{
  CheckState, check_pending, check_success, check_skipped, check_failure, Check, is_named,
  no_checks, count_check, summarize_from, summarize,
}

-- The weights of the checks that are not ignored, by their state.
abbrev pub weigh : (CheckState → ℕ) → List Text → List Check → ℕ
weigh f ignore [] = 0
weigh f ignore (c ∷ cs) = (if is_named c.name ignore then 0 else f c.state) + weigh f ignore cs

abbrev pub one_each : CheckState → ℕ
one_each check_pending = 1
one_each check_success = 1
one_each check_skipped = 1
one_each check_failure = 1

abbrev pub one_pending : CheckState → ℕ
one_pending check_pending = 1
one_pending check_success = 0
one_pending check_skipped = 0
one_pending check_failure = 0

abbrev pub one_success : CheckState → ℕ
one_success check_pending = 0
one_success check_success = 1
one_success check_skipped = 0
one_success check_failure = 0

abbrev pub one_skipped : CheckState → ℕ
one_skipped check_pending = 0
one_skipped check_success = 0
one_skipped check_skipped = 1
one_skipped check_failure = 0

abbrev pub one_failure : CheckState → ℕ
one_failure check_pending = 0
one_failure check_success = 0
one_failure check_skipped = 0
one_failure check_failure = 1

-- The names of the checks in a state that are not ignored, in their order, without the secrets.
abbrev pub named : (CheckState → ℕ) → Registry → List Text → List Check → List Text
named f hidden ignore [] = []
named f hidden ignore (c ∷ cs) =
    (if is_named c.name ignore
      then []
      else elim (f c.state) [ zero ↦ [] | suc n ↦ strings hidden c.name [] ∷ [] ])
    ++ named f hidden ignore cs

-- The summary `t` is `s` with these checks counted.
pub record Adds (hidden : Registry) (ignore : List Text) (cs : List Check) (s t : CheckSummary)
    : Type 0 where
  pub all : t.total ≡ s.total + weigh one_each ignore cs
  pub pendings : t.pending ≡ s.pending + weigh one_pending ignore cs
  pub successes : t.success ≡ s.success + weigh one_success ignore cs
  pub skips : t.skipped ≡ s.skipped + weigh one_skipped ignore cs
  pub failures : t.failure ≡ s.failure + weigh one_failure ignore cs
  pub failed_listed : t.failed_names ≡ s.failed_names ++ named one_failure hidden ignore cs
  pub skipped_listed : t.skipped_names ≡ s.skipped_names ++ named one_skipped hidden ignore cs

is_named-Memᴰ : (n : Text) (ms : List Text) → (is_named n ms ≡ true) ↔ Memᴰ n ms
unfolding is_named
is_named-Memᴰ n [] = (λ h. absurd (cc h), λ m. elim m [ ])
is_named-Memᴰ n (m ∷ ms) = Memᴰ-tested n m ms (is_named n ms) (is_named-Memᴰ n ms)

one_each-sum :
    (st : CheckState)
    → one_each st ≡ one_pending st + (one_success st + (one_skipped st + one_failure st))
one_each-sum check_pending = refl
one_each-sum check_success = refl
one_each-sum check_skipped = refl
one_each-sum check_failure = refl

add_sum :
    (b : Bool) (x p u k f x' p' u' k' f' : ℕ)
    → x ≡ p + (u + (k + f))
    → x' ≡ p' + (u' + (k' + f'))
    → (if b then 0 else x) + x'
      ≡ ((if b then 0 else p) + p')
        + (((if b then 0 else u) + u')
            + (((if b then 0 else k) + k') + ((if b then 0 else f) + f')))
add_sum true x p u k f x' p' u' k' f' h h' = omega arith
add_sum false x p u k f x' p' u' k' f' h h' = omega arith

weigh-sum :
    (ignore : List Text) (cs : List Check)
    → weigh one_each ignore cs
      ≡ weigh one_pending ignore cs
        + (weigh one_success ignore cs
            + (weigh one_skipped ignore cs + weigh one_failure ignore cs))
weigh-sum ignore [] = refl
weigh-sum ignore (c ∷ cs) =
    add_sum (is_named c.name ignore) _ _ _ _ _ _ _ _ _ _ (one_each-sum c.state)
      (weigh-sum ignore cs)

module _ (hidden : Registry) where
  count_check-Adds :
      (ignore : List Text) (n : Text) (st : CheckState) (cs : List Check) (s t : CheckSummary)
      → is_named n ignore ≡ false
      → Adds hidden ignore cs (count_check hidden n st s) t
      → Adds hidden ignore (record { name = n; state = st } ∷ cs) s t
  unfolding count_check
  count_check-Adds ignore n check_pending cs s t e h = ground arith
  count_check-Adds ignore n check_success cs s t e h = ground arith
  count_check-Adds ignore n check_skipped cs s t e h = ground (
    arith,
    append_assoc s.skipped_names (strings hidden n [] ∷ []) (named one_skipped hidden ignore cs),
  )
  count_check-Adds ignore n check_failure cs s t e h = ground (
    arith,
    append_assoc s.failed_names (strings hidden n [] ∷ []) (named one_failure hidden ignore cs),
  )

  ignored-Adds :
      (ignore : List Text) (c : Check) (cs : List Check) (x : List Text) (s t : CheckSummary)
      → is_named c.name ignore ≡ true
      → Adds hidden ignore cs (record s { ignored = x }) t
      → Adds hidden ignore (c ∷ cs) s t
  ignored-Adds ignore c cs x s t e h = ground arith

  summarize_from-Adds :
      (ignore seen : List Text) (cs : List Check) (s : CheckSummary)
      → Adds hidden ignore cs s (summarize_from hidden ignore seen s cs)
  unfolding summarize_from
  summarize_from-Adds ignore seen [] s =
      ground (arith, append-nil s.failed_names, append-nil s.skipped_names)
  summarize_from-Adds ignore seen (c ∷ cs) s = elim (Bool-cases (is_named c.name ignore)) [
    | inr e ↦
        rw (e, summarize_from)
          (count_check-Adds ignore c.name c.state cs s _ e
            (summarize_from-Adds ignore seen cs (count_check hidden c.name c.state s)))
    | inl e ↦ elim (Bool-cases (is_named c.name seen)) [
      | inl d ↦
          rw (e, d, summarize_from)
            (ignored-Adds ignore c cs s.ignored s _ e (summarize_from-Adds ignore seen cs s))
      | inr d ↦
          rw (e, d, summarize_from)
            (ignored-Adds ignore c cs _ s _ e (summarize_from-Adds ignore (c.name ∷ seen) cs _))
    ]
  ]

  -- Summarize ignores exactly the checks whose name is in the list. It counts each other check once,
  -- under its own state, and the total is the sum of the four counts. The failed names are the names
  -- of the failed ones, in the order of the checks, with the registered secrets taken out, and the
  -- skipped names those of the skipped ones.
  pub summarize-Adds :
      (checks : List Check) (ignore : List Text)
      → Adds hidden ignore checks no_checks (summarize hidden checks ignore)
        × (let s = summarize hidden checks ignore in
            s.total ≡ s.pending + (s.success + (s.skipped + s.failure)))
        × ((n : Text) → (is_named n ignore ≡ true) ↔ Memᴰ n ignore)
  unfolding summarize
  summarize-Adds checks ignore =
      let a = summarize_from-Adds ignore [] checks no_checks in
      (
        a,
        omega (arith, a.all, a.pendings, a.successes, a.skips, a.failures, weigh-sum ignore checks),
        λ n. is_named-Memᴰ n ignore,
      )
