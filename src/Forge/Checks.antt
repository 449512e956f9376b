-- ===== src/Forge/Checks.antt =====
-- pkg/forge/forge.go: Summarize, the one place where checks are counted.
pub mod Counts
use hoist.Prelude.{ℕ, ◌+◌, Bool, true, false, List, [], ◌∷◌, ◌++◌, Text, text_eq}
use hoist.Redact.{Registry, strings}
use hoist.Engine.Review.{CheckSummary}

pub data CheckState : Type 0 where
  check_pending : CheckState
  check_success : CheckState
  check_skipped : CheckState
  check_failure : CheckState

pub record Check : Type 0 where
  pub name : Text
  pub state : CheckState

unfoldable pub is_named : Text → List Text → Bool
is_named n [] = false
is_named n (m ∷ ms) = elim (text_eq m n) [ true ↦ true | false ↦ is_named n ms ]

abbrev pub no_checks : CheckSummary
no_checks = record {
  total = 0;
  pending = 0;
  success = 0;
  failure = 0;
  skipped = 0;
  failed_names = [];
  skipped_names = [];
  ignored = [];
}

module _ (hidden : Registry) where
  -- The switch on a check's state.
  unfoldable pub count_check : Text → CheckState → CheckSummary → CheckSummary
  count_check name check_pending s = record s { total = s.total + 1; pending = s.pending + 1 }
  count_check name check_success s = record s { total = s.total + 1; success = s.success + 1 }
  count_check name check_skipped s = record s {
    total = s.total + 1;
    skipped = s.skipped + 1;
    skipped_names = s.skipped_names ++ (strings hidden name [] ∷ []);
  }
  count_check name check_failure s = record s {
    total = s.total + 1;
    failure = s.failure + 1;
    failed_names = s.failed_names ++ (strings hidden name [] ∷ []);
  }

  -- The loop, with the ignored names that were seen so far.
  unfoldable pub summarize_from : List Text → List Text → CheckSummary → List Check → CheckSummary
  summarize_from ignore seen s [] = s
  summarize_from ignore seen s (c ∷ cs) = elim (is_named c.name ignore) [
    | false ↦ summarize_from ignore seen (count_check c.name c.state s) cs
    | true ↦ elim (is_named c.name seen) [
      | true ↦ summarize_from ignore seen s cs
      | false ↦
          summarize_from ignore (c.name ∷ seen)
            (record s { ignored = s.ignored ++ (strings hidden c.name [] ∷ []) }) cs
    ]
  ]

  -- Summarize.
  unfoldable pub summarize : List Check → List Text → CheckSummary
  summarize checks ignore = summarize_from ignore [] no_checks checks
