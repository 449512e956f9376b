-- ===== src/Gitops/Verify.antt =====
-- pkg/gitops/verify.go: verifyLines.
use hoist.Prelude.{
  ℕ, ◌+◌, Bool, not, List, [], ◌∷◌, ◌++◌, Option, none, some, Text, codes, text_eq, ltb, ◌==◌,
  length, split, concat, decimal, quoted, if◌then◌else◌,
}
use hoist.Gitops.Types.{Edit}
use hoist.Gitops.Editable.{Styles}
use hoist.Gitops.Order.{sort_by}
use hoist.Gitops.Apply.Line.{Edited, edited, refused, replace_in_line}

-- The edits of one line, in the order of the plan.
unfoldable pub edits_on : ℕ → List Edit → List Edit
edits_on ln [] = []
edits_on ln (e ∷ es) = if e.line == ln then e ∷ edits_on ln es else edits_on ln es

unfoldable pub column_after : Edit → Edit → Bool
column_after a b = ltb b.col a.col

module _ (y : Styles) where
  -- The planned replacements of one line, one after another.
  unfoldable pub replace_all : List Edit → Text → Edited Text
  replace_all [] line = edited line
  replace_all (e ∷ es) line = elim (replace_in_line y line e) [
    | refused why ↦ refused why
    | edited line' ↦ replace_all es line'
  ]

  abbrev at_line : Text → ℕ → Text
  at_line file ln = file ++ (codes ":" ++ decimal ln)

  unfoldable pub judge_line : Text → ℕ → Text → Edited Text → Option Text
  judge_line file ln after (refused why) = some why
  judge_line file ln after (edited want) =
      if text_eq want after
      then none
      else some (
          concat (
            at_line file ln
            ∷ codes ": edited line is "
            ∷ quoted after
            ∷ codes ", expected "
            ∷ quoted want
            ∷ []))

  unfoldable pub verify_line : Text → ℕ → Text → Text → List Edit → Option Text
  unfolding judge_line replace_all
  verify_line file ln before after [] =
      if text_eq before after
      then none
      else some (
          concat (
            at_line file ln
            ∷ codes ": line changed but no edit was planned there: "
            ∷ quoted before
            ∷ codes " -> "
            ∷ quoted after
            ∷ []))
  verify_line file ln before after (e ∷ es) =
      judge_line file ln after (replace_all (sort_by column_after (e ∷ es)) before)

  -- The loop over the lines from number `ln` on: the first error.
  unfoldable pub verify_from : Text → List Edit → ℕ → List Text → List Text → Option Text
  unfolding verify_line edits_on
  verify_from file edits ln (b ∷ bs) (a ∷ as') =
      elim (verify_line file ln b a (edits_on ln edits)) [
        | some why ↦ some why
        | none ↦ verify_from file edits (ln + 1) bs as'
      ]
  verify_from file edits ln [] as' = none
  verify_from file edits ln (b ∷ bs) [] = none

  -- verifyLines: the error, if there is one.
  unfoldable pub verify_lines : Text → Text → Text → List Edit → Option Text
  unfolding verify_from
  verify_lines file before after edits =
      if not (length (split 10 before) == length (split 10 after))
      then some (
          concat (
            file
            ∷ codes ": line count changed from "
            ∷ decimal (length (split 10 before))
            ∷ codes " to "
            ∷ decimal (length (split 10 after))
            ∷ []))
      else verify_from file edits 1 (split 10 before) (split 10 after)
