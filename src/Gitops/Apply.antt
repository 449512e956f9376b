-- ===== src/Gitops/Apply.antt =====
-- pkg/gitops/apply.go: ApplyBytes.
pub mod Line
pub mod Sorted
pub mod Newlines
pub mod Accepts
use hoist.Prelude.{
  ℕ, zero, suc, ◌-◌, Bool, not, List, [], ◌∷◌, ◌++◌, Option, none, some, Text, codes, ltb, leb,
  ◌&&◌, ◌==◌, length, split, join, concat, decimal, if◌then◌else◌,
}
use hoist.Gitops.Types.{Edit}
use hoist.Gitops.Editable.{Styles}
use hoist.Gitops.Order.{sort_by}
use hoist.Gitops.Apply.Line.{Edited, edited, refused, replace_in_line}

-- Later lines first, and on one line later columns first.
unfoldable pub applied_before : Edit → Edit → Bool
applied_before a b = if not (a.line == b.line) then ltb b.line a.line else ltb b.col a.col

abbrev pub map_edited : {A B : Type 0} → (A → B) → Edited A → Edited B
map_edited f (edited a) = edited (f a)
map_edited f (refused why) = refused why

module _ (y : Styles) where
  -- The line at an index is replaced; `none`: there is no such line.
  unfoldable pub edit_line : ℕ → Edit → List Text → Option (Edited (List Text))
  edit_line n e [] = none
  edit_line zero e (l ∷ ls) = some (map_edited (λ t. t ∷ ls) (replace_in_line y l e))
  edit_line (suc n) e (l ∷ ls) = elim (edit_line n e ls) [
    | none ↦ none
    | some r ↦ some (map_edited (λ rest. l ∷ rest) r)
  ]

  outside : Edit → List Text → Text
  outside e lines = concat (
      e.file
      ∷ codes ": line "
      ∷ decimal e.line
      ∷ codes " is outside the file ("
      ∷ decimal (length lines)
      ∷ codes " lines)"
      ∷ [])

  unfoldable pub edit_lines : Edit → List Text → Edited (List Text)
  unfolding edit_line outside
  edit_lines e lines =
      if e.line == 0
      then refused (outside e lines)
      else elim (edit_line (e.line - 1) e lines) [ none ↦ refused (outside e lines) | some r ↦ r ]

  -- The loop over the sorted edits.
  unfoldable pub apply_lines : List Edit → List Text → Edited (List Text)
  unfolding edit_lines
  apply_lines [] lines = edited lines
  apply_lines (e ∷ es) lines = elim (edit_lines e lines) [
    | refused why ↦ refused why
    | edited lines' ↦ apply_lines es lines'
  ]

  -- ApplyBytes.
  unfoldable pub apply_bytes : Text → List Edit → Edited Text
  unfolding apply_lines applied_before
  apply_bytes before edits =
      map_edited (join (10 ∷ [])) (apply_lines (sort_by applied_before edits) (split 10 before))
