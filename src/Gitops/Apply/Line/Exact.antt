-- ===== src/Gitops/Apply/Line/Exact.antt =====
-- What an edited line is.
use hoist.Prelude.{
  ℕ, ◌+◌, ◌≡◌, refl, sym, ap, ◌∙◌, Bool, true, false, Option, none, some, Text, is_empty,
  has_prefix, has_prefix-drop, length, take, drop, List, [], ◌∷◌, ◌++◌, if_elim, ◌||◌, arith, zero,
  suc,
}
use mathlib.Core.Path.{subst}
use hoist.Image.Ref.{to_text}
use hoist.Gitops.Types.{Edit}
use hoist.Gitops.Editable.{Styles, check_editable}
use hoist.Gitops.Apply.Line.{
  Edited, edited, refused, require, byte_offset, key_before, path_key, check_scalar_start, start_at,
  ends_in, plain_safe, quotable, plain_end, starts_with, quote_of, spliced, replace_from,
  replace_at, replace_in_line,
}

require-edited :
    {A : Type 0} (b : Bool) (why : Text) (r : Edited A) {a : A}
    → require b why r ≡ edited a
    → (b ≡ true) × (r ≡ edited a)
unfolding require
require-edited {A} b why r {a} h = split b h
  where
    split : (b : Bool) → require b why r ≡ edited a → (b ≡ true) × (r ≡ edited a)
    split true h = (refl, h)
    split false h = absurd (cc h)

-- What stands around the scalar: nothing, or the style's quotes, and what may stand between them.
abbrev pub Surrounded : Text → Edit → ℕ → ℕ → Option ℕ → Type 0
Surrounded line e off start none =
    (start ≡ off)
    × (plain_end (drop (start + length e.raw) line) ≡ true)
    × (plain_safe (to_text e.new) ≡ true)
Surrounded line e off start (some q) =
    (start ≡ off + 1)
    × (starts_with q (drop off line) ≡ true)
    × (starts_with q (drop (start + length e.raw) line) ≡ true)
    × (quotable q (to_text e.new) ≡ true)

-- The scalar's key stands before the recorded column, the planned text is there, and only it is
-- replaced.
pub record Exact (y : Styles) (line line' : Text) (e : Edit) : Type 0 where
  pub editable : check_editable y e ≡ none
  pub off : ℕ
  pub at_column : byte_offset line e.col ≡ some off
  pub after_key : key_before (take off line) (path_key e.path) ≡ true
  pub start : ℕ
  pub surrounded : Surrounded line e off start (quote_of y e.style)
  pub before : line ≡ spliced line start (start + length e.raw) e.raw
  pub result : line' ≡ spliced line start (start + length e.raw) (to_text e.new)

take-drop : {A : Type 0} (n : ℕ) (xs : List A) → take n xs ++ drop n xs ≡ xs
take-drop zero xs = refl
take-drop (suc n) [] = refl
take-drop (suc n) (x ∷ xs) = ap (◌∷◌ x) (take-drop n xs)

next : (n m : ℕ) → suc (n + m) ≡ suc n + m
next n m = omega arith

drop-nil : {A : Type 0} (n : ℕ) → drop {A = A} n [] ≡ []
drop-nil zero = refl
drop-nil (suc n) = refl

drop-drop : {A : Type 0} (n m : ℕ) (xs : List A) → drop m (drop n xs) ≡ drop (n + m) xs
drop-drop zero m xs = ap (λ k. drop k xs) (omega arith)
drop-drop (suc n) m [] = drop-nil m ∙ sym (drop-nil (suc n + m))
drop-drop (suc n) m (x ∷ xs) = drop-drop n m xs ∙ ap (λ k. drop k (x ∷ xs)) (next n m)

there :
    (line raw : Text) (start : ℕ)
    → has_prefix (drop start line) raw ≡ true
    → line ≡ spliced line start (start + length raw) raw
there line raw start h =
    sym (take-drop start line)
    ∙ ap (◌++◌ (take start line)) (
        has_prefix-drop (drop start line) raw h ∙ ap (◌++◌ raw) (drop-drop start (length raw) line))

module _ (y : Styles) (line line' : Text) (e : Edit) where
  replace_from-edited :
      (off : ℕ) (q : Option ℕ)
      → replace_from line e off q ≡ edited line'
      → (start : ℕ) × Surrounded line e off start q
        × (has_prefix (drop start line) e.raw ≡ true)
        × (line' ≡ spliced line start (start + length e.raw) (to_text e.new))
  unfolding replace_from
  replace_from-edited off none h =
      let (raw, h1) = require-edited _ _ _ h in
      let (ends, h2) = require-edited _ _ _ h1 in
      let (safe, h3) = require-edited _ _ _ h2 in (off, (refl, ends, safe), raw, cc h3)
  replace_from-edited off (some q) h =
      let (opens, h1) = require-edited _ _ _ h in
      let (raw, h2) = require-edited _ _ _ h1 in
      let (closes, h3) = require-edited _ _ _ h2 in
      let (safe, h4) = require-edited _ _ _ h3 in (off + 1, (refl, opens, closes, safe), raw, cc h4)

  replace_at-edited :
      (r : Edited ℕ)
      → replace_at y line e r ≡ edited line'
      → (off : ℕ) × (r ≡ edited off) × (replace_from line e off (quote_of y e.style) ≡ edited line')
  unfolding replace_at
  replace_at-edited (edited off) h = (off, refl, h)
  replace_at-edited (refused why) h = absurd (cc h)

  start_at-edited :
      (key : Text) (o : Option ℕ) (off : ℕ)
      → start_at line e.occurrence key o ≡ edited off
      → (o ≡ some off) × (key_before (take off line) key ≡ true)
  unfolding start_at
  start_at-edited key none off h = absurd (cc h)
  start_at-edited key (some k) off h =
      let (fits, same) = require-edited _ _ _ h in
      let k_off : k ≡ off = cc same in
      (ap some k_off, subst (λ (n : ℕ). key_before (take n line) key ≡ true) k_off fits)

  check_scalar_start-edited :
      (off : ℕ)
      → check_scalar_start line e.occurrence ≡ edited off
      → (byte_offset line e.col ≡ some off) × (key_before (take off line) (path_key e.path) ≡ true)
  unfolding check_scalar_start
  check_scalar_start-edited off h =
      if_elim
        (λ (r : Edited ℕ).
          r ≡ edited off
          → (byte_offset line e.col ≡ some off)
            × (key_before (take off line) (path_key e.path) ≡ true))
        (is_empty (path_key e.path) || ends_in b']' (path_key e.path)) (λ _ k. absurd (cc k))
        (λ _ k. start_at-edited (path_key e.path) (byte_offset line e.col) off k) h

  -- A line that replaceInLine accepts has the scalar's own key before the recorded column, then the
  -- planned text, and its style's quotes or a terminator around it, in which the new reference may
  -- stand; the result is that line with the planned text replaced by the new reference, every other
  -- byte kept, and the edit is one that checkEditable allows.
  pub replace_in_line-Exact : replace_in_line y line e ≡ edited line' → Exact y line line' e
  unfolding replace_in_line
  replace_in_line-Exact h = by_editable (check_editable y e) refl h
    where
      by_editable :
          (o : Option Text)
          → check_editable y e ≡ o
          → elim o [
            | some why ↦ refused why
            | none ↦ replace_at y line e (check_scalar_start line e.occurrence)
          ]
            ≡ edited line'
          → Exact y line line' e
      by_editable (some why) o h = absurd (cc h)
      by_editable none o h =
          let (off, starts, replaced) =
            replace_at-edited (check_scalar_start line e.occurrence) h in
          let (column, key) = check_scalar_start-edited off starts in
          let (start, around, raw, result) =
            replace_from-edited off (quote_of y e.style) replaced in
          record {
            editable = o;
            off = off;
            at_column = column;
            after_key = key;
            start = start;
            surrounded = around;
            before = there line e.raw start raw;
            result = result;
          }
