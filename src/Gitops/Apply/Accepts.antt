-- ===== src/Gitops/Apply/Accepts.antt =====
-- What ApplyBytes writes is what verifyLines accepts.
use hoist.Prelude.{
  ℕ, zero, suc, ◌+◌, ◌-◌, ◌<◌, ◌≡◌, ◌≢◌, refl, sym, ap, ◌∙◌, inl, inr, true, false, not, List, [],
  ◌∷◌, Option, none, some, Text, Without, All, Bool-cases, length, text_eq_refl, text_eq_iff, split,
  join, split-Without, split-join, ◌==◌, if_true, if_false, arith,
}
use mathlib.Core.Path.{subst}
use mathlib.Core.Option.{some-injective}
use hoist.Gitops.Types.{Edit}
use hoist.Gitops.Editable.{Styles}
use hoist.Gitops.Order.{sort_by}
use hoist.Gitops.Apply.{
  applied_before, map_edited, outside, edit_line, edit_lines, apply_lines, apply_bytes,
}
use hoist.Gitops.Apply.Line.{Edited, edited, refused, replace_in_line}
use hoist.Gitops.Apply.Newlines.{replace_in_line-Without}
use hoist.Gitops.Apply.Sorted.{edits_on-sort_by}
use hoist.Gitops.Verify.{
  edits_on, column_after, replace_all, judge_line, verify_line, verify_from, verify_lines,
}

as_many : (n m : ℕ) → n ≡ m → not (n == m) ≡ false
as_many n m e = ground (arith, e)

module _ (y : Styles) where
  -- Each line, from number `ln` on, is what its edits make of the line before.
  abbrev Folded : List Edit → ℕ → List Text → List Text → Type 0
  Folded es ln [] [] = Unit
  Folded es ln [] (a ∷ as') = ⊥
  Folded es ln (b ∷ bs) [] = ⊥
  Folded es ln (b ∷ bs) (a ∷ as') =
      (replace_all y (edits_on ln es) b ≡ edited a) × Folded es (ln + 1) bs as'

  Folded-nil : (ln : ℕ) (ls : List Text) → Folded [] ln ls ls
  unfolding replace_all edits_on
  Folded-nil ln [] = tt
  Folded-nil ln (l ∷ ls) = (refl, Folded-nil (ln + 1) ls)

  -- An edit of an earlier line changes nothing.
  Folded-earlier :
      (e : Edit) (es : List Edit) (ln : ℕ) (bs as' : List Text)
      → e.line < ln
      → Folded es ln bs as'
      → Folded (e ∷ es) ln bs as'
  unfolding edits_on
  Folded-earlier e es ln [] [] h f = tt
  Folded-earlier e es ln [] (a ∷ as') h f = f
  Folded-earlier e es ln (b ∷ bs) [] h f = f
  Folded-earlier e es ln (b ∷ bs) (a ∷ as') h f =
      let off : (e.line == ln) ≡ false = ground (arith, h) in
      (
        ap (λ l. replace_all y l b) (if_false (e ∷ edits_on ln es) (edits_on ln es) off) ∙ f.0,
        Folded-earlier e es (ln + 1) bs as' (omega (arith, h)) f.1,
      )

  -- What editing one line does.
  edited_line :
      (e : Edit) (r : Edited Text) (ls mid : List Text)
      → map_edited (λ t. t ∷ ls) r ≡ edited mid
      → (t : Text) × (r ≡ edited t) × (mid ≡ t ∷ ls)
  edited_line e (edited t) ls mid h = (t, refl, cc h)
  edited_line e (refused why) ls mid h = absurd (cc h)

  edited_rest :
      (r : Edited (List Text)) (l : Text) (mid : List Text)
      → map_edited (λ rest. l ∷ rest) r ≡ edited mid
      → (rest : List Text) × (r ≡ edited rest) × (mid ≡ l ∷ rest)
  edited_rest (edited rest) l mid h = (rest, refl, cc h)
  edited_rest (refused why) l mid h = absurd (cc h)

  replaced_first :
      (e : Edit) (es : List Edit) (ln : ℕ) (l t : Text) (ls out : List Text)
      → e.line ≡ ln
      → replace_in_line y l e ≡ edited t
      → Folded es ln (t ∷ ls) out
      → Folded (e ∷ es) ln (l ∷ ls) out
  unfolding edits_on replace_all
  replaced_first e es ln l t ls [] at r f = f
  replaced_first e es ln l t ls (a ∷ as') at r f =
      let on : (e.line == ln) ≡ true = ground (arith, at) in
      (
        ap (λ q. replace_all y q l) (if_true (e ∷ edits_on ln es) (edits_on ln es) on)
            ∙ (ap by_result r ∙ f.0),
        Folded-earlier e es (ln + 1) ls as' (omega (arith, at)) f.1,
      )
    where
      by_result : Edited Text → Edited Text
      by_result r = elim r [
        | refused why ↦ refused why
        | edited line ↦ replace_all y (edits_on ln es) line
      ]

  kept_first :
      (e : Edit) (es : List Edit) (ln : ℕ) (l : Text) (rest ls out : List Text)
      → ln < e.line
      → Folded es ln (l ∷ rest) out
      → ((more : List Text) → Folded es (ln + 1) rest more → Folded (e ∷ es) (ln + 1) ls more)
      → Folded (e ∷ es) ln (l ∷ ls) out
  unfolding edits_on
  kept_first e es ln l rest ls [] at f go = f
  kept_first e es ln l rest ls (a ∷ as') at f go =
      let off : (e.line == ln) ≡ false = ground (arith, at) in
      (
        ap (λ q. replace_all y q l) (if_false (e ∷ edits_on ln es) (edits_on ln es) off) ∙ f.0,
        go as' f.1,
      )

  Folded-edit_line :
      (n : ℕ) (e : Edit) (es : List Edit) (ln : ℕ) (ls mid out : List Text)
      → e.line ≡ ln + n
      → edit_line y n e ls ≡ some (edited mid)
      → Folded es ln mid out
      → Folded (e ∷ es) ln ls out
  unfolding edit_line
  Folded-edit_line n e es ln [] mid out at h f = absurd (none_left n h)
    where
      none_left : (n : ℕ) → edit_line y n e [] ≡ some (edited mid) → ⊥
      none_left zero h = cc h
      none_left (suc n) h = cc h
  Folded-edit_line zero e es ln (l ∷ ls) mid out at h f =
      let (t, r, same) = edited_line e (replace_in_line y l e) ls mid (some-injective _ _ h) in
      replaced_first e es ln l t ls out (omega (arith, at)) r
        (subst (λ (m : List Text). Folded es ln m out) same f)
  Folded-edit_line (suc n) e es ln (l ∷ ls) mid out at h f =
      by_rest (edit_line y n e ls) refl h (Folded-edit_line n e es (ln + 1) ls)
    where
      by_rest :
          (o : Option (Edited (List Text)))
          → edit_line y n e ls ≡ o
          → elim o [ none ↦ none | some r ↦ some (map_edited (λ rest. l ∷ rest) r) ]
            ≡ some (edited mid)
          → ((rest more : List Text)
              → e.line ≡ (ln + 1) + n
              → edit_line y n e ls ≡ some (edited rest)
              → Folded es (ln + 1) rest more
              → Folded (e ∷ es) (ln + 1) ls more)
          → Folded (e ∷ es) ln (l ∷ ls) out
      by_rest none o h go = absurd (cc h)
      by_rest (some r) o h go =
          let (rest, is_rest, same) = edited_rest r l mid (some-injective _ _ h) in
          kept_first e es ln l rest ls out (omega (arith, at))
            (subst (λ (m : List Text). Folded es ln m out) same f)
            (λ more g. go rest more (omega (arith, at)) (o ∙ ap some is_rest) g)

  Folded-edit_lines :
      (e : Edit) (es : List Edit) (ls mid out : List Text)
      → edit_lines y e ls ≡ edited mid
      → Folded es 1 mid out
      → Folded (e ∷ es) 1 ls out
  unfolding edit_lines
  Folded-edit_lines e es ls mid out h f = elim (Bool-cases (e.line == 0)) [
    | inl z ↦ absurd (cc (if_true _ _ z, h))
    | inr pos ↦
        by_line (edit_line y (e.line - 1) e ls) refl (ground (arith, pos))
          (sym (if_false _ _ pos) ∙ h)
  ]
    where
      by_line :
          (o : Option (Edited (List Text)))
          → edit_line y (e.line - 1) e ls ≡ o
          → e.line ≡ 1 + (e.line - 1)
          → elim o [ none ↦ refused (outside y e ls) | some r ↦ r ] ≡ edited mid
          → Folded (e ∷ es) 1 ls out
      by_line none o at h = absurd (cc h)
      by_line (some r) o at h = Folded-edit_line (e.line - 1) e es 1 ls mid out at (o ∙ ap some h) f

  apply_lines-Folded :
      (es : List Edit) (ls out : List Text) → apply_lines y es ls ≡ edited out → Folded es 1 ls out
  unfolding apply_lines
  apply_lines-Folded [] ls out h = subst (Folded [] 1 ls) (cc h) (Folded-nil 1 ls)
  apply_lines-Folded (e ∷ es) ls out h =
      by_mid (edit_lines y e ls) refl h (λ mid k. apply_lines-Folded es mid out k)
    where
      by_mid :
          (r : Edited (List Text))
          → edit_lines y e ls ≡ r
          → elim r [ refused why ↦ refused why | edited mid ↦ apply_lines y es mid ] ≡ edited out
          → ((mid : List Text) → apply_lines y es mid ≡ edited out → Folded es 1 mid out)
          → Folded (e ∷ es) 1 ls out
      by_mid (refused why) r h go = absurd (cc h)
      by_mid (edited mid) r h go = Folded-edit_lines e es ls mid out r (go mid h)

  -- The lines are as many, and none holds a newline.
  replace_all-Without :
      (es : List Edit) (l out : Text)
      → replace_all y es l ≡ edited out
      → Without 10 l
      → Without 10 out
  unfolding replace_all
  replace_all-Without [] l out h w = subst (Without 10) (cc h) w
  replace_all-Without (e ∷ es) l out h w =
      by_line (replace_in_line y l e) refl h (λ line k v. replace_all-Without es line out k v)
    where
      by_line :
          (r : Edited Text)
          → replace_in_line y l e ≡ r
          → elim r [ refused why ↦ refused why | edited line ↦ replace_all y es line ] ≡ edited out
          → ((line : Text) → replace_all y es line ≡ edited out → Without 10 line → Without 10 out)
          → Without 10 out
      by_line (refused why) r h go = absurd (cc h)
      by_line (edited line) r h go = go line h (replace_in_line-Without y l line e r w)

  Folded-Without :
      (es : List Edit) (ln : ℕ) (bs as' : List Text)
      → Folded es ln bs as'
      → All (Without 10) bs
      → (length bs ≡ length as') × All (Without 10) as'
  Folded-Without es ln [] [] f w = (refl, tt)
  Folded-Without es ln [] (a ∷ as') f w = absurd f
  Folded-Without es ln (b ∷ bs) [] f w = absurd f
  Folded-Without es ln (b ∷ bs) (a ∷ as') f w =
      let (len, rest) = Folded-Without es (ln + 1) bs as' f.1 w.1 in
      (omega (arith, len), (replace_all-Without (edits_on ln es) b a f.0 w.0, rest))

  verify_line-accepts :
      (file : Text) (ln : ℕ) (b a : Text) (es : List Edit)
      → replace_all y (sort_by column_after es) b ≡ edited a
      → verify_line y file ln b a es ≡ none
  unfolding verify_line judge_line replace_all sort_by
  verify_line-accepts file ln b a [] h =
      let same : b ≡ a = cc h in if_true _ _ ((text_eq_iff b a).1 same)
  verify_line-accepts file ln b a (e ∷ es) h =
      ap (judge_line y file ln a) h ∙ if_true _ _ (text_eq_refl a)

  verify_from-accepts :
      (file : Text) (edits : List Edit) (ln : ℕ) (bs as' : List Text)
      → Folded (sort_by applied_before edits) ln bs as'
      → verify_from y file edits ln bs as' ≡ none
  unfolding verify_from
  verify_from-accepts file edits ln [] as' f = refl
  verify_from-accepts file edits ln (b ∷ bs) [] f = absurd f
  verify_from-accepts file edits ln (b ∷ bs) (a ∷ as') f =
      let planned : replace_all y (sort_by column_after (edits_on ln edits)) b ≡ edited a =
        ap (λ q. replace_all y q b) (sym (edits_on-sort_by ln edits)) ∙ f.0 in
      let here = verify_line-accepts file ln b a (edits_on ln edits) planned in
      ap by_line here ∙ verify_from-accepts file edits (ln + 1) bs as' f.1
    where
      by_line : Option Text → Option Text
      by_line o = elim o [ some why ↦ some why | none ↦ verify_from y file edits (ln + 1) bs as' ]

  split_some : (s : Text) → length (split 10 s) ≢ 0
  unfolding split
  split_some s h = omega (arith, h)

  -- The lines of the written file.
  written_lines :
      (edits : List Edit) (before after : Text)
      → apply_bytes y before edits ≡ edited after
      → Folded (sort_by applied_before edits) 1 (split 10 before) (split 10 after)
        × (length (split 10 before) ≡ length (split 10 after))
  unfolding apply_bytes
  written_lines edits before after h =
      by_lines (apply_lines y (sort_by applied_before edits) (split 10 before)) refl h
    where
      whole :
          (out : List Text)
          → Folded (sort_by applied_before edits) 1 (split 10 before) out
          → length (split 10 before) ≡ length out
          → All (Without 10) out
          → join (10 ∷ []) out ≡ after
          → Folded (sort_by applied_before edits) 1 (split 10 before) (split 10 after)
            × (length (split 10 before) ≡ length (split 10 after))
      whole [] f len w e = absurd (split_some before len)
      whole (t ∷ ts) f len w e =
          let same : t ∷ ts ≡ split 10 after = sym (split-join 10 t ts w) ∙ ap (split 10) e in
          (
            subst (Folded (sort_by applied_before edits) 1 (split 10 before)) same f,
            len ∙ ap length same,
          )

      by_lines :
          (r : Edited (List Text))
          → apply_lines y (sort_by applied_before edits) (split 10 before) ≡ r
          → map_edited (join (10 ∷ [])) r ≡ edited after
          → Folded (sort_by applied_before edits) 1 (split 10 before) (split 10 after)
            × (length (split 10 before) ≡ length (split 10 after))
      by_lines (refused why) r h = absurd (cc h)
      by_lines (edited out) r h =
          let f = apply_lines-Folded (sort_by applied_before edits) (split 10 before) out r in
          let (len, w) =
            Folded-Without (sort_by applied_before edits) 1 (split 10 before) out f
              (split-Without 10 before) in
          whole out f len w (cc h)

  -- Whatever ApplyBytes writes, verifyLines accepts for the same edits: as many lines as before, a
  -- line on which no edit was planned byte for byte as it was, and a line with planned edits exactly
  -- what replaceInLine makes of it, its edits taken from right to left.
  pub apply_bytes-accepted :
      (file : Text) (edits : List Edit) (before after : Text)
      → apply_bytes y before edits ≡ edited after
      → verify_lines y file before after edits ≡ none
  unfolding verify_lines
  apply_bytes-accepted file edits before after h =
      let (f, len) = written_lines edits before after h in
      let counted : not (length (split 10 before) == length (split 10 after)) ≡ false =
        as_many _ _ len in
      if_false _ _ counted ∙ verify_from-accepts file edits 1 (split 10 before) (split 10 after) f
