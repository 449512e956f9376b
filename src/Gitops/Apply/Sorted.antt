-- ===== src/Gitops/Apply/Sorted.antt =====
-- The edits of one line, in the order in which ApplyBytes comes to them.
use hoist.Prelude.{
  ℕ, ◌≤◌, ◌<◌, ◌≡◌, refl, ◌∙◌, inl, inr, Bool, true, false, List, [], ◌∷◌, All, All-map, Bool-cases,
  ◌==◌, if_elim, if_false, if◌then◌else◌, arith,
}
use hoist.Gitops.Types.{Edit}
use hoist.Gitops.Order.{insert_by, sort_by}
use hoist.Gitops.Apply.{applied_before}
use hoist.Gitops.Verify.{edits_on, column_after}

-- No later edit of the list is on a later line.
abbrev Descending : List Edit → Type 0
Descending [] = Unit
Descending (b ∷ bs) = All (λ (c : Edit). c.line ≤ b.line) bs × Descending bs

All-insert_by :
    (P : Edit → Type 0) (less : Edit → Edit → Bool) (a : Edit) (bs : List Edit)
    → P a
    → All P bs
    → All P (insert_by less a bs)
unfolding insert_by
All-insert_by P less a [] h hs = (h, tt)
All-insert_by P less a (b ∷ bs) h hs =
    if_elim (All P) (less b a) (λ _. (hs.0, All-insert_by P less a bs h hs.1)) (λ _. (h, hs))

before_line : (a b : Edit) → applied_before b a ≡ true → a.line ≤ b.line
unfolding applied_before
before_line a b h = ground arith

after_line : (a b : Edit) → applied_before b a ≡ false → b.line ≤ a.line
unfolding applied_before
after_line a b h = ground arith

Descending-insert_by :
    (a : Edit) (bs : List Edit) → Descending bs → Descending (insert_by applied_before a bs)
unfolding insert_by
Descending-insert_by a [] d = (tt, tt)
Descending-insert_by a (b ∷ bs) d =
    if_elim Descending (applied_before b a)
      (λ e. (
        All-insert_by (λ (c : Edit). c.line ≤ b.line) applied_before a bs (before_line a b e) d.0,
        Descending-insert_by a bs d.1,
      ))
      (λ e.
        let le = after_line a b e in
        ((le, All-map (λ (c : Edit) (k : c.line ≤ b.line). omega (arith, le, k)) bs d.0), d))

Descending-sort_by : (es : List Edit) → Descending (sort_by applied_before es)
unfolding sort_by
Descending-sort_by [] = tt
Descending-sort_by (e ∷ es) =
    Descending-insert_by e (sort_by applied_before es) (Descending-sort_by es)

edits_on-none :
    (ln : ℕ) (b : Edit) (bs : List Edit)
    → b.line < ln
    → All (λ (c : Edit). c.line ≤ b.line) bs
    → edits_on ln bs ≡ []
unfolding edits_on
edits_on-none ln b [] h hs = refl
edits_on-none ln b (c ∷ bs) h hs =
    let off : (c.line == ln) ≡ false = ground (arith, h, hs.0) in
    if_false (c ∷ edits_on ln bs) (edits_on ln bs) off ∙ edits_on-none ln b bs h hs.1

same_line :
    (a b : Edit) (ln : ℕ)
    → (a.line == ln) ≡ true
    → (b.line == ln) ≡ true
    → applied_before b a ≡ column_after b a
unfolding applied_before column_after
same_line a b ln h k = ground arith

edits_on-insert_by :
    (ln : ℕ) (a : Edit) (bs : List Edit)
    → Descending bs
    → edits_on ln (insert_by applied_before a bs)
      ≡ (if a.line == ln then insert_by column_after a (edits_on ln bs) else edits_on ln bs)
unfolding edits_on insert_by
edits_on-insert_by ln a [] d = refl
edits_on-insert_by ln a (b ∷ bs) d =
    let ih = edits_on-insert_by ln a bs d.1 in
    elim (Bool-cases (a.line == ln)) [
      | inl on ↦ elim (Bool-cases (b.line == ln)) [
        | inl both ↦ ground (arith, ih, same_line a b ln on both)
        | inr other ↦ elim (Bool-cases (applied_before b a)) [
          | inl e ↦ ground (arith, ih)
          | inr e ↦
              let none_left : edits_on ln bs ≡ [] =
                edits_on-none ln b bs (ground (arith, after_line a b e)) d.0 in
              ground (arith, none_left)
        ]
      ]
      | inr off ↦ ground (arith, ih)
    ]

pub edits_on-sort_by :
    (ln : ℕ) (es : List Edit)
    → edits_on ln (sort_by applied_before es) ≡ sort_by column_after (edits_on ln es)
unfolding edits_on sort_by
edits_on-sort_by ln [] = refl
edits_on-sort_by ln (e ∷ es) =
    edits_on-insert_by ln e (sort_by applied_before es) (Descending-sort_by es)
    ∙ ground (arith, edits_on-sort_by ln es)
