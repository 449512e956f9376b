-- ===== src/Gitops/Promote/Moved.antt =====
-- One repository's part of a promotion plan.
use hoist.Prelude.{
  ◌≡◌, refl, ap, ◌∙◌, List, [], ◌∷◌, Option, none, some, Text, is_empty, All, if_elim, map,
}
use hoist.Image.Ref.{Ref}
use hoist.Gitops.Types.{Warning, Occurrence, Edit}
use hoist.Gitops.Editable.{Styles, unwritable, check_editable}
use hoist.Gitops.Choose.{Choice}
use hoist.Gitops.Deploy.{Planned, planned, refused}
use hoist.Gitops.Promote.{Part, cons_planned, edits_to, part_of, write_repo, plan_chosen}

abbrev pub edit_for : Ref → Occurrence → Edit
edit_for ref t = record { occurrence = t; new = ref }

module _ (y : Styles) (src dst : Text) where
  cons_planned-planned :
      (e : Edit) (r : Planned (List Edit)) (es : List Edit)
      → cons_planned e r ≡ planned es
      → (es' : List Edit) × (r ≡ planned es') × (es ≡ e ∷ es')
  cons_planned-planned e (planned es') es h = (es', refl, cc h)
  cons_planned-planned e (refused why) es h = absurd (cc h)

  edits_to-planned :
      (ref : Ref) (ts : List Occurrence) (es : List Edit)
      → edits_to y ref ts ≡ planned es
      → (es ≡ map (edit_for ref) ts)
        × All (λ (t : Occurrence). check_editable y (edit_for ref t) ≡ none) ts
  unfolding edits_to
  edits_to-planned ref [] es h = (cc h, tt)
  edits_to-planned ref (t ∷ ts) es h =
      by_check (check_editable y (edit_for ref t)) refl h (λ es' k. edits_to-planned ref ts es' k)
    where
      by_check :
          (o : Option Text)
          → check_editable y (edit_for ref t) ≡ o
          → elim o [
            | some why ↦ refused why
            | none ↦ cons_planned (edit_for ref t) (edits_to y ref ts)
          ]
            ≡ planned es
          → ((es' : List Edit)
              → edits_to y ref ts ≡ planned es'
              → (es' ≡ map (edit_for ref) ts)
                × All (λ (t : Occurrence). check_editable y (edit_for ref t) ≡ none) ts)
          → (es ≡ map (edit_for ref) (t ∷ ts))
            × All (λ (t : Occurrence). check_editable y (edit_for ref t) ≡ none) (t ∷ ts)
      by_check (some why) o h go = absurd (cc h)
      by_check none o h go =
          let (es', rest, same) = cons_planned-planned (edit_for ref t) (edits_to y ref ts) es h in
          let (mapped, fine) = go es' rest in (same ∙ ap (◌∷◌ (edit_for ref t)) mapped, (o, fine))

  -- A repository's part: one edit to the chosen reference for each target occurrence.
  abbrev pub Moves : Ref → List Occurrence → Part → Type 0
  Moves ref targets p =
      (p.edits ≡ map (edit_for ref) targets)
      × All (λ (t : Occurrence). check_editable y (edit_for ref t) ≡ none) targets

  part_of-planned :
      (repo : Text) (occ targets : List Occurrence) (c : Choice) (ws : List Warning)
      (r : Planned (List Edit)) (p : Part)
      → edits_to y c.chosen targets ≡ r
      → part_of y src dst repo occ targets c ws r ≡ planned p
      → Moves c.chosen targets p
  unfolding part_of
  part_of-planned repo occ targets c ws (refused why) p e h = absurd (cc h)
  part_of-planned repo occ targets c ws (planned es) p e h =
      let (mapped, fine) = edits_to-planned c.chosen targets es e in (cc (h, mapped), fine)

  write_repo-planned :
      (repo : Text) (occ targets : List Occurrence) (c : Choice) (ws : List Warning) (p : Part)
      → write_repo y src dst repo occ targets c ws ≡ planned p
      → Moves c.chosen targets p
  unfolding write_repo
  write_repo-planned repo occ [] c ws p h =
      if_elim (λ (r : Planned Part). r ≡ planned p → Moves c.chosen [] p)
        (is_empty (unwritable c.chosen))
        (λ _ k. part_of-planned repo occ [] c ws (edits_to y c.chosen []) p refl k)
        (λ _ k. (cc k, tt)) h
  write_repo-planned repo occ (t ∷ ts) c ws p h =
      if_elim (λ (r : Planned Part). r ≡ planned p → Moves c.chosen (t ∷ ts) p)
        (is_empty (unwritable c.chosen))
        (λ _ k. part_of-planned repo occ (t ∷ ts) c ws (edits_to y c.chosen (t ∷ ts)) p refl k)
        (λ _ k. absurd (cc k)) h

  pub plan_chosen-planned :
      (repo : Text) (occ targets : List Occurrence) (r : Planned Choice) (p : Part)
      → plan_chosen y src dst repo occ targets r ≡ planned p
      → (c : Choice) × (r ≡ planned c) × Moves c.chosen targets p
  unfolding plan_chosen
  plan_chosen-planned repo occ targets (refused why) p h = absurd (cc h)
  plan_chosen-planned repo occ targets (planned c) p h =
      (c, refl, write_repo-planned repo occ targets c _ p h)
