-- ===== src/Gitops/Promote/Chosen.antt =====
-- Where the reference of a repository comes from.
use hoist.Prelude.{
  ◌≡◌, refl, sym, ◌∙◌, ◌⊎◌, inl, inr, not, List, [], ◌∷◌, Option, none, some, Text, text_eq,
  is_empty, All, if_elim, if◌then◌else◌, codes, concat,
}
use mathlib.Core.Path.{subst}
use mathlib.Core.List.{Memᴰ}
use mathlib.Core.Option.{some-injective}
use hoist.Image.Ref.{Ref}
use hoist.Image.Validate.{validate}
use hoist.Gitops.Types.{Occurrence}
use hoist.Gitops.Editable.{unwritable}
use hoist.Gitops.Choose.{Choice, tally, choose_tally, choose_ref}
use hoist.Gitops.Choose.Carried.{Carries, choose_ref-Carries}
use hoist.Gitops.Deploy.{Planned, planned, refused}
use hoist.Gitops.Promote.{
  reason_for, lookup, check_override, override_ref, with_override, choose_for,
}

-- The override as it is used: one with no repository is for the one it is given for.
abbrev pub given : Text → Ref → Ref
given repo ov = if is_empty ov.repo then record ov { repo = repo } else ov

-- The reference stands in the source environment, or it is the override for the repository.
abbrev pub Origin : List (Text × Ref) → List Occurrence → Text → Ref → Type 0
Origin digests src_occ repo ref =
    Carries src_occ ref ⊎ ((ov : Ref) × (lookup repo digests ≡ some ov) × (ref ≡ given repo ov))

check_override-planned :
    (repo : Text) (ov ref : Ref) → check_override repo ov ≡ planned ref → ref ≡ ov
unfolding check_override
check_override-planned repo ov ref h =
    if_elim (λ (r : Planned Ref). r ≡ planned ref → ref ≡ ov) (not (text_eq ov.repo repo))
      (λ _ k. absurd (cc k)) (λ _ k. by_valid (validate ov) k) h
  where
    by_valid :
        (o : Option Text)
        → elim o [
          | some why ↦
              refused
                (concat (codes "digest override for " ∷ repo ∷ codes " is malformed: " ∷ why ∷ []))
          | none ↦
              if not (is_empty (unwritable ov))
              then refused
                  (concat (codes "digest override for " ∷ repo ∷ codes " is " ∷ unwritable ov ∷ []))
              else planned ov
        ]
          ≡ planned ref
        → ref ≡ ov
    by_valid (some why) k = absurd (cc k)
    by_valid none k =
        if_elim (λ (r : Planned Ref). r ≡ planned ref → ref ≡ ov) (not (is_empty (unwritable ov)))
          (λ _ j. absurd (cc j)) (λ _ j. cc j) k

module _ (digests : List (Text × Ref)) (reasons : List (Text × Text))
    (src_occ : List Occurrence) where
  pub choose_for-planned :
      (repo : Text) (o : Option Choice) (c : Choice)
      → choose_for digests reasons repo o ≡ planned c
      → ((k : Choice) → o ≡ some k → Carries src_occ k.chosen)
      → Origin digests src_occ repo c.chosen
  unfolding choose_for with_override override_ref
  choose_for-planned repo none c h carried = absurd (cc h)
  choose_for-planned repo (some k) c h carried = by_override (lookup repo digests) refl h
    where
      chosen :
          (r : Planned Ref) (why : Text)
          → with_override k why r ≡ planned c
          → r ≡ planned (c.chosen)
      chosen (refused w) why h = absurd (cc h)
      chosen (planned ref) why h = cc h

      by_override :
          (o : Option Ref)
          → lookup repo digests ≡ o
          → elim o [
            | none ↦ planned k
            | some ov ↦ with_override k (reason_for (lookup repo reasons)) (override_ref repo ov)
          ]
            ≡ planned c
          → Origin digests src_occ repo c.chosen
      by_override none o h =
          let same : k ≡ c = cc h in
          inl (subst (λ (q : Choice). Carries src_occ q.chosen) same (carried k refl))
      by_override (some ov) o h = inr (
        ov,
        o,
        check_override-planned repo (given repo ov) c.chosen
            (chosen (override_ref repo ov) (reason_for (lookup repo reasons)) h),
      )

pub choose_ref-carried :
    (src_occ : List Occurrence) (repo : Text) (occ : List Occurrence) (k : Choice)
    → choose_ref occ ≡ some k
    → All (λ (t : Occurrence). Memᴰ t src_occ × (t.ref.repo ≡ repo)) occ
    → Carries src_occ k.chosen
unfolding choose_ref tally choose_tally
choose_ref-carried src_occ repo [] k h w = absurd (nothing h)
  where
    nothing : choose_ref [] ≡ some k → ⊥
    nothing h = cc h
choose_ref-carried src_occ repo (o ∷ os) k h w =
    let (c, e, (x, m, r), agree) = choose_ref-Carries o os in
    let same : c ≡ k = some-injective _ _ (sym e ∙ h) in (x, (within (o ∷ os) w x m), cc (r, same))
  where
    within :
        (l : List Occurrence)
        → All (λ (t : Occurrence). Memᴰ t src_occ × (t.ref.repo ≡ repo)) l
        → (x : Occurrence) → Memᴰ x l
        → Memᴰ x src_occ
    within [] w x m = elim m [ ]
    within (p ∷ l) w x (Memᴰ.head e) = subst (λ (q : Occurrence). Memᴰ q src_occ) (sym e) w.0.0
    within (p ∷ l) w x (Memᴰ.tail m) = within l w.1 x m
