-- ===== src/Gitops/Promote/Loop.antt =====
-- The loop over the repositories: what its edits are.
use hoist.Prelude.{
  ℕ, ◌≡◌, refl, sym, not, ◌&&◌, List, [], ◌∷◌, ◌++◌, none, Text, All, All-map, All-append, All-Memᴰ,
  All-at, All-both, All-mapped, Memᴰ-map, Memᴰ-append_left, Memᴰ-append_right, if_elim, ltb, length,
}
use mathlib.Core.Path.{subst}
use mathlib.Core.List.{Memᴰ, Permᴰ}
use hoist.Image.Ref.{Ref}
use hoist.Gitops.Types.{Occurrence, Edit, Plan}
use hoist.Gitops.Editable.{Styles, check_editable}
use hoist.Gitops.Order.{sort_occurrences}
use hoist.Gitops.Choose.{Choice, choose_ref}
use hoist.Gitops.Deploy.{Planned, planned, refused, has_some}
use hoist.Gitops.Deploy.Exact.{sort_occurrences-Perm, Perm-symm, All-Perm}
use hoist.Gitops.Promote.Sources.{of_repo-within}
use hoist.Gitops.Promote.Chosen.{Origin, choose_for-planned, choose_ref-carried}
use hoist.Gitops.Promote.Moved.{edit_for, Moves, plan_chosen-planned}
use hoist.Gitops.Promote.{
  of_repo, Part, and_part, plan_chosen, choose_for, plan_repos, finish_plan, plan_between,
}

module _ (y : Styles) (src dst : Text) (digests : List (Text × Ref)) (reasons : List (Text × Text))
    (src_occ dst_occ : List Occurrence) where
  -- An edit that may be written, of a target occurrence of one of the repositories, to a reference
  -- of the source environment or to an override.
  abbrev pub Fine : List Text → Edit → Type 0
  Fine repos e =
      (check_editable y e ≡ none)
      × Memᴰ (e.occurrence) dst_occ
      × Memᴰ (e.ref.repo) repos
      × Origin digests src_occ e.ref.repo e.new

  abbrev pub Covered : List Edit → Occurrence → Type 0
  Covered es t = (e : Edit) × Memᴰ e es × (e.occurrence ≡ t)

  -- Each target occurrence of each repository is edited.
  abbrev pub Complete : List Text → List Edit → Type 0
  Complete repos es = All (λ (repo : Text). All (Covered es) (of_repo repo dst_occ)) repos

  -- One repository's edits.
  Moves-Fine :
      (repo : Text) (ref : Ref) (repos : List Text) (p : Part)
      → Moves y src dst ref (of_repo repo dst_occ) p
      → Origin digests src_occ repo ref
      → All (Fine (repo ∷ repos)) p.edits
  Moves-Fine repo ref repos p (mapped, fine) origin =
      let ts = of_repo repo dst_occ in
      subst (All (Fine (repo ∷ repos))) (sym mapped) (
        All-mapped (edit_for ref) (Fine (repo ∷ repos)) ts (
          All-map
            (λ (t : Occurrence)
                (h : (check_editable y (edit_for ref t) ≡ none)
                  × (Memᴰ t dst_occ × (t.ref.repo ≡ repo))).
              (
                h.0,
                h.1.0,
                Memᴰ.head (h.1.1),
                subst (λ (r : Text). Origin digests src_occ r ref) (sym h.1.1) origin,
              ))
            ts
            (All-both (λ t. check_editable y (edit_for ref t) ≡ none)
              (λ t. Memᴰ t dst_occ × (t.ref.repo ≡ repo)) ts fine (of_repo-within repo dst_occ))))

  Moves-Covered :
      (repo : Text) (ref : Ref) (p : Part)
      → Moves y src dst ref (of_repo repo dst_occ) p
      → All (Covered p.edits) (of_repo repo dst_occ)
  Moves-Covered repo ref p (mapped, fine) =
      let ts = of_repo repo dst_occ in
      subst (λ (es : List Edit). All (Covered es) ts) (sym mapped)
        (All-map (λ (t : Occurrence) m. (edit_for ref t, m, refl)) ts (Memᴰ-map (edit_for ref) ts))

  and_part-planned :
      (p : Part) (r : Planned Part) (out : Part)
      → and_part p r ≡ planned out
      → (q : Part) × (r ≡ planned q) × (out.edits ≡ p.edits ++ q.edits)
  and_part-planned p (planned q) out h = (q, refl, cc h)
  and_part-planned p (refused why) out h = absurd (cc h)

  more_repos :
      (repo : Text) (repos : List Text) (es : List Edit)
      → All (Fine repos) es
      → All (Fine (repo ∷ repos)) es
  more_repos repo repos es h =
      All-map (λ (e : Edit) (f : Fine repos e). (f.0, f.1, Memᴰ.tail f.2, f.3)) es h

  Complete-append :
      (repos : List Text) (es fs : List Edit) → Complete repos fs → Complete repos (es ++ fs)
  Complete-append repos es fs h =
      All-map
        (λ (repo : Text) (c : All (Covered fs) (of_repo repo dst_occ)).
          All-map (λ (t : Occurrence) (k : Covered fs t). (k.0, Memᴰ-append_right es fs k.1, k.2))
            (of_repo repo dst_occ) c)
        repos h

  plan_repos-planned :
      (repos : List Text) (out : Part)
      → plan_repos y src dst digests reasons src_occ dst_occ repos ≡ planned out
      → All (Fine repos) out.edits × Complete repos out.edits
  unfolding plan_repos
  plan_repos-planned [] out h =
      let none_yet : [] ≡ out.edits = cc h in (subst (All (Fine [])) none_yet tt, tt)
  plan_repos-planned (repo ∷ repos) out h =
      by_part (plan_chosen y src dst repo (of_repo repo src_occ) (of_repo repo dst_occ) chosen) refl
        h (λ q k. plan_repos-planned repos q k)
    where
      chosen : Planned Choice
      chosen = choose_for digests reasons repo (choose_ref (of_repo repo src_occ))

      by_part :
          (r : Planned Part)
          → plan_chosen y src dst repo (of_repo repo src_occ) (of_repo repo dst_occ) chosen ≡ r
          → elim r [
            | refused why ↦ refused why
            | planned p ↦ and_part p (plan_repos y src dst digests reasons src_occ dst_occ repos)
          ]
            ≡ planned out
          → ((q : Part)
              → plan_repos y src dst digests reasons src_occ dst_occ repos ≡ planned q
              → All (Fine repos) q.edits × Complete repos q.edits)
          → All (Fine (repo ∷ repos)) out.edits × Complete (repo ∷ repos) out.edits
      by_part (refused why) r h go = absurd (cc h)
      by_part (planned p) r h go =
          let (q, rest, both) =
            and_part-planned p (plan_repos y src dst digests reasons src_occ dst_occ repos) out h in
          let (fine, complete) = go q rest in
          let (c, is_chosen, moves) =
            plan_chosen-planned y src dst repo (of_repo repo src_occ) (of_repo repo dst_occ) chosen
              p r in
          let origin =
            choose_for-planned digests reasons src_occ repo (choose_ref (of_repo repo src_occ)) c
              is_chosen
              (λ k e.
                choose_ref-carried src_occ repo (of_repo repo src_occ) k e
                  (of_repo-within repo src_occ)) in
          (
            subst (All (Fine (repo ∷ repos))) (sym both) (
                All-append (Fine (repo ∷ repos)) p.edits q.edits
                  (Moves-Fine repo c.chosen repos p moves origin)
                  (more_repos repo repos q.edits fine)),
            subst (Complete (repo ∷ repos)) (sym both) (
              All-map
                  (λ (t : Occurrence) (k : Covered p.edits t).
                    (k.0, Memᴰ-append_left p.edits q.edits k.1, k.2))
                  (of_repo repo dst_occ) (Moves-Covered repo c.chosen p moves),
              Complete-append repos p.edits q.edits complete,
            ),
          )

  -- The sorted edits are the same ones.
  sorted_edits :
      (repos : List Text) (es : List Edit)
      → All (Fine repos) es × Complete repos es
      → All (Fine repos) (sort_occurrences (λ (e : Edit). e.occurrence) es)
        × Complete repos (sort_occurrences (λ (e : Edit). e.occurrence) es)
  sorted_edits repos es (fine, complete) =
      let sorted = sort_occurrences (λ (e : Edit). e.occurrence) es in
      let perm : Permᴰ sorted es = sort_occurrences-Perm (λ (e : Edit). e.occurrence) es in
      let kept : All (λ (e : Edit). Memᴰ e sorted) es =
        All-Perm (λ (e : Edit). Memᴰ e sorted) perm (All-Memᴰ sorted) in
      (
        All-map (λ (e : Edit) (m : Memᴰ e es). All-at (Fine repos) es m fine) sorted
            (All-Perm (λ (e : Edit). Memᴰ e es) (Perm-symm perm) (All-Memᴰ es)),
        All-map
            (λ (repo : Text) (c : All (Covered es) (of_repo repo dst_occ)).
              All-map
                (λ (t : Occurrence) (k : Covered es t).
                  (k.0, All-at (λ (e : Edit). Memᴰ e sorted) es k.1 kept, k.2))
                (of_repo repo dst_occ) c)
            repos complete,
      )

  finish_plan-planned :
      (now : ℕ) (repos : List Text) (r : Planned Part) (p : Plan)
      → plan_repos y src dst digests reasons src_occ dst_occ repos ≡ r
      → finish_plan now src dst dst_occ r ≡ planned p
      → All (Fine repos) p.edits × Complete repos p.edits
  unfolding finish_plan
  finish_plan-planned now repos (refused why) p e h = absurd (cc h)
  finish_plan-planned now repos (planned q) p e h =
      let same : sort_occurrences (λ (e : Edit). e.occurrence) q.edits ≡ p.edits = cc h in
      subst (λ (es : List Edit). All (Fine repos) es × Complete repos es) same
        (sorted_edits repos q.edits (plan_repos-planned repos q e))

  pub plan_between-planned :
      (now : ℕ) (promotable repos : List Text) (p : Plan)
      → plan_between y now src dst promotable digests reasons src_occ dst_occ repos ≡ planned p
      → All (Fine repos) p.edits × Complete repos p.edits
  unfolding plan_between
  plan_between-planned now promotable repos p h =
      if_elim
        (λ (r : Planned Plan). r ≡ planned p → All (Fine repos) p.edits × Complete repos p.edits)
        (not (has_some repos) && ltb 0 (length src_occ)) (λ _ k. absurd (cc k))
        (λ _ k.
          finish_plan-planned now repos (plan_repos y src dst digests reasons src_occ dst_occ repos)
            p refl k)
        h
