-- ===== src/Gitops/Promote/Sound.antt =====
-- What a promotion plan edits: each target occurrence of a planned repository, and nothing else.
use hoist.Prelude.{
  ℕ, ◌≡◌, refl, sym, ◌∙◌, ◌⊎◌, inl, inr, true, false, not, List, [], ◌++◌, Option, none, some, Text,
  text_eq, text_eq_iff, All, All-map, All-at, All-sort_texts, Memᴰ-sort_texts, Bool-cases, if_elim,
  if_true, if_false, quoted, if◌then◌else◌, codes, sort_texts, ◌≢◌, codes,
}
use mathlib.Core.List.{Memᴰ}
use hoist.Image.Ref.{Ref}
use hoist.Gitops.Types.{Occurrence, Env, Repo, Edit, Plan}
use hoist.Gitops.Prefix.{is_promotable}
use hoist.Gitops.Editable.{Styles, check_editable}
use hoist.Gitops.Order.{env_occurrences}
use hoist.Gitops.Deploy.{Planned, planned, refused, find_env, is_seen, has_some}
use hoist.Gitops.Promote.Sources.{Memᴰ-of_repo, source_repos-promotable, Memᴰ-source_repos}
use hoist.Gitops.Promote.Chosen.{Origin}
use hoist.Gitops.Promote.Loop.{Fine, Covered, Complete, plan_between-planned}
use hoist.Gitops.Promote.{unknown_env, source_repos, of_repo, plan_between, build_plan_with}

-- What a promotion plan between two environments is.
pub record Sound (y : Styles) (src dst : Text) (promotable : List Text)
    (digests : List (Text × Ref)) (r : Repo) (p : Plan) : Type 0 where
  pub source : Env
  pub target : Env
  pub differ : src ≢ dst
  pub source_found : find_env src r.envs ≡ some source
  pub target_found : find_env dst r.envs ≡ some target
  pub edits_fine :
      All
        (λ (e : Edit).
          (check_editable y e ≡ none)
          × Memᴰ (e.occurrence) (env_occurrences target)
          × (is_promotable e.ref.repo promotable ≡ true)
          × Origin digests (env_occurrences source) e.ref.repo e.new)
        p.edits
  pub all_moved :
      (o t : Occurrence)
      → Memᴰ o (env_occurrences source)
      → is_promotable o.ref.repo promotable ≡ true
      → Memᴰ t (env_occurrences target)
      → t.ref.repo ≡ o.ref.repo
      → (e : Edit) × Memᴰ e p.edits × (e.occurrence ≡ t)

module _ (y : Styles) (now : ℕ) (r : Repo) (src dst : Text) (promotable : List Text)
    (digests : List (Text × Ref)) (reasons : List (Text × Text)) (p : Plan) where
  found_envs :
      (s d : Env)
      → src ≢ dst
      → find_env src r.envs ≡ some s
      → find_env dst r.envs ≡ some d
      → (if not (has_some promotable)
          then refused (codes "no promotable image prefixes given; nothing can be planned")
          else plan_between y now src dst promotable digests reasons
              (env_occurrences s)
              (env_occurrences d)
              (sort_texts (source_repos promotable [] (env_occurrences s))))
        ≡ planned p
      → Sound y src dst promotable digests r p
  unfolding is_seen
  found_envs s d differ fs fd h =
      let repos = sort_texts (source_repos promotable [] (env_occurrences s)) in
      let (fine, complete) : All
            (Fine y src dst digests reasons (env_occurrences s) (env_occurrences d) repos) p.edits
          × Complete y src dst digests reasons (env_occurrences s) (env_occurrences d) repos
              p.edits =
        if_elim
          (λ (q : Planned Plan).
            q ≡ planned p
            → All (Fine y src dst digests reasons (env_occurrences s) (env_occurrences d) repos)
                p.edits
              × Complete y src dst digests reasons (env_occurrences s) (env_occurrences d) repos
                  p.edits)
          (not (has_some promotable)) (λ _ k. absurd (cc k))
          (λ _ k.
            plan_between-planned y src dst digests reasons (env_occurrences s) (env_occurrences d)
              now promotable repos p k)
          h in
      record {
        source = s;
        target = d;
        differ = differ;
        source_found = fs;
        target_found = fd;
        edits_fine =
            All-map
              (λ (e : Edit)
                  (f : Fine y src dst digests reasons (env_occurrences s) (env_occurrences d) repos
                    e).
                (
                  f.0,
                  f.1,
                  All-at (λ (repo : Text). is_promotable repo promotable ≡ true) repos f.2
                      all_promotable,
                  f.3,
                ))
              p.edits fine;
        all_moved = λ o t mo ok_repo mt same.
            All-at
              (Covered y src dst digests reasons (env_occurrences s) (env_occurrences d) p.edits)
              (of_repo o.ref.repo (env_occurrences d))
              (Memᴰ-of_repo o.ref.repo t (env_occurrences d) same mt)
              (All-at
                (λ (repo : Text).
                  All
                    (Covered y src dst digests reasons (env_occurrences s) (env_occurrences d)
                      p.edits)
                    (of_repo repo (env_occurrences d)))
                repos
                (Memᴰ-sort_texts o.ref.repo (source_repos promotable [] (env_occurrences s))
                  (not_seen (Memᴰ-source_repos promotable o [] (env_occurrences s) mo ok_repo)))
                complete);
      }
    where
      all_promotable :
          All
            (λ (repo : Text). is_promotable repo promotable ≡ true)
            (sort_texts (source_repos promotable [] (env_occurrences s)))
      all_promotable =
          All-sort_texts (λ (repo : Text). is_promotable repo promotable ≡ true)
            (source_repos promotable [] (env_occurrences s))
            (source_repos-promotable promotable [] (env_occurrences s))

      not_seen :
          {repo : Text} {rs : List Text} → (is_seen repo [] ≡ true) ⊎ Memᴰ repo rs → Memᴰ repo rs
      not_seen (inl e) = absurd (cc e)
      not_seen (inr m) = m

  find_target :
      (s : Env) (o : Option Env)
      → src ≢ dst
      → find_env src r.envs ≡ some s
      → find_env dst r.envs ≡ o
      → elim o [
        | none ↦ refused (unknown_env (codes "target") dst r)
        | some d ↦
            if not (has_some promotable)
            then refused (codes "no promotable image prefixes given; nothing can be planned")
            else plan_between y now src dst promotable digests reasons
                (env_occurrences s)
                (env_occurrences d)
                (sort_texts (source_repos promotable [] (env_occurrences s)))
      ]
        ≡ planned p
      → Sound y src dst promotable digests r p
  find_target s none differ fs fd h = absurd (cc h)
  find_target s (some d) differ fs fd h = found_envs s d differ fs fd h

  find_source :
      (o : Option Env)
      → src ≢ dst
      → find_env src r.envs ≡ o
      → elim o [
        | none ↦ refused (unknown_env (codes "source") src r)
        | some s ↦ elim (find_env dst r.envs) [
          | none ↦ refused (unknown_env (codes "target") dst r)
          | some d ↦
              if not (has_some promotable)
              then refused (codes "no promotable image prefixes given; nothing can be planned")
              else plan_between y now src dst promotable digests reasons
                  (env_occurrences s)
                  (env_occurrences d)
                  (sort_texts (source_repos promotable [] (env_occurrences s)))
        ]
      ]
        ≡ planned p
      → Sound y src dst promotable digests r p
  find_source none differ fs h = absurd (cc h)
  find_source (some s) differ fs h = find_target s (find_env dst r.envs) differ fs refl h

  -- A plan that BuildPlanWith returns is between two different environments of the repository. Each
  -- of its edits is of an occurrence of the target, of a promotable image repository, is one that
  -- checkEditable allows, and writes a reference that stands in the source or the override given for
  -- that image repository. And every target occurrence of an image repository that is promotable and
  -- occurs in the source is edited.
  pub build_plan_with-Sound :
      build_plan_with y now (some r) src dst promotable digests reasons ≡ planned p
      → Sound y src dst promotable digests r p
  unfolding build_plan_with
  build_plan_with-Sound h = elim (Bool-cases (text_eq src dst)) [
    | inl same ↦ absurd (not_planned (sym (if_true _ _ same) ∙ h))
    | inr other ↦
        find_source (find_env src r.envs) (λ e. unlike e other) refl (sym (if_false _ _ other) ∙ h)
  ]
    where
      unlike : src ≡ dst → text_eq src dst ≡ false → ⊥
      unlike e d = let same = (text_eq_iff src dst).1 e in cc (same, d)

      not_planned : refused (codes "source and target env are both " ++ quoted src) ≡ planned p → ⊥
      not_planned h = cc h
