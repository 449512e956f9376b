-- ===== src/Gitops/Promote/Sources.antt =====
-- The repositories that a promotion covers, and their occurrences.
use hoist.Prelude.{
  ◌≡◌, refl, sym, ap, ◌⊎◌, inl, inr, Bool, true, false, not, ◌&&◌, ◌||◌, List, [], ◌∷◌, Text,
  text_eq, text_eq_iff, All, All-map, Bool-cases, if_elim, if_true, arith,
}
use mathlib.Core.Path.{subst}
use mathlib.Core.List.{Memᴰ}
use hoist.Gitops.Types.{Occurrence}
use hoist.Gitops.Prefix.{is_promotable}
use hoist.Gitops.Deploy.{is_seen}
use hoist.Gitops.Promote.{source_repos, of_repo}

both_tests : (a b : Bool) → a ≡ true → (a && not b) ≡ false → b ≡ true
both_tests a b h e = ground arith

seen_rest : (a b : Bool) → a ≡ false → (a || b) ≡ true → b ≡ true
seen_rest a b h e = ground arith

abbrev repo_of : Occurrence → Text
repo_of o = o.ref.repo

pub of_repo-within :
    (repo : Text) (os : List Occurrence)
    → All (λ (t : Occurrence). Memᴰ t os × (t.ref.repo ≡ repo)) (of_repo repo os)
unfolding of_repo
of_repo-within repo [] = tt
of_repo-within repo (o ∷ os) =
    let rest =
      All-map (λ (t : Occurrence) (h : Memᴰ t os × (t.ref.repo ≡ repo)). (Memᴰ.tail h.0, h.1))
        (of_repo repo os) (of_repo-within repo os) in
    if_elim (All (λ (t : Occurrence). Memᴰ t (o ∷ os) × (t.ref.repo ≡ repo)))
      (text_eq o.ref.repo repo) (λ e. ((Memᴰ.head refl, (text_eq_iff o.ref.repo repo).0 e), rest))
      (λ _. rest)

pub Memᴰ-of_repo :
    (repo : Text) (t : Occurrence) (os : List Occurrence)
    → t.ref.repo ≡ repo
    → Memᴰ t os
    → Memᴰ t (of_repo repo os)
unfolding of_repo
Memᴰ-of_repo repo t [] e m = elim m [ ]
Memᴰ-of_repo repo t (o ∷ os) e (Memᴰ.head h) =
    let same : text_eq o.ref.repo repo ≡ true = (text_eq_iff o.ref.repo repo).1 (cc (e, h)) in
    subst (Memᴰ t) (sym (if_true _ _ same)) (Memᴰ.head h)
Memᴰ-of_repo repo t (o ∷ os) e (Memᴰ.tail m) =
    if_elim (Memᴰ t) (text_eq o.ref.repo repo) (λ _. Memᴰ.tail (Memᴰ-of_repo repo t os e m))
      (λ _. Memᴰ-of_repo repo t os e m)

pub source_repos-promotable :
    (promotable seen : List Text) (os : List Occurrence)
    → All (λ (repo : Text). is_promotable repo promotable ≡ true) (source_repos promotable seen os)
unfolding source_repos
source_repos-promotable promotable seen [] = tt
source_repos-promotable promotable seen (o ∷ os) =
    by_test (is_promotable o.ref.repo promotable && not (is_seen o.ref.repo seen)) refl
      (source_repos-promotable promotable (o.ref.repo ∷ seen) os)
      (source_repos-promotable promotable seen os)
  where
    Good : List Text → Type 0
    Good rs = All (λ (repo : Text). is_promotable repo promotable ≡ true) rs

    by_test :
        (b : Bool)
        → (is_promotable o.ref.repo promotable && not (is_seen o.ref.repo seen)) ≡ b
        → Good (source_repos promotable (o.ref.repo ∷ seen) os)
        → Good (source_repos promotable seen os)
        → Good (elim b [
          | true ↦ o.ref.repo ∷ source_repos promotable (o.ref.repo ∷ seen) os
          | false ↦ source_repos promotable seen os
        ])
    by_test true e more less = (ground (arith, e), more)
    by_test false e more less = less

pub Memᴰ-source_repos :
    (promotable : List Text) (o : Occurrence) (seen : List Text) (os : List Occurrence)
    → Memᴰ o os
    → is_promotable o.ref.repo promotable ≡ true
    → (is_seen o.ref.repo seen ≡ true) ⊎ Memᴰ (o.ref.repo) (source_repos promotable seen os)
unfolding source_repos is_seen
Memᴰ-source_repos promotable o seen [] m h = elim m [ ]
Memᴰ-source_repos promotable o seen (p ∷ os) m h =
    by_test (is_promotable p.ref.repo promotable && not (is_seen p.ref.repo seen)) refl m
      (λ k. Memᴰ-source_repos promotable o (p.ref.repo ∷ seen) os k h)
      (λ k. Memᴰ-source_repos promotable o seen os k h)
  where
    Found : List Text → Type 0
    Found rs = (is_seen o.ref.repo seen ≡ true) ⊎ Memᴰ (o.ref.repo) rs

    fresh :
        (is_seen o.ref.repo (p.ref.repo ∷ seen) ≡ true)
          ⊎ Memᴰ (o.ref.repo) (source_repos promotable (p.ref.repo ∷ seen) os)
        → Found (p.ref.repo ∷ source_repos promotable (p.ref.repo ∷ seen) os)
    fresh (inr m) = inr (Memᴰ.tail m)
    fresh (inl e) = elim (Bool-cases (text_eq p.ref.repo o.ref.repo)) [
      | inl same ↦ inr (Memᴰ.head (sym ((text_eq_iff p.ref.repo o.ref.repo).0 same)))
      | inr other ↦
          inl (seen_rest (text_eq p.ref.repo o.ref.repo) (is_seen o.ref.repo seen) other e)
    ]

    seen_already :
        o.ref.repo ≡ p.ref.repo
        → (is_promotable p.ref.repo promotable && not (is_seen p.ref.repo seen)) ≡ false
        → is_seen o.ref.repo seen ≡ true
    seen_already q e =
        both_tests (is_promotable o.ref.repo promotable) (is_seen o.ref.repo seen) h (
          subst (λ (r : Text). (is_promotable r promotable && not (is_seen r seen)) ≡ false) (sym q)
            e)

    by_test :
        (b : Bool)
        → (is_promotable p.ref.repo promotable && not (is_seen p.ref.repo seen)) ≡ b
        → Memᴰ o (p ∷ os)
        → (Memᴰ o os
            → (is_seen o.ref.repo (p.ref.repo ∷ seen) ≡ true)
              ⊎ Memᴰ (o.ref.repo) (source_repos promotable (p.ref.repo ∷ seen) os))
        → (Memᴰ o os
            → (is_seen o.ref.repo seen ≡ true)
              ⊎ Memᴰ (o.ref.repo) (source_repos promotable seen os))
        → Found (elim b [
          | true ↦ p.ref.repo ∷ source_repos promotable (p.ref.repo ∷ seen) os
          | false ↦ source_repos promotable seen os
        ])
    by_test true e (Memᴰ.head q) more less = inr (Memᴰ.head (ap repo_of q))
    by_test true e (Memᴰ.tail m) more less = fresh (more m)
    by_test false e (Memᴰ.head q) more less = inl (seen_already (ap repo_of q) e)
    by_test false e (Memᴰ.tail m) more less = less m
