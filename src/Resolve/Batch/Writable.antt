-- ===== src/Resolve/Batch/Writable.antt =====
-- What a batch of resolutions hands to a plan.
use hoist.Prelude.{
  ◌≡◌, refl, arith, if_elim, Bool, true, false, not, ◌&&◌, List, [], ◌∷◌, Text, All, All-map,
  is_empty,
}
use mathlib.Core.List.{Memᴰ}
use hoist.Image.Ref.{Ref, pinned}
use hoist.Gitops.Editable.{unwritable}
use hoist.Resolve.Repo.{Resolution}
use hoist.Resolve.Batch.{is_resolved, digests}

tag_there : (a b : Bool) → (not a && not b) ≡ true → a ≡ false
tag_there a b h = ground arith

digest_there : (a b : Bool) → (not a && not b) ≡ true → not b ≡ true
digest_there a b h = ground arith

is_resolved-writable : (r : Resolution) → is_resolved r ≡ true → is_empty (unwritable r.ref) ≡ true
unfolding is_resolved unwritable
is_resolved-writable r h =
    if_elim (λ t. is_empty t ≡ true) (not (pinned r.ref))
      (λ e. absurd (clash _ e (digest_there _ _ h)))
      (λ _.
        if_elim (λ t. is_empty t ≡ true) (is_empty r.ref.tag)
          (λ e. absurd (cc (e, tag_there _ _ h))) (λ _. refl))
  where
    clash : (b : Bool) → not b ≡ true → b ≡ true → ⊥
    clash b e k = ground arith

-- An override that can be written, and is the reference of a resolution of its repository.
abbrev pub Given : List (Text × Resolution) → Text × Ref → Type 0
Given res d =
    (is_empty (unwritable d.1) ≡ true) × ((r : Resolution) × Memᴰ (d.0, r) res × (r.ref ≡ d.1))

-- Each override that a batch of resolutions hands to a plan is a reference that unwritable has no
-- objection to, and is the one resolved for that image repository.
pub digests-Given : (res : List (Text × Resolution)) → All (Given res) (digests res)
unfolding digests
digests-Given [] = tt
digests-Given ((repo, r) ∷ res) =
    by_test (is_resolved r) refl (All-map later (digests res) (digests-Given res))
  where
    later : (d : Text × Ref) → Given res d → Given ((repo, r) ∷ res) d
    later d g = (g.0, (g.1.0, Memᴰ.tail g.1.1, g.1.2))

    by_test :
        (b : Bool)
        → is_resolved r ≡ b
        → All (Given ((repo, r) ∷ res)) (digests res)
        → All
            (Given ((repo, r) ∷ res))
            (elim b [ true ↦ (repo, r.ref) ∷ digests res | false ↦ digests res ])
    by_test true e a = ((is_resolved-writable r e, (r, Memᴰ.head refl, refl)), a)
    by_test false e a = a
