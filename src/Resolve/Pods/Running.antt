-- ===== src/Resolve/Pods/Running.antt =====
-- Which running containers the choice of choosePods accounts for.
use hoist.Prelude.{
  ◌≡◌, refl, sym, ◌∙◌, ◌⊎◌, inl, inr, Bool, true, false, ◌||◌, List, [], ◌∷◌, some, Text, text_eq,
  text_eq_iff, sort_texts, All, All-map, All-at, All-sort_texts, Memᴰ-sort_texts, ltb, arith, codes,
  Bool-cases,
}
use mathlib.Core.Path.{subst}
use mathlib.Core.List.{Memᴰ}
use hoist.Redact.{Registry}
use hoist.Gitops.Types.{Occurrence}
use hoist.Gitops.Deploy.{is_seen}
use hoist.Resolve.{RunningImage}
use hoist.Resolve.Pods.{
  count_digest, distinct_digests, most_common, other_digests, Pick, disagreeing_pick, common_reason,
  pick_among, choose_pods,
}

abbrev pub Runs : Text → List RunningImage → Type 0
Runs d xs = (x : RunningImage) × Memᴰ x xs × (x.ref.digest ≡ d)

seen_rest : (a b : Bool) → a ≡ false → (a || b) ≡ true → b ≡ true
seen_rest a b h e = ground arith

Memᴰ-is_seen : (t : Text) (us : List Text) → is_seen t us ≡ true → Memᴰ t us
unfolding is_seen
Memᴰ-is_seen t [] h = absurd (cc h)
Memᴰ-is_seen t (u ∷ us) h = elim (Bool-cases (text_eq u t)) [
  | inl e ↦ Memᴰ.head (sym ((text_eq_iff u t).0 e))
  | inr e ↦ Memᴰ.tail (Memᴰ-is_seen t us (seen_rest _ _ e h))
]

seen_here : (a b : Bool) → a ≡ true → (a || b) ≡ true
seen_here a b h = ground arith

seen_there : (a b : Bool) → b ≡ true → (a || b) ≡ true
seen_there a b h = ground arith

-- A digest among the distinct ones is a running container's.
distinct_digests-Runs :
    (seen : List Text) (xs : List RunningImage) → All (λ d. Runs d xs) (distinct_digests seen xs)
unfolding distinct_digests
distinct_digests-Runs seen [] = tt
distinct_digests-Runs seen (x ∷ xs) =
    by_test (is_seen x.ref.digest seen) (distinct_digests-Runs seen xs)
      (distinct_digests-Runs (x.ref.digest ∷ seen) xs)
  where
    later : (ds : List Text) → All (λ d. Runs d xs) ds → All (λ d. Runs d (x ∷ xs)) ds
    later ds a = All-map (λ (d : Text) (r : Runs d xs). (r.0, Memᴰ.tail r.1, r.2)) ds a

    by_test :
        (b : Bool)
        → All (λ d. Runs d xs) (distinct_digests seen xs)
        → All (λ d. Runs d xs) (distinct_digests (x.ref.digest ∷ seen) xs)
        → All
            (λ d. Runs d (x ∷ xs))
            (elim b [
              | true ↦ distinct_digests seen xs
              | false ↦ x.ref.digest ∷ distinct_digests (x.ref.digest ∷ seen) xs
            ])
    by_test true a b = later (distinct_digests seen xs) a
    by_test false a b =
        ((x, Memᴰ.head refl, refl), later (distinct_digests (x.ref.digest ∷ seen) xs) b)

-- And every running container's digest is among them, or was seen before.
distinct_digests-Memᴰ :
    (seen : List Text) (xs : List RunningImage)
    → All
        (λ (x : RunningImage).
          Memᴰ x.ref.digest seen ⊎ Memᴰ x.ref.digest (distinct_digests seen xs))
        xs
unfolding distinct_digests
distinct_digests-Memᴰ seen [] = tt
distinct_digests-Memᴰ seen (x ∷ xs) =
    by_test (is_seen x.ref.digest seen) refl (distinct_digests-Memᴰ seen xs)
      (distinct_digests-Memᴰ (x.ref.digest ∷ seen) xs)
  where
    Kept : List Text → RunningImage → Type 0
    Kept ds y = Memᴰ y.ref.digest seen ⊎ Memᴰ y.ref.digest ds

    moved :
        (y : RunningImage)
        → Memᴰ y.ref.digest (x.ref.digest ∷ seen)
          ⊎ Memᴰ y.ref.digest (distinct_digests (x.ref.digest ∷ seen) xs)
        → Kept (x.ref.digest ∷ distinct_digests (x.ref.digest ∷ seen) xs) y
    moved y (inl (Memᴰ.head e)) = inr (Memᴰ.head e)
    moved y (inl (Memᴰ.tail m)) = inl m
    moved y (inr m) = inr (Memᴰ.tail m)

    by_test :
        (b : Bool)
        → is_seen x.ref.digest seen ≡ b
        → All (Kept (distinct_digests seen xs)) xs
        → All
            (λ (y : RunningImage).
              Memᴰ y.ref.digest (x.ref.digest ∷ seen)
              ⊎ Memᴰ y.ref.digest (distinct_digests (x.ref.digest ∷ seen) xs))
            xs
        → All
            (Kept (elim b [
              | true ↦ distinct_digests seen xs
              | false ↦ x.ref.digest ∷ distinct_digests (x.ref.digest ∷ seen) xs
            ]))
            (x ∷ xs)
    by_test true e a b = (inl (Memᴰ-is_seen x.ref.digest seen e), a)
    by_test false e a b = (inr (Memᴰ.head refl), All-map moved xs b)

most_common-Memᴰ :
    (running : List RunningImage) (best : Text) (ds : List Text)
    → Memᴰ (most_common running best ds) (best ∷ ds)
unfolding most_common
most_common-Memᴰ running best [] = Memᴰ.head refl
most_common-Memᴰ running best (d ∷ ds) =
    by_test (ltb (count_digest best running) (count_digest d running))
      (most_common-Memᴰ running d ds) (most_common-Memᴰ running best ds)
  where
    skip : (t : Text) → Memᴰ t (best ∷ ds) → Memᴰ t (best ∷ d ∷ ds)
    skip t (Memᴰ.head e) = Memᴰ.head e
    skip t (Memᴰ.tail m) = Memᴰ.tail (Memᴰ.tail m)

    by_test :
        (b : Bool)
        → Memᴰ (most_common running d ds) (d ∷ ds)
        → Memᴰ (most_common running best ds) (best ∷ ds)
        → Memᴰ
            (elim b [ true ↦ most_common running d ds | false ↦ most_common running best ds ])
            (best ∷ d ∷ ds)
    by_test true m n = Memᴰ.tail m
    by_test false m n = skip _ n

other_digests-Memᴰ :
    (digest t : Text) (ds : List Text) → Memᴰ t ds → (t ≡ digest) ⊎ Memᴰ t (other_digests digest ds)
unfolding other_digests
other_digests-Memᴰ digest t [] m = elim m [ ]
other_digests-Memᴰ digest t (d ∷ ds) m =
    by_test (text_eq d digest) refl m (λ n. other_digests-Memᴰ digest t ds n)
  where
    kept :
        (t ≡ digest) ⊎ Memᴰ t (other_digests digest ds)
        → (t ≡ digest) ⊎ Memᴰ t (d ∷ other_digests digest ds)
    kept (inl e) = inl e
    kept (inr n) = inr (Memᴰ.tail n)

    by_test :
        (b : Bool)
        → text_eq d digest ≡ b
        → Memᴰ t (d ∷ ds)
        → (Memᴰ t ds → (t ≡ digest) ⊎ Memᴰ t (other_digests digest ds))
        → (t ≡ digest)
          ⊎ Memᴰ t (elim b [ true ↦ other_digests digest ds | false ↦ d ∷ other_digests digest ds ])
    by_test true e (Memᴰ.head h) rest = inl (h ∙ (text_eq_iff d digest).0 e)
    by_test true e (Memᴰ.tail n) rest = rest n
    by_test false e (Memᴰ.head h) rest = inr (Memᴰ.head h)
    by_test false e (Memᴰ.tail n) rest = kept (rest n)

-- What the choice among the running containers is.
pub record Accounts (manifest : Text) (running : List RunningImage) (p : Pick) : Type 0 where
  pub runs : Runs p.digest running
  pub listed :
      All
        (λ (x : RunningImage). (x.ref.digest ≡ p.digest) ⊎ Memᴰ x.ref.digest p.alternatives)
        running
  pub pinned : Runs manifest running → p.digest ≡ manifest
  pub silent : p.warnings ≡ [] → All (λ (x : RunningImage). x.ref.digest ≡ p.digest) running

no_seen : {t : Text} {ds : List Text} → Memᴰ t [] ⊎ Memᴰ t ds → Memᴰ t ds
no_seen (inl m) = elim m [ ]
no_seen (inr m) = m

only : (t d : Text) → Memᴰ t (d ∷ []) → t ≡ d
only t d (Memᴰ.head e) = e
only t d (Memᴰ.tail m) = elim m [ ]

Memᴰ-seen : (t : Text) (us : List Text) → Memᴰ t us → is_seen t us ≡ true
unfolding is_seen
Memᴰ-seen t [] m = elim m [ ]
Memᴰ-seen t (u ∷ us) (Memᴰ.head e) = seen_here _ _ ((text_eq_iff u t).1 (sym e))
Memᴰ-seen t (u ∷ us) (Memᴰ.tail m) = seen_there _ _ (Memᴰ-seen t us m)

module _ (registered : Registry) (namespace repo : Text) (occ : List Occurrence)
    (running : List RunningImage) (manifest : Text) where
  disagreeing-Accounts :
      (ds : List Text) (digest reason : Text)
      → Memᴰ digest ds
      → (is_seen manifest ds ≡ true → digest ≡ manifest)
      → All (λ d. Runs d running) ds
      → All (λ (x : RunningImage). Memᴰ x.ref.digest ds) running
      → Accounts manifest running
          (disagreeing_pick registered namespace repo occ running manifest ds digest reason)
  unfolding disagreeing_pick
  disagreeing-Accounts ds digest reason m pin sound complete = record {
    runs = All-at (λ d. Runs d running) ds m sound;
    listed =
        All-map
          (λ (x : RunningImage) (n : Memᴰ x.ref.digest ds).
            other_digests-Memᴰ digest x.ref.digest ds n)
          running complete;
    pinned = λ r. pin (
        Memᴰ-seen manifest ds (
          subst (λ d. Memᴰ d ds) r.2
            (All-at (λ (x : RunningImage). Memᴰ x.ref.digest ds) running r.1 complete)));
    silent = λ e. absurd (cc e);
  }

  pick_among-Accounts :
      (x : RunningImage) (ds : List Text)
      → Memᴰ x.ref.digest ds
      → All (λ d. Runs d running) ds
      → All (λ (x : RunningImage). Memᴰ x.ref.digest ds) running
      → (p : Pick) × (pick_among registered namespace repo occ running manifest ds ≡ some p)
        × Accounts manifest running p
  unfolding pick_among
  pick_among-Accounts x [] m sound complete = elim m [ ]
  pick_among-Accounts x (d ∷ []) m sound complete =
      let agree : All (λ (x : RunningImage). x.ref.digest ≡ d) running =
        All-map (λ (x : RunningImage) (n : Memᴰ x.ref.digest (d ∷ [])). only x.ref.digest d n)
          running complete in
      (
        _,
        refl,
        record {
          runs = sound.0;
          listed = All-map (λ (x : RunningImage) (e : x.ref.digest ≡ d). inl e) running agree;
          pinned =
              λ r. sym (All-at (λ (x : RunningImage). x.ref.digest ≡ d) running r.1 agree) ∙ r.2;
          silent = λ e. agree;
        },
      )
  pick_among-Accounts x (d ∷ e ∷ ds) m sound complete = by_pin (is_seen manifest (d ∷ e ∷ ds)) refl
    where
      by_pin :
          (b : Bool)
          → is_seen manifest (d ∷ e ∷ ds) ≡ b
          → (p : Pick) × (some (elim b [
            | true ↦
                disagreeing_pick registered namespace repo occ running manifest
                  (d ∷ e ∷ ds)
                  manifest
                  (codes "matches manifest pin")
            | false ↦
                disagreeing_pick registered namespace repo occ running manifest
                  (d ∷ e ∷ ds)
                  (most_common running d (e ∷ ds))
                  (common_reason registered namespace repo occ running manifest
                    (most_common running d (e ∷ ds))
                    (d ∷ e ∷ ds))
          ])
              ≡ some p)
            × Accounts manifest running p
      by_pin true h = (
        _,
        refl,
        disagreeing-Accounts (d ∷ e ∷ ds) manifest (codes "matches manifest pin")
            (Memᴰ-is_seen manifest (d ∷ e ∷ ds) h) (λ _. refl) sound complete,
      )
      by_pin false h = (
        _,
        refl,
        disagreeing-Accounts (d ∷ e ∷ ds) (most_common running d (e ∷ ds))
            (common_reason registered namespace repo occ running manifest
              (most_common running d (e ∷ ds)) (d ∷ e ∷ ds))
            (most_common-Memᴰ running d (e ∷ ds)) (λ k. absurd (cc (h, k))) sound complete,
      )

-- For running containers there is always a choice. It is the digest that one of them runs, and every
-- other digest that runs is among the alternatives. Where a container runs the manifest's digest, it
-- is the choice. And there is no warning only if all containers run the choice.
pub choose_pods-Accounts :
    (registered : Registry) (namespace repo : Text) (occ : List Occurrence) (x : RunningImage)
    (xs : List RunningImage) (manifest : Text)
    → (p : Pick) × (choose_pods registered namespace repo occ (x ∷ xs) manifest ≡ some p)
      × Accounts manifest (x ∷ xs) p
unfolding choose_pods
choose_pods-Accounts registered namespace repo occ x xs manifest =
    let ds = distinct_digests [] (x ∷ xs) in
    let complete : All (λ (y : RunningImage). Memᴰ y.ref.digest (sort_texts ds)) (x ∷ xs) =
      All-map
        (λ (y : RunningImage) (m : Memᴰ y.ref.digest [] ⊎ Memᴰ y.ref.digest ds).
          Memᴰ-sort_texts y.ref.digest ds (no_seen m))
        (x ∷ xs) (distinct_digests-Memᴰ [] (x ∷ xs)) in
    pick_among-Accounts registered namespace repo occ (x ∷ xs) manifest x (sort_texts ds) complete.0
      (All-sort_texts (λ d. Runs d (x ∷ xs)) ds (distinct_digests-Runs [] (x ∷ xs))) complete
