-- ===== src/Gitops/Choose/Carried.antt =====
-- The chosen reference is one that the source carries, and the only one where there is no choice.
use hoist.Prelude.{
  ℕ, ◌≡◌, refl, sym, ap, ◌∙◌, inl, inr, ◌⊎◌, true, false, List, [], ◌∷◌, some, Text, text_eq,
  text_eq_iff, ltb, length, Bool-cases, All, if_elim, All-map, All-Memᴰ,
}
use mathlib.Core.Path.{subst}
use mathlib.Core.List.{Memᴰ}
use hoist.Image.Ref.{Ref, to_text, pinned}
use hoist.Gitops.Types.{Occurrence}
use hoist.Gitops.Choose.{
  Tally, count_ref, tally, pinned_tallies, most_frequent, Choice, by_frequency, by_pin,
  choose_tally, choose_ref,
}

-- Some occurrence carries the reference.
abbrev pub Carries : List Occurrence → Ref → Type 0
Carries occ r = (o : Occurrence) × Memᴰ o occ × (o.ref ≡ r)

-- Some tally has the text.
abbrev Counted : Text → List Tally → Type 0
Counted k [] = ⊥
Counted k (t ∷ ts) = (t.key ≡ k) ⊎ Counted k ts

module _ (P : Ref → Type 0) where
  -- Every reference that is kept was met, under its own text.
  abbrev Met : List Tally → Type 0
  Met = All (λ t. P t.ref × (to_text t.ref ≡ t.key))

  count_ref-Met : (r : Ref) (ts : List Tally) → P r → Met ts → Met (count_ref r ts)
  unfolding count_ref
  count_ref-Met r [] p m = ((p, refl), tt)
  count_ref-Met r (t ∷ ts) p m = elim (Bool-cases (text_eq t.key (to_text r))) [
    | inl e ↦ rw (e, count_ref) m
    | inr e ↦ rw (e, count_ref) (m.0, count_ref-Met r ts p m.1)
  ]

  tally-Met :
      (occ : List Occurrence) (ts : List Tally)
      → All (λ o. P o.ref) occ
      → Met ts
      → Met (tally ts occ)
  unfolding tally
  tally-Met [] ts p m = m
  tally-Met (o ∷ os) ts p m = tally-Met os (count_ref o.ref ts) p.1 (count_ref-Met o.ref ts p.0 m)

  pinned_tallies-Met : (ts : List Tally) → Met ts → Met (pinned_tallies ts)
  unfolding pinned_tallies
  pinned_tallies-Met [] m = tt
  pinned_tallies-Met (t ∷ ts) m =
      if_elim Met (pinned t.ref) (λ e. (m.0, pinned_tallies-Met ts m.1))
        (λ e. pinned_tallies-Met ts m.1)

  most_frequent-Met :
      (best : Tally) (ts : List Tally) → P best.ref → Met ts → P (most_frequent best ts).ref
  unfolding most_frequent
  most_frequent-Met best [] p m = p
  most_frequent-Met best (t ∷ ts) p m = elim (Bool-cases (ltb best.count t.count)) [
    | inl e ↦ rw (e, most_frequent) (most_frequent-Met t ts m.0.0 m.1)
    | inr e ↦ rw (e, most_frequent) (most_frequent-Met best ts p m.1)
  ]

  by_frequency-Met : (n : ℕ) (t : Tally) → P t.ref → P (by_frequency n t).chosen
  unfolding by_frequency
  by_frequency-Met n t p = if_elim (λ (c : Choice). P c.chosen) (ltb 1 t.count) (λ e. p) (λ e. p)

  by_pin-Met :
      (n : ℕ) (t : Tally) (ts ps : List Tally) → Met (t ∷ ts) → Met ps → P (by_pin n t ts ps).chosen
  unfolding by_pin
  by_pin-Met n t ts [] m k = by_frequency-Met n _ (most_frequent-Met t ts m.0.0 m.1)
  by_pin-Met n t ts (p ∷ []) m k = k.0.0
  by_pin-Met n t ts (p ∷ q ∷ ps) m k = by_frequency-Met n _ (most_frequent-Met t ts m.0.0 m.1)

  choose_tally-Met :
      (n : ℕ) (ts : List Tally) (c : Choice) → Met ts → choose_tally n ts ≡ some c → P c.chosen
  unfolding choose_tally
  choose_tally-Met n [] c m h = absurd (cc h)
  choose_tally-Met n (t ∷ []) c m h = let same : t.ref ≡ c.chosen = cc h in subst P same m.0.0
  choose_tally-Met n (t ∷ u ∷ ts) c m h =
      let same : by_pin n t (u ∷ ts) (pinned_tallies (t ∷ u ∷ ts)) ≡ c = cc h in
      subst (λ (c : Choice). P c.chosen) same
        (by_pin-Met n t (u ∷ ts) _ m (pinned_tallies-Met (t ∷ u ∷ ts) m))

-- A text that was counted stays, and each reference's text is counted.
count_ref-keeps : (k : Text) (r : Ref) (ts : List Tally) → Counted k ts → Counted k (count_ref r ts)
unfolding count_ref
count_ref-keeps k r [] h = absurd h
count_ref-keeps k r (t ∷ ts) h = elim (Bool-cases (text_eq t.key (to_text r))) [
  | inl e ↦ rw (e, count_ref) h
  | inr e ↦
      rw (e, count_ref)
        (elim h [ inl here ↦ inl here | inr later ↦ inr (count_ref-keeps k r ts later) ])
]

count_ref-Counted : (r : Ref) (ts : List Tally) → Counted (to_text r) (count_ref r ts)
unfolding count_ref
count_ref-Counted r [] = inl refl
count_ref-Counted r (t ∷ ts) = elim (Bool-cases (text_eq t.key (to_text r))) [
  | inl e ↦ rw (e, count_ref) (inl ((text_eq_iff t.key (to_text r)).0 e))
  | inr e ↦ rw (e, count_ref) (inr (count_ref-Counted r ts))
]

tally-keeps :
    (k : Text) (occ : List Occurrence) (ts : List Tally) → Counted k ts → Counted k (tally ts occ)
unfolding tally
tally-keeps k [] ts h = h
tally-keeps k (o ∷ os) ts h = tally-keeps k os (count_ref o.ref ts) (count_ref-keeps k o.ref ts h)

tally-Counted :
    (occ : List Occurrence) (ts : List Tally)
    → All (λ o. Counted (to_text o.ref) (tally ts occ)) occ
unfolding tally
tally-Counted [] ts = tt
tally-Counted (o ∷ os) ts = (
  tally-keeps (to_text o.ref) os (count_ref o.ref ts) (count_ref-Counted o.ref ts),
  tally-Counted os (count_ref o.ref ts),
)

by_frequency-disagree : (n : ℕ) (t : Tally) → (by_frequency n t).disagree ≡ true
unfolding by_frequency
by_frequency-disagree n t =
    if_elim (λ (c : Choice). c.disagree ≡ true) (ltb 1 t.count) (λ e. refl) (λ e. refl)

by_pin-disagree : (n : ℕ) (t : Tally) (ts ps : List Tally) → (by_pin n t ts ps).disagree ≡ true
unfolding by_pin
by_pin-disagree n t ts [] = by_frequency-disagree n (most_frequent t ts)
by_pin-disagree n t ts (p ∷ []) = refl
by_pin-disagree n t ts (p ∷ q ∷ ps) = by_frequency-disagree n (most_frequent t ts)

-- Where no choice was needed, one text was counted.
choose_tally-agree :
    (n : ℕ) (ts : List Tally) (c : Choice)
    → choose_tally n ts ≡ some c
    → c.disagree ≡ false
    → (t : Tally) × (ts ≡ t ∷ []) × (c.chosen ≡ t.ref)
unfolding choose_tally
choose_tally-agree n [] c h d = absurd (cc h)
choose_tally-agree n (t ∷ []) c h d = (t, refl, cc h)
choose_tally-agree n (t ∷ u ∷ ts) c h d =
    let same : by_pin n t (u ∷ ts) (pinned_tallies (t ∷ u ∷ ts)) ≡ c = cc h in
    let chose : true ≡ false =
      sym (by_pin-disagree n t (u ∷ ts) (pinned_tallies (t ∷ u ∷ ts)))
      ∙ (ap (λ (c : Choice). c.disagree) same ∙ d) in
    absurd (cc chose)

only_one : (k : Text) (t : Tally) (ts : List Tally) → ts ≡ t ∷ [] → Counted k ts → t.key ≡ k
only_one k t [] e h = absurd h
only_one k t (u ∷ []) e (inl h) = cc (e, h)
only_one k t (u ∷ []) e (inr h) = absurd h
only_one k t (u ∷ v ∷ ts) e h = absurd (cc e)

choose_tally-Counted :
    (n : ℕ) (k : Text) (ts : List Tally)
    → Counted k ts
    → (c : Choice) × (choose_tally n ts ≡ some c)
unfolding choose_tally
choose_tally-Counted n k [] h = absurd h
choose_tally-Counted n k (t ∷ []) h = (_, refl)
choose_tally-Counted n k (t ∷ u ∷ ts) h = (_, refl)

-- ChooseRef makes a choice for every occurrence and any others behind it. What it chooses is a
-- reference that some occurrence carries, and where it reports no disagreement every occurrence's
-- reference has the text of the chosen one.
pub choose_ref-Carries :
    (o : Occurrence) (os : List Occurrence)
    → (c : Choice) × (choose_ref (o ∷ os) ≡ some c)
      × Carries (o ∷ os) c.chosen
      × (c.disagree ≡ false → All (λ x. to_text x.ref ≡ to_text c.chosen) (o ∷ os))
unfolding choose_ref
choose_ref-Carries o os =
    let occ : List Occurrence = o ∷ os in
    let ts = tally [] occ in
    let counted = tally-Counted occ [] in
    let met =
      tally-Met (Carries occ) occ [] (All-map (λ x m. (x, m, refl)) occ (All-Memᴰ occ)) tt in
    let (c, h) = choose_tally-Counted (length occ) (to_text o.ref) ts counted.0 in
    (
      c,
      h,
      choose_tally-Met (Carries occ) (length occ) ts c met h,
      λ d.
          let (t, one, same) = choose_tally-agree (length occ) ts c h d in
          let key : to_text c.chosen ≡ t.key =
            ap to_text same ∙ (subst (Met (Carries occ)) one met).0.1 in
          All-map (λ x k. sym (only_one (to_text x.ref) t ts one k) ∙ sym key) occ counted,
    )
