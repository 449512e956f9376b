-- ===== src/Engine/History/Compact.antt =====
-- A compacted history, and the time of the last thing in a history.
use hoist.Prelude.{
  ℕ, ◌≡◌, refl, sym, ap, ◌∙◌, ◌≤◌, ◌⊎◌, inl, inr, true, false, List, [], ◌∷◌, ◌++◌, Text, All,
  Bool-cases, ltb, if_elim, arith,
}
use mathlib.Core.Path.{subst}
use mathlib.Core.List.{Memᴰ}
use hoist.Engine.StepName.{StepName}
use hoist.Engine.State.{HistoryEntry, PromotionState}
use hoist.Engine.History.{
  history_duplicate, put_entry, compact_from, unless_empty, compact_history, latest, last_activity,
}

-- Replayed, it comes back equal.
abbrev pub IsCompact : List HistoryEntry → Type 0
IsCompact h = compact_from [] h ≡ h

compact_from-append :
    (out xs ys : List HistoryEntry)
    → compact_from out (xs ++ ys) ≡ compact_from (compact_from out xs) ys
unfolding compact_from
compact_from-append out [] ys = refl
compact_from-append out (x ∷ xs) ys = elim (Bool-cases (history_duplicate out x.step x.detail)) [
  | inl d ↦ rw (d, compact_from) (compact_from-append out xs ys)
  | inr d ↦ rw (d, compact_from) (compact_from-append (out ++ x ∷ []) xs ys)
]

compact_from-new :
    (out : List HistoryEntry) (e : HistoryEntry)
    → history_duplicate out e.step e.detail ≡ false
    → compact_from out (e ∷ []) ≡ out ++ e ∷ []
unfolding compact_from
compact_from-new out e d = rw (d, compact_from) refl

-- An entry that is no repeat may be put behind.
IsCompact-append :
    (out : List HistoryEntry) (e : HistoryEntry)
    → IsCompact out
    → history_duplicate out e.step e.detail ≡ false
    → IsCompact (out ++ e ∷ [])
IsCompact-append out e k d =
    compact_from-append [] out (e ∷ [])
    ∙ (ap (λ o. compact_from o (e ∷ [])) k ∙ compact_from-new out e d)

compact_from-IsCompact :
    (out h : List HistoryEntry) → IsCompact out → IsCompact (compact_from out h)
unfolding compact_from
compact_from-IsCompact out [] k = k
compact_from-IsCompact out (e ∷ h) k = elim (Bool-cases (history_duplicate out e.step e.detail)) [
  | inl d ↦ rw (d, compact_from) (compact_from-IsCompact out h k)
  | inr d ↦
      rw (d, compact_from) (compact_from-IsCompact (out ++ e ∷ []) h (IsCompact-append out e k d))
]

compact_again :
    (c h : List HistoryEntry)
    → compact_from [] h ≡ c
    → IsCompact c
    → unless_empty (compact_from [] (unless_empty c h)) (unless_empty c h) ≡ unless_empty c h
compact_again [] h e k = ap (λ o. unless_empty o h) e
compact_again (x ∷ c) h e k = ap (λ o. unless_empty o (x ∷ c)) k

-- Compacting a second time changes nothing.
pub compact_history_idem :
    (h : List HistoryEntry) → compact_history (compact_history h) ≡ compact_history h
unfolding compact_history compact_from
compact_history_idem h =
    compact_again (compact_from [] h) h refl (compact_from-IsCompact [] h start)
  where
    start : IsCompact []
    start = refl

-- A history that CompactHistory's loop gives back still is one after the engine has recorded
-- anything in it.
pub put_entry-IsCompact :
    (h : List HistoryEntry) (name : StepName) (at : ℕ) (detail : Text)
    → IsCompact h
    → IsCompact (put_entry name at detail h)
unfolding put_entry
put_entry-IsCompact h name at detail k =
    if_elim IsCompact (history_duplicate h name detail) (λ d. k)
      (λ d. IsCompact-append h (record { step = name; at = at; detail = detail }) k d)

latest-later :
    (t : ℕ) (e : HistoryEntry) (es : List HistoryEntry)
    → ltb t e.at ≡ true
    → latest t (e ∷ es) ≡ latest e.at es
unfolding latest
latest-later t e es n = rw (n, latest) refl

latest-earlier :
    (t : ℕ) (e : HistoryEntry) (es : List HistoryEntry)
    → ltb t e.at ≡ false
    → latest t (e ∷ es) ≡ latest t es
unfolding latest
latest-earlier t e es n = rw (n, latest) refl

latest-nil : (t : ℕ) → t ≤ latest t []
unfolding latest
latest-nil t = ground arith

abbrev IsBound : ℕ → List HistoryEntry → ℕ → Type 0
IsBound t h m = (t ≤ m) × All (λ e. e.at ≤ m) h

latest-bounds : (t : ℕ) (h : List HistoryEntry) → IsBound t h (latest t h)
latest-bounds t [] = (latest-nil t, tt)
latest-bounds t (e ∷ es) = elim (Bool-cases (ltb t e.at)) [
  | inl n ↦
      let (a, b) = latest-bounds e.at es in
      subst (IsBound t (e ∷ es)) (sym (latest-later t e es n)) (ground arith, (a, b))
  | inr n ↦
      let (a, b) = latest-bounds t es in
      subst (IsBound t (e ∷ es)) (sym (latest-earlier t e es n)) (a, (ground arith, b))
]

latest-attained :
    (t : ℕ) (h : List HistoryEntry)
    → (latest t h ≡ t) ⊎ ((e : HistoryEntry) × Memᴰ e h × (latest t h ≡ e.at))
unfolding latest
latest-attained t [] = inl refl
latest-attained t (e ∷ es) = elim (Bool-cases (ltb t e.at)) [
  | inl n ↦
      rw (n, latest)
        (elim (latest-attained e.at es) [
          | inl same ↦ inr (e, Memᴰ.head refl, same)
          | inr (x, m, same) ↦ inr (x, Memᴰ.tail m, same)
        ])
  | inr n ↦
      rw (n, latest)
        (elim (latest-attained t es) [
          | inl same ↦ inl same
          | inr (x, m, same) ↦ inr (x, Memᴰ.tail m, same)
        ])
]

-- The last activity is no earlier than the promotion's own time and any entry's of its history, and
-- it is one of those times, whatever the order of the entries.
pub last_activity-newest :
    (s : PromotionState)
    → (s.generated_at ≤ last_activity s)
      × All (λ e. e.at ≤ last_activity s) s.history
      × ((last_activity s ≡ s.generated_at)
          ⊎ ((e : HistoryEntry) × Memᴰ e s.history × (last_activity s ≡ e.at)))
unfolding last_activity
last_activity-newest s =
    let (a, b) = latest-bounds s.generated_at s.history in
    (a, b, latest-attained s.generated_at s.history)
