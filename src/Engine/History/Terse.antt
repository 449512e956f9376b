-- ===== src/Engine/History/Terse.antt =====
-- What CompactHistory keeps of a history, and what it leaves out.
use hoist.Prelude.{
  ◌≡◌, refl, sym, ap, ◌∙◌, inl, inr, true, false, not, ◌&&◌, List, [], ◌∷◌, ◌++◌, Option, none,
  some, text_eq, text_eq_iff, find_last-Memᴰ, find_last-past, if◌then◌else◌, Memᴰ-append_left,
  Memᴰ-append_right, find_last, All, Bool-cases, if_true, arith, append-nil, append_assoc,
}
use mathlib.Core.Path.{subst}
use mathlib.Core.List.{Memᴰ}
use hoist.Engine.State.{HistoryEntry}
use hoist.Engine.History.{
  acted, is_stopping_detail, not_acted, of_step, same_entry, same_detail, history_duplicate,
  compact_from, unless_empty, compact_history,
}
use hoist.Engine.History.Repeats.{IsStop, IsQuiet, duplicate-acted, duplicate-stop, duplicate-quiet}
use hoist.Engine.History.Compact.{compact_history_idem}

-- The entries of one list stand in the other, in the same order.
pub data Within : List HistoryEntry → List HistoryEntry → Type 0 where
  nothing : Within [] []
  kept : {e : HistoryEntry} {xs ys : List HistoryEntry} → Within xs ys → Within (e ∷ xs) (e ∷ ys)
  left_out : {e : HistoryEntry} {xs ys : List HistoryEntry} → Within xs ys → Within xs (e ∷ ys)

-- The writes of a history.
abbrev pub writes : List HistoryEntry → List HistoryEntry
writes [] = []
writes (e ∷ es) = if not_acted e then writes es else e ∷ writes es

-- An entry of the step with the detail.
abbrev pub Told : List HistoryEntry → HistoryEntry → Type 0
Told h e = (x : HistoryEntry) × Memᴰ x h × (x.step ≡ e.step) × (x.detail ≡ e.detail)

-- A history in which no entry repeats what stands before it.
abbrev pub Fresh : List HistoryEntry → Type 0
Fresh h =
    (a m b : List HistoryEntry) (e f : HistoryEntry)
    → h ≡ (a ++ e ∷ m) ++ f ∷ b
    → e.step ≡ f.step
    → e.detail ≡ f.detail
    → (IsStop f.detail → All (λ x. not_acted x ≡ false) m → ⊥)
      × (IsQuiet f.detail → All (λ x. of_step f.step x ≡ false) m → ⊥)

-- What a compacted history is of a history.
pub record Terse (h c : List HistoryEntry) : Type 0 where
  pub within : Within c h
  pub all_writes : writes c ≡ writes h
  pub all_told : All (Told c) h
  pub fresh : Fresh c

-- A repeat has been told.
duplicate-Told :
    (h : List HistoryEntry) (e : HistoryEntry)
    → history_duplicate h e.step e.detail ≡ true
    → Told h e
duplicate-Told h e d = elim (Bool-cases (text_eq e.detail acted)) [
  | inl a ↦ absurd (wrote ((text_eq_iff e.detail acted).0 a) d)
  | inr n ↦ elim (Bool-cases (is_stopping_detail e.detail)) [
    | inl s ↦
        stopped (find_last not_acted h) refl (sym (duplicate-stop h e.step e.detail (n, s)) ∙ d)
    | inr q ↦
        passed (find_last (of_step e.step) h) refl
          (sym (duplicate-quiet h e.step e.detail (n, q)) ∙ d)
  ]
]
  where
    wrote : e.detail ≡ acted → history_duplicate h e.step e.detail ≡ true → ⊥
    wrote a d =
        let never = duplicate-acted h e.step in
        let there = sym (ap (history_duplicate h e.step) a) ∙ d in cc (never, there)

    stopped :
        (o : Option HistoryEntry)
        → find_last not_acted h ≡ o
        → same_entry e.step e.detail o ≡ true
        → Told h e
    stopped none f k = absurd (cc k)
    stopped (some x) f k = (
      x,
      (find_last-Memᴰ not_acted h x f).0,
      (text_eq_iff x.step e.step).0 (ground arith),
      (text_eq_iff x.detail e.detail).0 (ground arith),
    )

    passed :
        (o : Option HistoryEntry)
        → find_last (of_step e.step) h ≡ o
        → same_detail e.detail o ≡ true
        → Told h e
    passed none f k = absurd (cc k)
    passed (some x) f k =
        let (m, t) = find_last-Memᴰ (of_step e.step) h x f in
        (x, m, (text_eq_iff x.step e.step).0 t, (text_eq_iff x.detail e.detail).0 k)

-- No entry repeats what stands before it, the first list included.
NoneRepeats : List HistoryEntry → List HistoryEntry → Type 0
NoneRepeats out [] = Unit
NoneRepeats out (e ∷ es) =
    (history_duplicate out e.step e.detail ≡ false) × NoneRepeats (out ++ e ∷ []) es

NoneRepeats-at :
    (out q b : List HistoryEntry) (f : HistoryEntry)
    → NoneRepeats out (q ++ f ∷ b)
    → history_duplicate (out ++ q) f.step f.detail ≡ false
unfolding NoneRepeats
NoneRepeats-at out [] b f k = rw (append-nil out) k.0
NoneRepeats-at out (x ∷ q) b f k =
    subst (λ l. history_duplicate l f.step f.detail ≡ false) (append_assoc out (x ∷ []) q)
      (NoneRepeats-at (out ++ x ∷ []) q b f k.1)

-- What the loop adds.
record Sifts (out es more : List HistoryEntry) : Type 0 where
  within : Within more es
  all_writes : writes more ≡ writes es
  all_told : All (Told (out ++ more)) es
  none_repeats : NoneRepeats out more

duplicate-not_acted :
    (h : List HistoryEntry) (e : HistoryEntry)
    → history_duplicate h e.step e.detail ≡ true
    → not_acted e ≡ true
duplicate-not_acted h e d = elim (Bool-cases (text_eq e.detail acted)) [
  | inr n ↦ ground arith
  | inl a ↦
      let same = (text_eq_iff e.detail acted).0 a in
      let never = duplicate-acted h e.step in
      let there = sym (ap (history_duplicate h e.step) same) ∙ d in absurd (cc (never, there))
]

Sifts-left_out :
    (out es more : List HistoryEntry) (e : HistoryEntry)
    → history_duplicate out e.step e.detail ≡ true
    → Sifts out es more
    → Sifts out (e ∷ es) more
Sifts-left_out out es more e d s =
    let (x, m, step, detail) = duplicate-Told out e d in
    record {
      within = Within.left_out s.within;
      all_writes = s.all_writes ∙ sym (if_true _ _ (duplicate-not_acted out e d));
      all_told = ((x, Memᴰ-append_left out more m, step, detail), s.all_told);
      none_repeats = s.none_repeats;
    }

Sifts-kept :
    (out es more : List HistoryEntry) (e : HistoryEntry)
    → history_duplicate out e.step e.detail ≡ false
    → Sifts (out ++ e ∷ []) es more
    → Sifts out (e ∷ es) (e ∷ more)
unfolding NoneRepeats
Sifts-kept out es more e d s = record {
  within = Within.kept s.within;
  all_writes = ap (λ w. if not_acted e then w else e ∷ w) s.all_writes;
  all_told = (
    (e, Memᴰ-append_right out (e ∷ more) (Memᴰ.head refl), refl, refl),
    subst (λ l. All (Told l) es) (append_assoc out (e ∷ []) more) s.all_told,
  );
  none_repeats = (d, s.none_repeats);
}

compact_from-Sifts :
    (out es : List HistoryEntry)
    → (more : List HistoryEntry) × (compact_from out es ≡ out ++ more) × Sifts out es more
unfolding compact_from NoneRepeats
compact_from-Sifts out [] = (
  [],
  sym (append-nil out),
  record { within = Within.nothing; all_writes = refl; all_told = tt; none_repeats = tt },
)
compact_from-Sifts out (e ∷ es) = elim (Bool-cases (history_duplicate out e.step e.detail)) [
  | inl d ↦
      let (more, same, s) = compact_from-Sifts out es in
      (more, rw (d, compact_from) same, Sifts-left_out out es more e d s)
  | inr n ↦
      let (more, same, s) = compact_from-Sifts (out ++ e ∷ []) es in
      (
        e ∷ more,
        rw (n, compact_from) (same ∙ append_assoc out (e ∷ []) more),
        Sifts-kept out es more e n s,
      )
]

-- Whatever is left out was told, so nothing is all that is left only of nothing.
unless_empty-Told : (c h : List HistoryEntry) → All (Told c) h → unless_empty c h ≡ c
unless_empty-Told [] [] t = refl
unless_empty-Told [] (e ∷ h) t = elim t.0.1 [ ]
unless_empty-Told (x ∷ c) h t = refl

NoneRepeats-Fresh : (c : List HistoryEntry) → NoneRepeats [] c → Fresh c
NoneRepeats-Fresh c k a m b e f split step detail =
    let new = NoneRepeats-at [] (a ++ e ∷ m) b f (subst (NoneRepeats []) split k) in
    (
      λ stop past.
          let found =
            find_last-past not_acted a m e
              (subst (λ t. not (text_eq t acted) ≡ true) (sym detail) (ap not stop.0)) past in
          repeats (
            sym new
            ∙ (duplicate-stop (a ++ e ∷ m) f.step f.detail stop
                ∙ (ap (same_entry f.step f.detail) found ∙ both))),
      λ quiet past.
          let found =
            find_last-past (of_step f.step) a m e ((text_eq_iff e.step f.step).1 step) past in
          repeats (
            sym new
            ∙ (duplicate-quiet (a ++ e ∷ m) f.step f.detail quiet
                ∙ (ap (same_detail f.detail) found ∙ (text_eq_iff e.detail f.detail).1 detail))),
    )
  where
    repeats : false ≡ true → ⊥
    repeats h = cc h

    both : (text_eq e.step f.step && text_eq e.detail f.detail) ≡ true
    both =
        let s = (text_eq_iff e.step f.step).1 step in
        let d = (text_eq_iff e.detail f.detail).1 detail in ground arith

-- What CompactHistory returns is a part of the history in its order. It holds every write. Whatever
-- it leaves out, it holds an entry of the same step with the same detail. A stop that an entry of
-- the same step said before stands in it again only with some other entry than writes between the
-- two, and a satisfied detail only with another entry of its step between them. And compacting it
-- again changes nothing.
pub compact_history-Terse :
    (h : List HistoryEntry)
    → Terse h (compact_history h) × (compact_history (compact_history h) ≡ compact_history h)
unfolding compact_history
compact_history-Terse h =
    let (c, same, s) = compact_from-Sifts [] h in
    let terse : Terse h c = record {
      within = s.within;
      all_writes = s.all_writes;
      all_told = s.all_told;
      fresh = NoneRepeats-Fresh c s.none_repeats;
    } in
    (
      subst (Terse h) (sym (ap (λ o. unless_empty o h) same ∙ unless_empty-Told c h s.all_told))
          terse,
      compact_history_idem h,
    )
