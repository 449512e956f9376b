-- ===== src/Engine/History/Repeats.antt =====
-- History records changes: what is left out is what the log already ends with, or what the step
-- already said.
use hoist.Prelude.{
  suc, ℕ, ◌≡◌, refl, ◌∙◌, inl, inr, true, false, List, [], ◌∷◌, ◌++◌, Text, text_eq, text_eq_refl,
  find_last, find_last-append, arith, All, Bool-cases, if_true, if_false, append-nil, append_assoc,
}
use hoist.Engine.StepName.{StepName}
use hoist.Engine.State.{HistoryEntry}
use hoist.Engine.History.{
  acted, is_stopping_detail, not_acted, of_step, same_entry, same_detail, history_duplicate,
  put_entry,
}

abbrev entry : StepName → ℕ → Text → HistoryEntry
entry name at detail = record { step = name; at = at; detail = detail }

-- What a detail is: a write, a stop, or a satisfied step.
abbrev pub IsNews : Text → Type 0
IsNews detail = text_eq detail acted ≡ false

abbrev pub IsStop : Text → Type 0
IsStop detail = IsNews detail × (is_stopping_detail detail ≡ true)

abbrev pub IsQuiet : Text → Type 0
IsQuiet detail = IsNews detail × (is_stopping_detail detail ≡ false)

pub duplicate-acted :
    (h : List HistoryEntry) (name : StepName) → history_duplicate h name acted ≡ false
unfolding history_duplicate
duplicate-acted h name = refl

pub duplicate-stop :
    (h : List HistoryEntry) (name : StepName) (detail : Text)
    → IsStop detail
    → history_duplicate h name detail ≡ same_entry name detail (find_last not_acted h)
unfolding history_duplicate
duplicate-stop h name detail k = if_false _ _ k.0 ∙ if_true _ _ k.1

pub duplicate-quiet :
    (h : List HistoryEntry) (name : StepName) (detail : Text)
    → IsQuiet detail
    → history_duplicate h name detail ≡ same_detail detail (find_last (of_step name) h)
unfolding history_duplicate
duplicate-quiet h name detail k = if_false _ _ k.0 ∙ if_false _ _ k.1

find_last-skips :
    (writes h : List HistoryEntry)
    → All (λ e. not_acted e ≡ false) writes
    → find_last not_acted (h ++ writes) ≡ find_last not_acted h
find_last-skips [] h ws = rw append-nil
find_last-skips (e ∷ writes) h ws =
    rw (← append_assoc h (e ∷ []) writes)
      (find_last-skips writes (h ++ e ∷ []) ws.1 ∙ rw (find_last-append not_acted h e, ws.0) refl)

-- The last entry that is no write says what a stop would say.
put-duplicate_stop :
    (h : List HistoryEntry) (name : StepName) (at : ℕ) (detail : Text)
    → IsStop detail
    → same_entry name detail (find_last not_acted (put_entry name at detail h)) ≡ true
unfolding put_entry
put-duplicate_stop h name at detail k = elim (Bool-cases (history_duplicate h name detail)) [
  | inl d ↦ rw (d, put_entry) (rw (← duplicate-stop h name detail k) d)
  | inr n ↦
      rw (n, put_entry)
        (rw (find_last-append not_acted h (entry name at detail), k.0)
          (ground (arith, text_eq_refl name, text_eq_refl detail)))
]

put-duplicate_quiet :
    (h : List HistoryEntry) (name : StepName) (at : ℕ) (detail : Text)
    → IsQuiet detail
    → same_detail detail (find_last (of_step name) (put_entry name at detail h)) ≡ true
unfolding put_entry
put-duplicate_quiet h name at detail k = elim (Bool-cases (history_duplicate h name detail)) [
  | inl d ↦ rw (d, put_entry) (rw (← duplicate-quiet h name detail k) d)
  | inr n ↦
      rw (n, put_entry)
        (rw (find_last-append (of_step name) h (entry name at detail), text_eq_refl name)
          (text_eq_refl detail))
]

-- Other steps' entries do not hide what a step said last.
put-of_other :
    (h : List HistoryEntry) (name other : StepName) (at : ℕ) (detail : Text)
    → text_eq other name ≡ false
    → find_last (of_step name) (put_entry other at detail h) ≡ find_last (of_step name) h
unfolding put_entry
put-of_other h name other at detail k = elim (Bool-cases (history_duplicate h other detail)) [
  | inl d ↦ rw (d, put_entry)
  | inr n ↦
      rw (n, put_entry) (rw (find_last-append (of_step name) h (entry other at detail), k) refl)
]

put-skips :
    (h : List HistoryEntry) (name : StepName) (at : ℕ) (detail : Text)
    → history_duplicate h name detail ≡ true
    → put_entry name at detail h ≡ h
unfolding put_entry
put-skips h name at detail d = rw (d, put_entry)

-- Writes in between do not separate two equal stops: however many "acted" entries of whatever
-- steps follow it, the same stop of the same step, at any time, is not recorded again.
pub put_entry-stop_repeated :
    (h writes : List HistoryEntry) (name : StepName) (at at' : ℕ) (detail : Text)
    → IsStop detail
    → All (λ e. not_acted e ≡ false) writes
    → let h' = put_entry name at detail h ++ writes in put_entry name at' detail h' ≡ h'
put_entry-stop_repeated h writes name at at' detail k ws =
    put-skips (put_entry name at detail h ++ writes) name at' detail (
      duplicate-stop _ name detail k
      ∙ (rw (find_last-skips writes (put_entry name at detail h) ws)
          (put-duplicate_stop h name at detail k)))

-- What a walk that only observes would record: each step it passed, then the stop, if any.
pub data Said : Type 0 where
  went_through : Said
  stopped_at : StepName → Text → Said
  passed : StepName → Text → Said → Said

-- The entries of a walk, each at its own time.
abbrev pub record_said : (ℕ → ℕ) → Said → List HistoryEntry → List HistoryEntry
record_said times went_through h = h
record_said times (stopped_at name detail) h = put_entry name (times 0) detail h
record_said times (passed name detail rest) h =
    record_said (λ i. times (suc i)) rest (put_entry name (times 0) detail h)

-- No entry of the walk is of the step.
abbrev pub Silent : StepName → Said → Type 0
Silent name went_through = Unit
Silent name (stopped_at other detail) = text_eq other name ≡ false
Silent name (passed other detail rest) = (text_eq other name ≡ false) × Silent name rest

-- The steps have different names, and each detail reads as what it is.
abbrev pub WellSaid : Said → Type 0
WellSaid went_through = Unit
WellSaid (stopped_at name detail) = IsStop detail
WellSaid (passed name detail rest) = IsQuiet detail × Silent name rest × WellSaid rest

-- Everything that the walk said is the newest of its kind.
abbrev Known : Said → List HistoryEntry → Type 0
Known went_through h = Unit
Known (stopped_at name detail) h = same_entry name detail (find_last not_acted h) ≡ true
Known (passed name detail rest) h =
    (same_detail detail (find_last (of_step name) h) ≡ true) × Known rest h

Silent-keeps :
    (name : StepName) (times : ℕ → ℕ) (w : Said) (h : List HistoryEntry)
    → Silent name w
    → find_last (of_step name) (record_said times w h) ≡ find_last (of_step name) h
Silent-keeps name times went_through h s = refl
Silent-keeps name times (stopped_at other detail) h s = put-of_other h name other (times 0) detail s
Silent-keeps name times (passed other detail rest) h s =
    Silent-keeps name (λ i. times (suc i)) rest (put_entry other (times 0) detail h) s.1
    ∙ put-of_other h name other (times 0) detail s.0

record_said-Known :
    (times : ℕ → ℕ) (w : Said) (h : List HistoryEntry)
    → WellSaid w
    → Known w (record_said times w h)
record_said-Known times went_through h k = tt
record_said-Known times (stopped_at name detail) h k = put-duplicate_stop h name (times 0) detail k
record_said-Known times (passed name detail rest) h k = (
  rw (Silent-keeps name (λ i. times (suc i)) rest (put_entry name (times 0) detail h) k.1)
      (put-duplicate_quiet h name (times 0) detail k.0),
  record_said-Known (λ i. times (suc i)) rest (put_entry name (times 0) detail h) k.2,
)

Known-skips :
    (times : ℕ → ℕ) (w : Said) (h : List HistoryEntry)
    → WellSaid w
    → Known w h
    → record_said times w h ≡ h
Known-skips times went_through h k n = refl
Known-skips times (stopped_at name detail) h k n =
    put-skips h name (times 0) detail (duplicate-stop h name detail k ∙ n)
Known-skips times (passed name detail rest) h k n =
    rw (put-skips h name (times 0) detail (duplicate-quiet h name detail k.0 ∙ n.0))
      (Known-skips (λ i. times (suc i)) rest h k.2 n.1)

-- Recording a second time, at any later time, what a walk has just said adds nothing.
pub record_said-again :
    (times times' : ℕ → ℕ) (w : Said) (h : List HistoryEntry)
    → WellSaid w
    → record_said times' w (record_said times w h) ≡ record_said times w h
record_said-again times times' w h k =
    Known-skips times' w (record_said times w h) k (record_said-Known times w h k)
