-- ===== src/Engine/History.antt =====
-- internal/engine/engine.go and state.go: CompactHistory, LastActivity, and appendHistory and its rules for what is a repeat. What is compared and
-- written is the detail with the registered secrets taken out.
pub mod Repeats
pub mod Compact
pub mod Terse
use hoist.Prelude.{
  ℕ, Bool, true, false, not, ◌&&◌, ◌||◌, List, [], ◌∷◌, ◌++◌, Option, none, some, Text, codes,
  text_eq, has_prefix, find_last, ltb, if◌then◌else◌,
}
use hoist.Redact.{strings}
use hoist.Engine.StepName.{StepName}
use hoist.Engine.State.{HistoryEntry, PromotionState, Env, Runtime}

abbrev pub acted : Text
acted = codes "acted"

unfoldable pub is_stopping_detail : Text → Bool
is_stopping_detail detail =
    has_prefix detail (codes "waiting: ")
    || (has_prefix detail (codes "blocked: ") || has_prefix detail (codes "act failed: "))

abbrev pub not_acted : HistoryEntry → Bool
not_acted e = not (text_eq e.detail acted)

abbrev pub of_step : StepName → HistoryEntry → Bool
of_step name e = text_eq e.step name

abbrev same_entry : StepName → Text → Option HistoryEntry → Bool
same_entry name detail none = false
same_entry name detail (some e) = text_eq e.step name && text_eq e.detail detail

abbrev same_detail : Text → Option HistoryEntry → Bool
same_detail detail none = false
same_detail detail (some e) = text_eq e.detail detail

unfoldable pub history_duplicate : List HistoryEntry → StepName → Text → Bool
history_duplicate h name detail =
    if text_eq detail acted
    then false
    else if is_stopping_detail detail
    then same_entry name detail (find_last not_acted h)
    else same_detail detail (find_last (of_step name) h)

-- Appends the entry unless it is a repeat.
unfoldable pub put_entry : StepName → ℕ → Text → List HistoryEntry → List HistoryEntry
unfolding history_duplicate
put_entry name at detail h =
    if history_duplicate h name detail
    then h
    else h ++ record { step = name; at = at; detail = detail } ∷ []

-- CompactHistory's loop, with what is kept so far.
unfoldable pub compact_from : List HistoryEntry → List HistoryEntry → List HistoryEntry
compact_from out [] = out
compact_from out (e ∷ es) = elim (history_duplicate out e.step e.detail) [
  | true ↦ compact_from out es
  | false ↦ compact_from (out ++ e ∷ []) es
]

abbrev pub unless_empty : List HistoryEntry → List HistoryEntry → List HistoryEntry
unless_empty [] h = h
unless_empty (e ∷ out) h = e ∷ out

unfoldable pub compact_history : List HistoryEntry → List HistoryEntry
compact_history h = unless_empty (compact_from [] h) h

unfoldable pub latest : ℕ → List HistoryEntry → ℕ
latest t [] = t
latest t (e ∷ es) = elim (ltb t e.at) [ true ↦ latest e.at es | false ↦ latest t es ]

-- LastActivity.
unfoldable pub last_activity : PromotionState → ℕ
last_activity s = latest s.generated_at s.history

module _ {W : Type 0} (rt : Runtime W) where
  unfoldable pub append_history : StepName → Text → Env W → Env W
  append_history name detail env = record env {
    state = record (env.state) {
      history =
          put_entry name (rt.now env.world) (strings (rt.registered env.world) detail [])
            env.state.history;
    };
  }
