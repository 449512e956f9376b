-- ===== src/Examples/Histories.antt =====
-- A history with a repeat in it.
use hoist.Prelude.{find_last, ℕ, ◌≡◌, ◌≤◌, ◌⊎◌, refl, [], ◌∷◌, codes, All}
use mathlib.Core.List.{Memᴰ}
use hoist.Engine.StepName
use hoist.Engine.State.{HistoryEntry, PromotionState}
use hoist.Engine.History.{
  is_stopping_detail, compact_from, compact_history, history_duplicate, put_entry, last_activity,
}
use hoist.Engine.History.Compact.{IsCompact, put_entry-IsCompact, last_activity-newest}
use hoist.Engine.History.Terse.{Terse, compact_history-Terse}
use hoist.Examples.Fixtures.{promotion}

abbrev waited : ℕ → HistoryEntry
waited at = record { step = StepName.approved; at = at; detail = codes "waiting: nobody" }

compact_history-Terse_example :
    Terse (waited 3 ∷ waited 4 ∷ []) (compact_history (waited 3 ∷ waited 4 ∷ []))
    × (compact_history (compact_history (waited 3 ∷ waited 4 ∷ []))
        ≡ compact_history (waited 3 ∷ waited 4 ∷ []))
compact_history-Terse_example = compact_history-Terse (waited 3 ∷ waited 4 ∷ [])

put_entry-IsCompact_example :
    IsCompact (put_entry StepName.approved 9 (codes "waiting: nobody") (waited 3 ∷ []))
unfolding compact_from history_duplicate is_stopping_detail find_last
put_entry-IsCompact_example =
    put_entry-IsCompact (waited 3 ∷ []) StepName.approved 9 (codes "waiting: nobody") refl

abbrev waiting_promotion : PromotionState
waiting_promotion = record promotion { history = waited 8 ∷ waited 3 ∷ [] }

last_activity-newest_example :
    (1 ≤ last_activity waiting_promotion)
    × All (λ e. e.at ≤ last_activity waiting_promotion) (waited 8 ∷ waited 3 ∷ [])
    × ((last_activity waiting_promotion ≡ 1)
        ⊎ ((e : HistoryEntry) × Memᴰ e (waited 8 ∷ waited 3 ∷ [])
            × (last_activity waiting_promotion ≡ e.at)))
last_activity-newest_example = last_activity-newest waiting_promotion
