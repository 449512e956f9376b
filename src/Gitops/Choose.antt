-- ===== src/Gitops/Choose.antt =====
-- pkg/gitops/plan.go: ChooseRef, the reference of a repository that a promotion moves.
pub mod Carried
use hoist.Prelude.{
  ℕ, ◌+◌, Bool, true, false, List, [], ◌∷◌, ◌++◌, Option, none, some, Text, codes, text_eq, ltb,
  decimal, length, if◌then◌else◌,
}
use hoist.Image.Ref.{Ref, to_text, pinned}
use hoist.Gitops.Types.{Occurrence}

-- One distinct reference, by its text: the first that was met, and how often.
pub record Tally : Type 0 where
  pub key : Text
  pub ref : Ref
  pub count : ℕ

-- The maps counts and refs with the slice order, as one list in that order.
unfoldable pub count_ref : Ref → List Tally → List Tally
count_ref r [] = record { key = to_text r; ref = r; count = 1 } ∷ []
count_ref r (t ∷ ts) = elim (text_eq t.key (to_text r)) [
  | true ↦ record t { count = t.count + 1 } ∷ ts
  | false ↦ t ∷ count_ref r ts
]

unfoldable pub tally : List Tally → List Occurrence → List Tally
tally ts [] = ts
tally ts (o ∷ os) = tally (count_ref o.ref ts) os

unfoldable pub pinned_tallies : List Tally → List Tally
pinned_tallies [] = []
pinned_tallies (t ∷ ts) = let rest = pinned_tallies ts in if pinned t.ref then t ∷ rest else rest

-- The loop over order[1:].
unfoldable pub most_frequent : Tally → List Tally → Tally
most_frequent best [] = best
most_frequent best (t ∷ ts) = elim (ltb best.count t.count) [
  | true ↦ most_frequent t ts
  | false ↦ most_frequent best ts
]

pub record Choice : Type 0 where
  pub chosen : Ref
  pub reason : Text
  pub disagree : Bool

unfoldable pub by_frequency : ℕ → Tally → Choice
by_frequency n best =
    if ltb 1 best.count
    then record {
      chosen = best.ref;
      reason =
          codes "the most frequent ref ("
          ++ (decimal best.count ++ (codes " of " ++ (decimal n ++ codes ")")));
      disagree = true;
    }
    else record { chosen = best.ref; reason = codes "first in path order"; disagree = true }

unfoldable pub by_pin : ℕ → Tally → List Tally → List Tally → Choice
by_pin n t ts (p ∷ []) = record {
  chosen = p.ref;
  reason = codes "the only pinned ref";
  disagree = true;
}
by_pin n t ts [] = by_frequency n (most_frequent t ts)
by_pin n t ts (p ∷ q ∷ ps) = by_frequency n (most_frequent t ts)

unfoldable pub choose_tally : ℕ → List Tally → Option Choice
choose_tally n [] = none
choose_tally n (t ∷ []) =
    some (record { chosen = t.ref; reason = codes "all occurrences agree"; disagree = false })
choose_tally n (t ∷ u ∷ ts) = some (by_pin n t (u ∷ ts) (pinned_tallies (t ∷ u ∷ ts)))

-- ChooseRef; none where order[0] is out of range.
unfoldable pub choose_ref : List Occurrence → Option Choice
choose_ref occ = choose_tally (length occ) (tally [] occ)
