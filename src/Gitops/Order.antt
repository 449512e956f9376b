-- ===== src/Gitops/Order.antt =====
-- pkg/gitops/plan.go: the order of occurrences and of references.
use hoist.Prelude.{Bool, not, List, [], ◌∷◌, ◌++◌, Text, text_eq, text_lt, ltb, ◌==◌, if◌then◌else◌}
use hoist.Image.Ref.{Ref, to_text}
use hoist.Gitops.Types.{Occurrence, Family, Env}

-- sort.SliceStable and sort.Slice, by an order: a later item goes before an earlier one only if it
-- is less.
unfoldable pub insert_by : {A : Type 0} → (A → A → Bool) → A → List A → List A
insert_by less a [] = a ∷ []
insert_by less a (b ∷ bs) =
    let rest = insert_by less a bs in if less b a then b ∷ rest else a ∷ b ∷ bs

unfoldable pub sort_by : {A : Type 0} → (A → A → Bool) → List A → List A
sort_by less [] = []
sort_by less (a ∷ rest) = insert_by less a (sort_by less rest)

unfoldable pub occurrence_less : Occurrence → Occurrence → Bool
occurrence_less a b =
    if not (text_eq a.file b.file)
    then text_lt a.file b.file
    else if not (a.line == b.line)
    then ltb a.line b.line
    else ltb a.col b.col

-- sortOccurrences.
unfoldable pub sort_occurrences : {A : Type 0} → (A → Occurrence) → List A → List A
sort_occurrences key items = sort_by (λ a b. occurrence_less (key a) (key b)) items

unfoldable pub sort_refs : List Ref → List Ref
sort_refs refs = sort_by (λ a b. text_lt (to_text a) (to_text b)) refs

unfoldable pub all_occurrences : List (Text × Family) → List Occurrence
all_occurrences [] = []
all_occurrences ((n, f) ∷ fs) = f.occurrences ++ all_occurrences fs

-- envOccurrences.
unfoldable pub env_occurrences : Env → List Occurrence
env_occurrences env = sort_occurrences (λ o. o) (all_occurrences env.families)
