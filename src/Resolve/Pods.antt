-- ===== src/Resolve/Pods.antt =====
-- pkg/resolve/resolve.go: choosePods, the digest that stands for the running containers.
pub mod Running
use hoist.Prelude.{
  ℕ, zero, suc, ◌+◌, Bool, true, false, not, ◌||◌, List, [], ◌∷◌, ◌++◌, Option, none, some, Text,
  codes, text_eq, concat, decimal, sort_texts, length, ltb, ◌==◌, if◌then◌else◌,
}
use hoist.Redact.{Registry, strings}
use hoist.Image.Ref.{Ref}
use hoist.Gitops.Types.{Occurrence, Warning}
use hoist.Gitops.Deploy.{is_seen}
use hoist.Resolve.{RunningImage}

-- counts[digest].
unfoldable pub count_digest : Text → List RunningImage → ℕ
count_digest d [] = 0
count_digest d (x ∷ xs) =
    let rest = count_digest d xs in if text_eq x.ref.digest d then rest + 1 else rest

-- The keys of counts, in the order in which they are met.
unfoldable pub distinct_digests : List Text → List RunningImage → List Text
distinct_digests seen [] = []
distinct_digests seen (x ∷ xs) = elim (is_seen x.ref.digest seen) [
  | true ↦ distinct_digests seen xs
  | false ↦ x.ref.digest ∷ distinct_digests (x.ref.digest ∷ seen) xs
]

unfoldable pub most_common : List RunningImage → Text → List Text → Text
most_common running best [] = best
most_common running best (d ∷ ds) =
    elim (ltb (count_digest best running) (count_digest d running)) [
      | true ↦ most_common running d ds
      | false ↦ most_common running best ds
    ]

unfoldable pub tied_at_top : ℕ → List RunningImage → List Text → ℕ
tied_at_top top running [] = 0
tied_at_top top running (d ∷ ds) =
    let rest = tied_at_top top running ds in
    if count_digest d running == top then rest + 1 else rest

unfoldable pub other_digests : Text → List Text → List Text
other_digests digest [] = []
other_digests digest (d ∷ ds) = elim (text_eq d digest) [
  | true ↦ other_digests digest ds
  | false ↦ d ∷ other_digests digest ds
]

-- containers.
unfoldable pub containers : ℕ → Text
containers n =
    if n == 1 then codes "1 running container" else decimal n ++ codes " running containers"

pub record Pick : Type 0 where
  pub digest : Text
  pub detail : Text
  pub alternatives : List Text
  pub warnings : List Warning

abbrev init_mark : Bool → Text
init_mark true = codes " (init)"
init_mark false = []

unfoldable pub list_running : List RunningImage → Text
list_running [] = []
list_running (x ∷ xs) = concat (
    (10 ∷ [])
    ∷ codes "  pod "
    ∷ x.pod
    ∷ codes " container "
    ∷ x.container
    ∷ init_mark x.init
    ∷ codes " "
    ∷ x.ref.digest
    ∷ list_running xs
    ∷ [])

module _ (registered : Registry) (namespace repo : Text) (occ : List Occurrence)
    (running : List RunningImage) (manifest : Text) where
  common_reason : Text → List Text → Text
  unfolding tied_at_top count_digest
  common_reason digest ds =
      if ltb 1 (tied_at_top (count_digest digest running) running ds)
      then codes "lexically smallest digest among equals"
      else concat (
          codes "most frequent, "
          ∷ decimal (count_digest digest running)
          ∷ codes " of "
          ∷ decimal (length running)
          ∷ [])

  unfoldable pub disagreeing_pick : List Text → Text → Text → Pick
  unfolding list_running containers strings other_digests
  disagreeing_pick ds digest reason = record {
    digest = digest;
    detail = concat (
        containers (length running)
        ∷ codes " run "
        ∷ decimal (length ds)
        ∷ codes " digests; chose "
        ∷ reason
        ∷ []);
    alternatives = other_digests digest ds;
    warnings =
        record {
          code = codes "running-disagrees";
          message =
              strings registered
                (concat (
                  namespace
                  ∷ codes ": "
                  ∷ containers (length running)
                  ∷ codes " of "
                  ∷ repo
                  ∷ codes " run "
                  ∷ decimal (length ds)
                  ∷ codes " different digests; using "
                  ∷ digest
                  ∷ codes " ("
                  ∷ reason
                  ∷ codes "):"
                  ∷ list_running running
                  ∷ []))
                [];
          occurrences = occ;
        }
        ∷ [];
  }

  -- The digests in order. With none, digests[0] is out of range.
  unfoldable pub pick_among : List Text → Option Pick
  unfolding disagreeing_pick common_reason most_common containers
  pick_among [] = none
  pick_among (d ∷ []) = some (record {
    digest = d;
    detail = containers (length running) ++ codes " agree";
    alternatives = [];
    warnings = [];
  })
  pick_among (d ∷ e ∷ ds) = some (elim (is_seen manifest (d ∷ e ∷ ds)) [
    | true ↦ disagreeing_pick (d ∷ e ∷ ds) manifest (codes "matches manifest pin")
    | false ↦
        disagreeing_pick (d ∷ e ∷ ds) (most_common running d (e ∷ ds))
          (common_reason (most_common running d (e ∷ ds)) (d ∷ e ∷ ds))
  ])

  -- choosePods.
  unfoldable pub choose_pods : Option Pick
  unfolding pick_among distinct_digests
  choose_pods = pick_among (sort_texts (distinct_digests [] running))
