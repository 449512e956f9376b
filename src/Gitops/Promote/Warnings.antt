-- ===== src/Gitops/Promote/Warnings.antt =====
-- pkg/gitops/plan.go: the warnings of a promotion plan, and the stamps of timestamp tags.
use hoist.Prelude.{
  ℕ, Bool, true, false, not, ◌&&◌, ◌||◌, List, [], ◌∷◌, Option, none, some, Text, codes, text_eq,
  text_lt, is_empty, concat, decimal, length, take, drop, ltb, ◌==◌, if◌then◌else◌,
}
use hoist.Image.Ref.{Ref, to_text}
use hoist.Image.Validate.{is_digit, every}
use hoist.Gitops.Types.{Occurrence, Warning}

abbrev begins_with : ℕ → Text → Bool
begins_with q [] = false
begins_with q (c ∷ s) = c == q

-- The test on tag[13].
abbrev ends_or_dash : Text → Bool
ends_or_dash [] = true
ends_or_dash (c ∷ s) = c == b'-'

-- timestampTag: v and twelve digits, then nothing or a dash.
unfoldable pub timestamp_tag : Text → Option Text
unfolding every
timestamp_tag tag =
    if ltb (length tag) 13 || (not (begins_with b'v' tag) || not (ends_or_dash (drop 13 tag)))
    then none
    else if every (λ c. is_digit c) (take 12 (drop 1 tag))
    then some (take 12 (drop 1 tag))
    else none

-- The stamp of a tag is later.
abbrev is_later : Text → Option Text → Bool
is_later stamp none = false
is_later stamp (some other) = text_lt stamp other

unfoldable pub newer_than : Text → Ref → List Occurrence → List Occurrence
unfolding timestamp_tag
newer_than stamp chosen [] = []
newer_than stamp chosen (t ∷ ts) =
    let rest = newer_than stamp chosen ts in
    if not (is_empty chosen.digest) && text_eq t.ref.digest chosen.digest
    then rest
    else if is_later stamp (timestamp_tag t.ref.tag)
    then t ∷ rest
    else rest

-- listOccurrences.
unfoldable pub list_occurrences : List Occurrence → Text
list_occurrences [] = []
list_occurrences (o ∷ os) = concat (
    (10 ∷ [])
    ∷ codes "  "
    ∷ o.file
    ∷ codes ":"
    ∷ decimal o.line
    ∷ codes " "
    ∷ o.kind
    ∷ codes "/"
    ∷ o.name
    ∷ codes " container="
    ∷ o.container
    ∷ codes " "
    ∷ to_text o.ref
    ∷ list_occurrences os
    ∷ [])

newer_warning : Text → Text → Ref → List Occurrence → List Warning
unfolding list_occurrences
newer_warning src dst chosen [] = []
newer_warning src dst chosen (t ∷ ts) =
    record {
      code = codes "target-newer";
      message = concat (
          dst
          ∷ codes " already declares a newer build of "
          ∷ chosen.repo
          ∷ codes " than "
          ∷ src
          ∷ codes " would write ("
          ∷ t.ref.tag
          ∷ codes " here, "
          ∷ chosen.tag
          ∷ codes " in "
          ∷ src
          ∷ codes "): this promotion would roll it back:"
          ∷ list_occurrences (t ∷ ts)
          ∷ []);
      occurrences = t ∷ ts;
    }
    ∷ []

-- targetNewerWarning: one warning or none.
unfoldable pub target_newer_warning : Text → Text → Ref → List Occurrence → List Warning
unfolding timestamp_tag newer_than newer_warning
target_newer_warning src dst chosen targets = elim (timestamp_tag chosen.tag) [
  | none ↦ []
  | some stamp ↦ newer_warning src dst chosen (newer_than stamp chosen targets)
]

-- disagreeMessage, in its warning.
unfoldable pub disagree_warning : Text → Text → List Occurrence → Ref → Text → Warning
unfolding list_occurrences
disagree_warning env repo occ chosen reason = record {
  code = codes "source-disagrees";
  message = concat (
      env
      ∷ codes ": "
      ∷ decimal (length occ)
      ∷ codes " occurrences of "
      ∷ repo
      ∷ codes " carry different refs; planning "
      ∷ to_text chosen
      ∷ codes " ("
      ∷ reason
      ∷ codes "):"
      ∷ list_occurrences occ
      ∷ []);
  occurrences = occ;
}

-- sourceOnlyMessage, in its warning.
unfoldable pub source_only_warning : Text → Text → Text → List Occurrence → Ref → Text → Warning
unfolding list_occurrences
source_only_warning src dst repo occ chosen why = record {
  code = codes "source-only-unwritable";
  message = concat (
      repo
      ∷ codes " runs in "
      ∷ src
      ∷ codes " as "
      ∷ to_text chosen
      ∷ codes ", "
      ∷ why
      ∷ codes "; it has no occurrence in "
      ∷ dst
      ∷ codes ", so nothing would be written and the plan goes on without it:"
      ∷ list_occurrences occ
      ∷ []);
  occurrences = occ;
}

-- The warning that nothing is there to move.
unfoldable pub missing_warning :
    Text → Text → Text → List Occurrence → List Occurrence → List Warning
missing_warning src dst repo occ (t ∷ ts) = []
missing_warning src dst repo occ [] =
    record {
      code = codes "missing-in-target";
      message = concat (
          repo
          ∷ codes " runs in "
          ∷ src
          ∷ codes " but has no occurrence in "
          ∷ dst
          ∷ codes "; nothing to move"
          ∷ []);
      occurrences = occ;
    }
    ∷ []
