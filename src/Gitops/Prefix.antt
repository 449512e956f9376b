-- ===== src/Gitops/Prefix.antt =====
-- pkg/gitops/plan.go: which image repositories a configured prefix covers.
pub mod Boundary
use hoist.Prelude.{
  Bool, true, false, not, ◌&&◌, ◌||◌, List, [], ◌∷◌, Text, is_empty, has_prefix, length, drop, ◌==◌,
  if◌then◌else◌,
}

-- strings.HasSuffix(prefix, "/").
unfoldable pub ends_in_slash : Text → Bool
ends_in_slash [] = false
ends_in_slash (c ∷ []) = c == b'/'
ends_in_slash (c ∷ d ∷ s) = ends_in_slash (d ∷ s)

abbrev pub at_boundary : Text → Bool
at_boundary [] = true
at_boundary (c ∷ s) = c == b'/'

-- MatchesPrefix.
unfoldable pub matches_prefix : Text → Text → Bool
matches_prefix repo prefix =
    if is_empty prefix || not (has_prefix repo prefix)
    then false
    else if ends_in_slash prefix
    then true
    else at_boundary (drop (length prefix) repo)

-- IsPromotable.
unfoldable pub is_promotable : Text → List Text → Bool
is_promotable repo [] = false
is_promotable repo (p ∷ ps) = if matches_prefix repo p then true else is_promotable repo ps
