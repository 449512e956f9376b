-- ===== src/Image/Validate.antt =====
-- pkg/image/image.go: what a well-formed reference is. The three regular expressions are scanners.
use hoist.Prelude.{
  ℕ, Bool, true, false, not, ◌&&◌, ◌||◌, [], ◌∷◌, ◌++◌, Option, none, some, Text, codes, is_empty,
  has_prefix, leb, ◌==◌, length, drop, quoted, if◌then◌else◌,
}
use hoist.Image.Ref.{Ref, to_text}

abbrev pub is_upper : ℕ → Bool
is_upper c = leb b'A' c && leb c b'Z'

abbrev pub is_lower : ℕ → Bool
is_lower c = leb b'a' c && leb c b'z'

abbrev pub is_digit : ℕ → Bool
is_digit c = leb b'0' c && leb c b'9'

abbrev pub is_hex : ℕ → Bool
is_hex c = is_digit c || (leb b'a' c && leb c b'f')

-- [._-]
abbrev pub is_mark : ℕ → Bool
is_mark c = (c == b'.') || ((c == b'_') || (c == b'-'))

unfoldable pub every : (ℕ → Bool) → Text → Bool
every p [] = true
every p (c ∷ s) = p c && every p s

-- digestRE: sha256: and exactly 64 lowercase hex characters.
unfoldable pub digest_matches : Text → Bool
unfolding every
digest_matches s =
    has_prefix s (codes "sha256:")
    && ((length (drop 7 s) == 64) && every (λ c. is_hex c) (drop 7 s))

-- tagRE: a letter, a digit or _, then at most 127 of those, dots and dashes.
unfoldable pub tag_matches : Text → Bool
unfolding every
tag_matches [] = false
tag_matches (c ∷ s) =
    (is_upper c || (is_lower c || (is_digit c || (c == b'_'))))
    && (leb (length s) 127
        && every (λ c. is_upper c || (is_lower c || (is_digit c || is_mark c))) s)

-- repoRE, by the part of the expression the scan is in.
pub data RepoState : Type 0 where
  at_host : RepoState
  in_host : RepoState
  at_port : RepoState
  in_port : RepoState
  at_path : RepoState
  in_path : RepoState

unfoldable pub repo_step : RepoState → ℕ → Option RepoState
repo_step at_host c = if is_upper c || (is_lower c || is_digit c) then some in_host else none
repo_step in_host c =
    if is_upper c || (is_lower c || (is_digit c || is_mark c))
    then some in_host
    else if c == b':'
    then some at_port
    else if c == b'/'
    then some at_path
    else none
repo_step at_port c = if is_digit c then some in_port else none
repo_step in_port c = if is_digit c then some in_port else if c == b'/' then some at_path else none
repo_step at_path c = if is_lower c || is_digit c then some in_path else none
repo_step in_path c =
    if is_lower c || (is_digit c || is_mark c)
    then some in_path
    else if c == b'/'
    then some at_path
    else none

abbrev repo_ends : RepoState → Bool
repo_ends at_host = false
repo_ends in_host = true
repo_ends at_port = false
repo_ends in_port = true
repo_ends at_path = false
repo_ends in_path = true

unfoldable pub repo_scan : RepoState → Text → Bool
unfolding repo_step
repo_scan q [] = repo_ends q
repo_scan q (c ∷ s) = elim (repo_step q c) [ some q' ↦ repo_scan q' s | none ↦ false ]

unfoldable pub repo_matches : Text → Bool
unfolding repo_scan
repo_matches s = repo_scan at_host s

-- Validate: the error, if there is one.
unfoldable pub validate : Ref → Option Text
validate r =
    if is_empty r.repo
    then some (codes "image: empty repo")
    else if not (repo_matches r.repo)
    then some (codes "image " ++ (to_text r ++ (codes ": invalid repo " ++ quoted r.repo)))
    else if not (is_empty r.tag) && not (tag_matches r.tag)
    then some (codes "image " ++ (to_text r ++ (codes ": invalid tag " ++ quoted r.tag)))
    else if not (is_empty r.digest) && not (digest_matches r.digest)
    then some (
        codes "image "
        ++ (to_text r
            ++ (codes ": "
                ++ (quoted r.digest
                    ++ codes
                        " is not a digest (want sha256: followed by 64 lowercase hex characters)"))))
    else none
