-- ===== src/Image/Parse.antt =====
-- pkg/image/image.go: Parse.
pub mod Cuts
pub mod Shape
pub mod RoundTrip
use hoist.Prelude.{
  ℕ, Bool, true, false, not, ◌||◌, List, [], ◌∷◌, ◌++◌, Option, none, some, Text, codes, is_empty,
  has_prefix, ltb, ◌==◌, length, drop, quoted, if◌then◌else◌,
}
use hoist.Image.Ref.{Ref}
use hoist.Image.Validate.{digest_matches, tag_matches, repo_matches}

abbrev pub pullable_prefix : Text
pullable_prefix = codes "docker-pullable://"

-- strings.TrimPrefix.
unfoldable pub trim_prefix : Text → Text → Text
trim_prefix s p = if has_prefix s p then drop (length p) s else s

-- strings.ContainsAny(s, " \t\r\n").
abbrev pub is_blank : ℕ → Bool
is_blank c = (c == 32) || ((c == 9) || ((c == 13) || (c == 10)))

unfoldable pub has_blank : Text → Bool
has_blank [] = false
has_blank (c ∷ s) = is_blank c || has_blank s

-- s[:i] and s[i+1:] for i = strings.IndexByte(s, c).
unfoldable pub cut_first : ℕ → Text → Option (Text × Text)
cut_first c [] = none
cut_first c (x ∷ s) = elim (x == c) [
  | true ↦ some ([], s)
  | false ↦ elim (cut_first c s) [ none ↦ none | some (a, b) ↦ some (x ∷ a, b) ]
]

-- The same for i = strings.LastIndexByte(s, c).
unfoldable pub cut_last : ℕ → Text → Option (Text × Text)
cut_last c [] = none
cut_last c (x ∷ s) = elim (cut_last c s) [
  | some (a, b) ↦ some (x ∷ a, b)
  | none ↦ if x == c then some ([], s) else none
]

-- colon > slash, where an index that is not there is -1.
unfoldable pub tag_cut : Option (Text × Text) → Option (Text × Text) → Option (Text × Text)
tag_cut none slash = none
tag_cut (some (a, b)) none = some (a, b)
tag_cut (some (a, b)) (some (d, f)) = if ltb (length d) (length a) then some (a, b) else none

pub data Parsed : Type 0 where
  parsed : Ref → Parsed
  malformed : Text → Parsed

unfoldable pub parse_repo : Text → Text → Text → Text → Parsed
parse_repo orig tag digest s =
    if not (repo_matches s)
    then malformed (codes "image " ++ (quoted orig ++ (codes ": invalid repo " ++ quoted s)))
    else parsed (record { repo = s; tag = tag; digest = digest })

unfoldable pub parse_tag : Text → Text → Text → Option (Text × Text) → Parsed
parse_tag orig digest s none = parse_repo orig [] digest s
parse_tag orig digest s (some (rest, tag)) =
    if not (tag_matches tag)
    then malformed (codes "image " ++ (quoted orig ++ (codes ": invalid tag " ++ quoted tag)))
    else parse_repo orig tag digest rest

unfoldable pub parse_digest : Text → Text → Option (Text × Text) → Parsed
parse_digest orig s none = parse_tag orig [] s (tag_cut (cut_last b':' s) (cut_last b'/' s))
parse_digest orig s (some (rest, digest)) =
    if not (digest_matches digest)
    then malformed (
        codes "image "
        ++ (quoted orig
            ++ (codes ": "
                ++ (quoted digest
                    ++ codes
                        " is not a digest (want sha256: followed by 64 lowercase hex characters)"))))
    else parse_tag orig digest rest (tag_cut (cut_last b':' rest) (cut_last b'/' rest))

-- Parse after the prefix is trimmed.
unfoldable pub parse_trimmed : Text → Text → Parsed
parse_trimmed orig s =
    if is_empty s
    then malformed (codes "image: empty reference")
    else if has_blank s
    then malformed (codes "image " ++ (quoted orig ++ codes ": contains whitespace"))
    else parse_digest orig s (cut_first b'@' s)

unfoldable pub parse : Text → Parsed
parse s = parse_trimmed s (trim_prefix s pullable_prefix)
