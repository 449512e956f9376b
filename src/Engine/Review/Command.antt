-- ===== src/Engine/Review/Command.antt =====
-- internal/engine/steps_review.go: the operator's commands in a comment, approveRe, rejectRe and
-- matchesCommand. The expressions are matched byte by byte, for text of ASCII; an id has no white space in it.
use hoist.Prelude.{
  ◌≡◌, refl, Bool, true, false, ◌||◌, List, [], ◌∷◌, Option, none, some, Text, codes, ◌==◌,
  is_space, lower, split, if◌then◌else◌,
}

-- \s*
skip_spaces : Text → Text
skip_spaces [] = []
skip_spaces (c ∷ s) = elim (is_space c) [ true ↦ skip_spaces s | false ↦ c ∷ s ]

-- \s+
some_spaces : Text → Option Text
unfolding skip_spaces
some_spaces [] = none
some_spaces (c ∷ s) = if is_space c then some (skip_spaces s) else none

-- A literal, in either case.
word : Text → Text → Option Text
word [] s = some s
word (w ∷ ws) [] = none
word (w ∷ ws) (c ∷ s) = elim (lower w == lower c) [ true ↦ word ws s | false ↦ none ]

-- /?
optional_slash : Text → Text
optional_slash [] = []
optional_slash (c ∷ s) = if c == b'/' then s else c ∷ s

abbrev and_then : Option Text → (Text → Option Text) → Option Text
and_then none f = none
and_then (some s) f = f s

-- \s*$
abbrev only_spaces_left : Option Text → Bool
only_spaces_left none = false
only_spaces_left (some []) = true
only_spaces_left (some (c ∷ s)) = false

-- (?i)^\s*/?hoist\s+<verb>\s+<id>\s*$
unfoldable pub line_matches : Text → Text → Text → Bool
unfolding skip_spaces some_spaces word optional_slash
line_matches verb id line = only_spaces_left (
    and_then (word (codes "hoist") (optional_slash (skip_spaces line))) λ s.
      and_then (some_spaces s) λ s.
        and_then (word verb s)
          λ s. and_then (some_spaces s) λ s. and_then (word id s) λ s. some (skip_spaces s))

-- strings.TrimRight(line, "\r")
trim_returns : Text → Text
trim_returns [] = []
trim_returns (c ∷ s) = elim (trim_returns s) [
  | [] ↦ if c == 13 then [] else c ∷ []
  | d ∷ t ↦ c ∷ d ∷ t
]

any_line : Text → Text → List Text → Bool
unfolding line_matches trim_returns
any_line verb id [] = false
any_line verb id (line ∷ lines) = line_matches verb id (trim_returns line) || any_line verb id lines

unfoldable pub matches_command : Text → Text → Text → Bool
unfolding any_line
matches_command verb id body = any_line verb id (split 10 body)

unfoldable pub approves : Text → Text → Bool
unfolding matches_command
approves id body = matches_command (codes "approve") id body

unfoldable pub rejects : Text → Text → Bool
unfolding matches_command
rejects id body = matches_command (codes "reject") id body

line_matches_test : approves (codes "5pr6") (codes "thanks!\n /Hoist  approve 5PR6 \r\nbye") ≡ true
unfolding approves split
line_matches_test = refl

line_typo_test : rejects (codes "5pr6") (codes "hoist rejct 5pr6") ≡ false
unfolding rejects split
line_typo_test = refl
