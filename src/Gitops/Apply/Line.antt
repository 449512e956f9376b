-- ===== src/Gitops/Apply/Line.antt =====
-- pkg/gitops/apply.go: one edit on one line.
pub mod Exact
use hoist.Prelude.{
  ℕ, zero, suc, ◌+◌, ◌-◌, Bool, true, false, not, ◌&&◌, ◌||◌, List, [], ◌∷◌, ◌++◌, Option, none,
  some, Text, codes, text_eq, is_empty, has_prefix, ltb, leb, ◌==◌, length, take, drop, get_last?,
  split, quoted, concat, decimal, if◌then◌else◌,
}
use hoist.Image.Ref.{to_text}
use hoist.Image.Validate.{is_upper, is_lower, is_digit, every}
use hoist.Gitops.Types.{Occurrence, Edit}
use hoist.Gitops.Editable.{Styles, place, check_editable}

-- A value, or the error's text.
pub data Edited (A : Type 0) : Type 0 where
  edited : A → Edited A
  refused : Text → Edited A

-- `if !test { return error }`.
unfoldable pub require : {A : Type 0} → Bool → Text → Edited A → Edited A
require true why r = r
require false why r = refused why

-- The width of the first rune: utf8.DecodeRune, where a byte that starts no rune counts as one.
is_within : ℕ → ℕ → Text → Bool
is_within low high [] = false
is_within low high (c ∷ s) = leb low c && leb c high

-- Two and three more bytes that continue a rune.
continues : ℕ → Text → Bool
unfolding is_within
continues zero s = true
continues (suc n) [] = false
continues (suc n) (c ∷ s) = (leb 128 c && leb c 191) && continues n s

wide : ℕ → ℕ → ℕ → Text → ℕ
unfolding is_within continues
wide size low high s = if is_within low high s && continues (size - 2) (drop 1 s) then size else 1

unfoldable pub rune_size : Text → ℕ
unfolding wide
rune_size [] = 0
rune_size (c ∷ s) =
    if leb 194 c && leb c 223
    then wide 2 128 191 s
    else if c == 224
    then wide 3 160 191 s
    else if c == 237
    then wide 3 128 159 s
    else if leb 225 c && leb c 239
    then wide 3 128 191 s
    else if c == 240
    then wide 4 144 191 s
    else if leb 241 c && leb c 243
    then wide 4 128 191 s
    else if c == 244
    then wide 4 128 143 s
    else 1

offset_from : ℕ → Text → ℕ → Option ℕ
offset_from zero s off = some off
offset_from (suc n) [] off = none
offset_from (suc n) (c ∷ s) off =
    offset_from n (drop (rune_size (c ∷ s)) (c ∷ s)) (off + rune_size (c ∷ s))

-- byteOffset.
unfoldable pub byte_offset : Text → ℕ → Option ℕ
unfolding offset_from
byte_offset line col = offset_from (col - 1) line 0

abbrev is_tab_or_space : ℕ → Bool
is_tab_or_space c = (c == 32) || (c == 9)

-- trimBlanks.
unfoldable pub trim_blanks : Text → Text
trim_blanks [] = []
trim_blanks (c ∷ s) =
    let rest = trim_blanks s in if is_empty rest && is_tab_or_space c then [] else c ∷ rest

-- The text before a suffix, if it has it.
unfoldable pub cut_suffix : Text → Text → Option Text
cut_suffix suffix [] = if is_empty suffix then some [] else none
cut_suffix suffix (c ∷ s) =
    let rest = cut_suffix suffix s in
    if text_eq (c ∷ s) suffix then some [] else elim rest [ none ↦ none | some r ↦ some (c ∷ r) ]

ends_in : ℕ → Text → Bool
ends_in c s = elim (get_last? s) [ none ↦ false | some d ↦ d == c ]

abbrev but_last : Text → Text
but_last s = take (length s - 1) s

-- What stands before the key: only indentation, flow punctuation, or an item's dash.
before_key : Text → Text → Bool
unfolding trim_blanks ends_in
before_key rest p =
    if is_empty p
    then true
    else if ends_in b',' p || (ends_in b'{' p || ends_in b'[' p)
    then true
    else if ends_in b'-' p
    then ltb (length p) (length rest) && is_empty (trim_blanks (but_last p))
    else false

-- keyBefore.
unfoldable pub key_before : Text → Text → Bool
unfolding trim_blanks cut_suffix ends_in before_key
key_before prefix key =
    let p = trim_blanks prefix in
    if (length p == length prefix) || not (ends_in b':' p)
    then false
    else elim (cut_suffix key (trim_blanks (but_last p))) [
      | none ↦ false
      | some rest ↦ before_key rest (trim_blanks rest)
    ]

last_part : List Text → Text
last_part [] = []
last_part (t ∷ []) = t
last_part (t ∷ u ∷ ts) = last_part (u ∷ ts)

-- The last element of a path.
unfoldable pub path_key : Text → Text
unfolding last_part
path_key path = last_part (split b'.' path)

-- truncate, with its ellipsis in UTF-8.
truncate : Text → Text
truncate b = if leb (length b) 80 then b else take 80 b ++ (226 ∷ 128 ∷ 166 ∷ [])

start_at : Text → Occurrence → Text → Option ℕ → Edited ℕ
unfolding require key_before truncate
start_at line o key none =
    refused (concat (codes "column " ∷ decimal o.col ∷ codes " is beyond the end of the line" ∷ []))
start_at line o key (some off) =
    require (key_before (take off line) key)
      (concat (
        codes "column "
        ∷ decimal o.col
        ∷ codes " is not the start of a \""
        ∷ key
        ∷ codes ": value\" pair on that line (before it: "
        ∷ quoted (truncate (take off line))
        ∷ codes "); hoist rewrites only an "
        ∷ key
        ∷ codes " scalar that shares its line with its key"
        ∷ []))
      (edited off)

-- checkScalarStart.
unfoldable pub check_scalar_start : Text → Occurrence → Edited ℕ
unfolding start_at path_key byte_offset ends_in
check_scalar_start line o =
    if is_empty (path_key o.path) || ends_in b']' (path_key o.path)
    then refused
        (concat (codes "edit path " ∷ quoted o.path ∷ codes " does not end in a mapping key" ∷ []))
    else start_at line o (path_key o.path) (byte_offset line o.col)

unfoldable pub plain_terminator : ℕ → Bool
plain_terminator b =
    (b == 32) || ((b == 9) || ((b == 13) || ((b == b',') || ((b == b']') || (b == b'}')))))

-- The scalar ends with the line or before a terminator.
abbrev plain_end : Text → Bool
plain_end [] = true
plain_end (c ∷ s) = plain_terminator c

abbrev starts_with : ℕ → Text → Bool
starts_with q [] = false
starts_with q (c ∷ s) = c == q

abbrev is_letter_or_digit : ℕ → Bool
is_letter_or_digit c = is_upper c || (is_lower c || is_digit c)

-- plainSafe.
unfoldable pub plain_safe : Text → Bool
unfolding every
plain_safe [] = false
plain_safe (c ∷ s) =
    is_letter_or_digit c
    && every
        (λ d.
          is_letter_or_digit d
          || ((d == b'.')
              || ((d == b'_') || ((d == b':') || ((d == b'@') || ((d == b'/') || (d == b'-')))))))
        s

-- What may stand between those quotes.
unfoldable pub quotable : ℕ → Text → Bool
unfolding every
quotable q s = every (λ c. not (c == q) && not ((q == b'"') && (c == 92))) s

unfoldable pub quote_of : Styles → ℕ → Option ℕ
quote_of y style =
    if style == y.double_quoted
    then some b'"'
    else if style == y.single_quoted
    then some b'\''
    else none

-- The line with the bytes from `start` to `end` replaced.
abbrev pub spliced : Text → ℕ → ℕ → Text → Text
spliced line start end repl = take start line ++ (repl ++ drop end line)

not_there : Edit → Text → Text
unfolding truncate
not_there e rest = concat (
    place e
    ∷ codes ": text there is "
    ∷ quoted (truncate rest)
    ∷ codes ", not the planned "
    ∷ quoted e.raw
    ∷ codes "; the file changed after the plan was built"
    ∷ [])

abbrev quote_name : ℕ → Text
quote_name q = if q == b'"' then codes "double" else codes "single"

replace_from : Text → Edit → ℕ → Option ℕ → Edited Text
unfolding require not_there
replace_from line e off none =
    require (has_prefix (drop off line) e.raw) (not_there e (drop off line)) (
      require (plain_end (drop (off + length e.raw) line))
        (place e ++ codes ": scalar does not end where the plan says")
        (require (plain_safe (to_text e.new))
          (concat (
            place e
            ∷ codes ": "
            ∷ quoted (to_text e.new)
            ∷ codes " cannot be written as a plain scalar"
            ∷ []))
          (edited (spliced line off (off + length e.raw) (to_text e.new)))))
replace_from line e off (some q) =
    require (starts_with q (drop off line))
      (concat
        (place e ∷ codes ": expected opening " ∷ (q ∷ []) ∷ codes " at the recorded column" ∷ []))
      (require (has_prefix (drop (off + 1) line) e.raw) (not_there e (drop (off + 1) line)) (
        require (starts_with q (drop (off + 1 + length e.raw) line))
          (concat
            (place e ∷ codes ": expected closing " ∷ (q ∷ []) ∷ codes " after the scalar" ∷ []))
          (require (quotable q (to_text e.new))
            (concat (
              place e
              ∷ codes ": "
              ∷ quoted (to_text e.new)
              ∷ codes " cannot be written inside "
              ∷ quote_name q
              ∷ codes " quotes"
              ∷ []))
            (edited (spliced line (off + 1) (off + 1 + length e.raw) (to_text e.new))))))

replace_at : Styles → Text → Edit → Edited ℕ → Edited Text
unfolding replace_from quote_of
replace_at y line e (refused why) = refused (place e ++ (codes ": " ++ why))
replace_at y line e (edited off) = replace_from line e off (quote_of y e.style)

-- replaceInLine.
unfoldable pub replace_in_line : Styles → Text → Edit → Edited Text
unfolding replace_at check_editable check_scalar_start
replace_in_line y line e = elim (check_editable y e) [
  | some why ↦ refused why
  | none ↦ replace_at y line e (check_scalar_start line e.occurrence)
]
