-- ===== src/Redact.antt =====
-- pkg/redact/redact.go: the process-wide set of secrets and the replacement of each of them in a
-- message. The snapshot of the set is a list in the order in which the map was iterated.
use hoist.Prelude.{
  ℕ, zero, suc, ◌-◌, Bool, true, false, List, [], ◌∷◌, ◌++◌, Text, codes, length, has_prefix,
  is_empty, text_eq, if◌then◌else◌,
}

abbrev pub redacted : Text
redacted = codes "<redacted>"

-- strings.ReplaceAll for a text that is not empty: `skip` counts the bytes of a match that are
-- still to be passed over.
unfoldable pub replace_from : ℕ → Text → Text → Text → Text
replace_from skip old new [] = []
replace_from (suc skip) old new (c ∷ s) = replace_from skip old new s
replace_from zero old new (c ∷ s) = elim (has_prefix (c ∷ s) old) [
  | true ↦ new ++ replace_from (length old - 1) old new s
  | false ↦ c ∷ replace_from zero old new s
]

-- With an empty text, ReplaceAll puts the new text before, between and after all characters.
abbrev around : Text → Text → Text
around new [] = new
around new (c ∷ s) = new ++ (c ∷ around new s)

unfoldable pub replace_all : Text → Text → Text → Text
unfolding replace_from
replace_all s [] new = around new s
replace_all s (o ∷ old) new = replace_from zero (o ∷ old) new s

abbrev pub Registry : Type 0
Registry = List Text

member : Text → Registry → Bool
member v [] = false
member v (h ∷ hidden) = elim (text_eq h v) [ true ↦ true | false ↦ member v hidden ]

-- Register: a set, and the empty text never enters it.
unfoldable pub register : Text → Registry → Registry
unfolding member
register value hidden =
    if is_empty value then hidden else if member value hidden then hidden else value ∷ hidden

replace_each : List Text → Text → Text
unfolding replace_all
replace_each [] s = s
replace_each (h ∷ hidden) s = replace_each hidden (replace_all s h redacted)

replace_hide : List Text → Text → Text
unfolding replace_all
replace_hide [] s = s
replace_hide (h ∷ hide) s = replace_hide hide (if is_empty h then s else replace_all s h redacted)

-- Strings, with the caller's own list and the registered set.
unfoldable pub strings : Registry → Text → List Text → Text
unfolding replace_each replace_hide
strings registered s hide = replace_each registered (replace_hide hide s)
