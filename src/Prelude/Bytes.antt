-- ===== src/Prelude/Bytes.antt =====
-- Go strings as lists of bytes, and what the code uses of package strings: ==, HasPrefix,
-- HasSuffix, TrimPrefix, ReplaceAll, IndexByte and LastIndexByte.
use Prim.Native.Nat.{ℕ, zero, suc, ◌+◌, ◌-◌, ◌/◌, ◌%◌}
use Prim.Native.Char.{code}
use Prim.Native.String.{String}
use mathlib.Core.Path.{◌≡◌, refl, sym, ap, ◌∙◌}
use mathlib.Core.Logic.{◌↔◌}
use mathlib.Core.Bool.{Bool, true, false, ◌&&◌, ◌||◌}
use mathlib.Core.List.{Memᴰ, List, [], ◌∷◌, ◌++◌}
use native.Mathlib.Omega.{arith}
use hoist.Prelude.Lists.{length, drop, All}
use hoist.Prelude.Tests.{◌==◌, ltb, leb, if◌then◌else◌, if_elim, if_true, if_false}

abbrev pub Text : Type 0
Text = List ℕ

-- The bytes of a literal, which is ASCII wherever it is used.
abbrev pub codes : String → Text
codes String.[] = []
codes (String.◌∷◌ c s) = code c ∷ codes s

-- Two characters of the messages that are not ASCII, in UTF-8.
abbrev pub em_dash : Text
em_dash = 226 ∷ 128 ∷ 148 ∷ []

abbrev pub mid_dot : Text
mid_dot = 194 ∷ 183 ∷ []

abbrev pub text_eq : Text → Text → Bool
text_eq [] [] = true
text_eq [] (y ∷ ys) = false
text_eq (x ∷ xs) [] = false
text_eq (x ∷ xs) (y ∷ ys) = (x == y) && text_eq xs ys

pub text_eq_iff : (s t : Text) → (text_eq s t ≡ true) ↔ (s ≡ t)
text_eq_iff [] [] = ground arith
text_eq_iff [] (y ∷ ys) = ground arith
text_eq_iff (x ∷ xs) [] = ground arith
text_eq_iff (x ∷ xs) (y ∷ ys) = ground (arith, text_eq_iff xs ys)

pub text_eq_refl : (s : Text) → text_eq s s ≡ true
text_eq_refl s = (text_eq_iff s s).1 refl

abbrev pub is_empty : Text → Bool
is_empty [] = true
is_empty (x ∷ xs) = false

abbrev pub has_prefix : Text → Text → Bool
has_prefix s [] = true
has_prefix [] (p ∷ ps) = false
has_prefix (x ∷ xs) (p ∷ ps) = (x == p) && has_prefix xs ps

pub has_prefix-append : (p s : Text) → has_prefix (p ++ s) p ≡ true
has_prefix-append [] s = refl
has_prefix-append (c ∷ p) s = ground (arith, has_prefix-append p s)

heads :
    (x c : ℕ) (s p : Text) → has_prefix (x ∷ s) (c ∷ p) ≡ true → (x ≡ c) × (has_prefix s p ≡ true)
heads x c s p h = ground arith

pub has_prefix-drop : (s p : Text) → has_prefix s p ≡ true → s ≡ p ++ drop (length p) s
has_prefix-drop s [] h = refl
has_prefix-drop [] (c ∷ p) h = ground arith
has_prefix-drop (x ∷ s) (c ∷ p) h =
    let (same, rest) = heads x c s p h in
    ap (λ y. y ∷ s) same ∙ ap (◌∷◌ c) (has_prefix-drop s p rest)

-- A byte that a text does not hold.
abbrev pub Without : ℕ → Text → Type 0
Without c [] = Unit
Without c (x ∷ s) = ((x == c) ≡ false) × Without c s

-- %q of a text of ASCII, as strconv.Quote writes it.
hex_digit : ℕ → ℕ
hex_digit n = if ltb n 10 then b'0' + n else b'a' + (n - 10)

quoted_byte : ℕ → Text
unfolding hex_digit
quoted_byte c =
    if (c == b'"') || (c == 92)
    then 92 ∷ c ∷ []
    else if c == 7
    then 92 ∷ b'a' ∷ []
    else if c == 8
    then 92 ∷ b'b' ∷ []
    else if c == 9
    then 92 ∷ b't' ∷ []
    else if c == 10
    then 92 ∷ b'n' ∷ []
    else if c == 11
    then 92 ∷ b'v' ∷ []
    else if c == 12
    then 92 ∷ b'f' ∷ []
    else if c == 13
    then 92 ∷ b'r' ∷ []
    else if ltb c 32 || (c == 127)
    then 92 ∷ b'x' ∷ hex_digit (c / 16) ∷ hex_digit (c % 16) ∷ []
    else c ∷ []

quoted_bytes : Text → Text
unfolding quoted_byte
quoted_bytes [] = b'"' ∷ []
quoted_bytes (c ∷ s) = quoted_byte c ++ quoted_bytes s

unfoldable pub quoted : Text → Text
unfolding quoted_bytes
quoted s = b'"' ∷ quoted_bytes s

-- %d of a number that is not negative; the number itself is fuel enough for its digits.
decimal_from : ℕ → ℕ → Text → Text
decimal_from zero n tail = tail
decimal_from (suc fuel) n tail =
    let rest = decimal_from fuel (n / 10) ((b'0' + n % 10) ∷ tail) in
    if ltb n 10 then (b'0' + n) ∷ tail else rest

unfoldable pub decimal : ℕ → Text
unfolding decimal_from
decimal n = decimal_from (suc n) n []

-- strings.Join.
unfoldable pub join : Text → List Text → Text
join sep [] = []
join sep (t ∷ []) = t
join sep (t ∷ u ∷ ts) = t ++ (sep ++ join sep (u ∷ ts))

-- The pieces of a formatted message.
abbrev pub concat : List Text → Text
concat [] = []
concat (t ∷ ts) = t ++ concat ts

-- The bytewise order of sort.Strings.
unfoldable pub text_lt : Text → Text → Bool
text_lt s [] = false
text_lt [] (y ∷ ys) = true
text_lt (x ∷ xs) (y ∷ ys) = ltb x y || ((x == y) && text_lt xs ys)

insert_text : Text → List Text → List Text
unfolding text_lt
insert_text t [] = t ∷ []
insert_text t (u ∷ us) = if text_lt u t then u ∷ insert_text t us else t ∷ u ∷ us

-- sort.Strings.
unfoldable pub sort_texts : List Text → List Text
unfolding insert_text
sort_texts [] = []
sort_texts (t ∷ ts) = insert_text t (sort_texts ts)

-- A letter of ASCII in lower case.
abbrev pub lower : ℕ → ℕ
lower c = if leb b'A' c && leb c b'Z' then c + 32 else c

-- strings.EqualFold for ASCII.
unfoldable pub equal_fold : Text → Text → Bool
equal_fold [] [] = true
equal_fold [] (y ∷ ys) = false
equal_fold (x ∷ xs) [] = false
equal_fold (x ∷ xs) (y ∷ ys) = (lower x == lower y) && equal_fold xs ys

-- \s of a regular expression.
abbrev pub is_space : ℕ → Bool
is_space c = (c == 9) || ((c == 10) || ((c == 12) || ((c == 13) || (c == 32))))

-- strings.Split(s, sep) for a separator of one byte: there is always a first part.
split_first : ℕ → Text → Text × List Text
split_first sep [] = ([], [])
split_first sep (c ∷ s) =
    let (part, parts) = split_first sep s in
    if c == sep then ([], part ∷ parts) else (c ∷ part, parts)

unfoldable pub split : ℕ → Text → List Text
unfolding split_first
split sep s = let (part, parts) = split_first sep s in part ∷ parts

split_first-Without :
    (c : ℕ) (s : Text) → Without c (split_first c s).0 × All (Without c) (split_first c s).1
unfolding split_first
split_first-Without c [] = (tt, tt)
split_first-Without c (x ∷ s) =
    let (part, parts) = split_first-Without c s in
    if_elim (λ (r : Text × List Text). Without c r.0 × All (Without c) r.1) (x == c)
      (λ _. (tt, (part, parts))) (λ e. ((e, part), parts))

pub split-Without : (c : ℕ) (s : Text) → All (Without c) (split c s)
unfolding split
split-Without c s = split_first-Without c s

-- What join puts between the parts, split takes apart.
split_first-Without_append :
    (c : ℕ) (t s : Text) → Without c t → split_first c (t ++ c ∷ s) ≡ (t, split c s)
unfolding split_first split
split_first-Without_append c [] s h = let same : (c == c) ≡ true = ground arith in if_true _ _ same
split_first-Without_append c (x ∷ t) s h =
    rw (split_first-Without_append c t s h.1) (if_false _ _ h.0)

split_first-Without_all : (c : ℕ) (t : Text) → Without c t → split_first c t ≡ (t, [])
unfolding split_first
split_first-Without_all c [] h = refl
split_first-Without_all c (x ∷ t) h = rw (split_first-Without_all c t h.1) (if_false _ _ h.0)

pub split-join :
    (c : ℕ) (t : Text) (ts : List Text)
    → All (Without c) (t ∷ ts)
    → split c (join (c ∷ []) (t ∷ ts)) ≡ t ∷ ts
unfolding split join
split-join c t [] h = ap parts_of (split_first-Without_all c t h.0)
  where
    parts_of : Text × List Text → List Text
    parts_of r = let (part, parts) = r in part ∷ parts
split-join c t (u ∷ ts) h =
    ap parts_of (split_first-Without_append c t (join (c ∷ []) (u ∷ ts)) h.0)
    ∙ ap (◌∷◌ t) (split-join c u ts h.1)
  where
    parts_of : Text × List Text → List Text
    parts_of r = let (part, parts) = r in part ∷ parts

All-insert_text :
    (P : Text → Type 0) (t : Text) (us : List Text) → P t → All P us → All P (insert_text t us)
unfolding insert_text
All-insert_text P t [] h hs = (h, tt)
All-insert_text P t (u ∷ us) h hs =
    if_elim (All P) (text_lt u t) (λ _. (hs.0, All-insert_text P t us h hs.1)) (λ _. (h, hs))

pub All-sort_texts : (P : Text → Type 0) (ts : List Text) → All P ts → All P (sort_texts ts)
unfolding sort_texts
All-sort_texts P [] h = tt
All-sort_texts P (t ∷ ts) h = All-insert_text P t (sort_texts ts) h.0 (All-sort_texts P ts h.1)

Memᴰ-insert_text : (x t : Text) (us : List Text) → Memᴰ x (t ∷ us) → Memᴰ x (insert_text t us)
unfolding insert_text
Memᴰ-insert_text x t [] m = m
Memᴰ-insert_text x t (u ∷ us) m =
    if_elim (Memᴰ x) (text_lt u t) (λ _. moved m (λ k. Memᴰ-insert_text x t us k)) (λ _. m)
  where
    moved :
        Memᴰ x (t ∷ u ∷ us)
        → (Memᴰ x (t ∷ us) → Memᴰ x (insert_text t us))
        → Memᴰ x (u ∷ insert_text t us)
    moved (Memᴰ.head e) go = Memᴰ.tail (go (Memᴰ.head e))
    moved (Memᴰ.tail (Memᴰ.head e)) go = Memᴰ.head e
    moved (Memᴰ.tail (Memᴰ.tail m)) go = Memᴰ.tail (go (Memᴰ.tail m))

pub Memᴰ-sort_texts : (x : Text) (ts : List Text) → Memᴰ x ts → Memᴰ x (sort_texts ts)
unfolding sort_texts
Memᴰ-sort_texts x [] m = elim m [ ]
Memᴰ-sort_texts x (t ∷ ts) (Memᴰ.head e) = Memᴰ-insert_text x t (sort_texts ts) (Memᴰ.head e)
Memᴰ-sort_texts x (t ∷ ts) (Memᴰ.tail m) =
    Memᴰ-insert_text x t (sort_texts ts) (Memᴰ.tail (Memᴰ-sort_texts x ts m))

-- A search for a text, by its first entry and the rest.
pub Memᴰ-tested :
    (t p : Text) (ps : List Text) (rest : Bool)
    → (rest ≡ true) ↔ Memᴰ t ps
    → (elim (text_eq p t) [ true ↦ true | false ↦ rest ] ≡ true) ↔ Memᴰ t (p ∷ ps)
Memᴰ-tested t p ps rest h = by_test (text_eq p t) refl
  where
    later : Memᴰ t (p ∷ ps) → text_eq p t ≡ false → rest ≡ true
    later (Memᴰ.head e) n = let same = (text_eq_iff p t).1 (sym e) in absurd (cc (same, n))
    later (Memᴰ.tail m) n = h.1 m

    by_test :
        (b : Bool)
        → text_eq p t ≡ b
        → (elim b [ true ↦ true | false ↦ rest ] ≡ true) ↔ Memᴰ t (p ∷ ps)
    by_test true e = (λ _. Memᴰ.head (sym ((text_eq_iff p t).0 e)), λ _. refl)
    by_test false n = (λ k. Memᴰ.tail (h.0 k), λ m. later m n)
