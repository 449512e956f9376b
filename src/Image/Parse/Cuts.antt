-- ===== src/Image/Parse/Cuts.antt =====
-- Where the first and the last of a byte is, when it is put there.
use hoist.Prelude.{
  Without, ℕ, suc, ◌≡◌, refl, ◌<◌, true, false, [], ◌∷◌, ◌++◌, Option, none, some, Text, ◌==◌,
  length, arith, if_true, if_false, if_elim, if◌then◌else◌,
}
use hoist.Image.Parse.{cut_first, cut_last, tag_cut}

pub cut_first-append : (c : ℕ) (a b : Text) → Without c a → cut_first c (a ++ c ∷ b) ≡ some (a, b)
unfolding cut_first
cut_first-append c [] b h = let same : (c == c) ≡ true = ground arith in rw (same, cut_first) refl
cut_first-append c (x ∷ a) b h = rw (h.0, cut_first-append c a b h.1, cut_first) refl

pub cut_last-Without : (c : ℕ) (a : Text) → Without c a → cut_last c a ≡ none
unfolding cut_last
cut_last-Without c [] h = refl
cut_last-Without c (x ∷ a) h = rw (cut_last-Without c a h.1) (if_false _ _ h.0)

pub cut_last-append : (c : ℕ) (a b : Text) → Without c b → cut_last c (a ++ c ∷ b) ≡ some (a, b)
unfolding cut_last
cut_last-append c [] b h =
    let same : (c == c) ≡ true = ground arith in rw (cut_last-Without c b h) (if_true _ _ same)
cut_last-append c (x ∷ a) b h = rw (cut_last-append c a b h) refl

-- The last of another byte lies before.
abbrev pub Before : ℕ → Option (Text × Text) → Type 0
Before n none = Unit
Before n (some (d, f)) = length d < n

Before-cons :
    (n x : ℕ) (o : Option (Text × Text)) (s : Text) (c : ℕ)
    → Before n o
    → Before
        (suc n)
        (elim o [ some (a, b) ↦ some (x ∷ a, b) | none ↦ if x == c then some ([], s) else none ])
Before-cons n x (some (a, b)) s c h = ground arith
Before-cons n x none s c h = if_elim (Before (suc n)) (x == c) (λ e. ground arith) (λ e. tt)

pub cut_last-Before :
    (c x : ℕ) (a b : Text)
    → Without c b
    → (x == c) ≡ false
    → Before (length a) (cut_last c (a ++ x ∷ b))
unfolding cut_last
cut_last-Before c x [] b h n =
    rw (cut_last-Without c b h) (rw (if_false {A = Option (Text × Text)} (some ([], b)) none n) tt)
cut_last-Before c x (y ∷ a) b h n =
    Before-cons (length a) y (cut_last c (a ++ x ∷ b)) (a ++ x ∷ b) c (cut_last-Before c x a b h n)

pub tag_cut-Before :
    (a b : Text) (o : Option (Text × Text))
    → Before (length a) o
    → tag_cut (some (a, b)) o ≡ some (a, b)
unfolding tag_cut
tag_cut-Before a b none h = refl
tag_cut-Before a b (some (d, f)) h = ground arith
