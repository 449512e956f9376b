-- ===== src/Prelude/Lists.antt =====
-- Lists over the native numbers, under the library's names, and the predicate that holds of
-- every entry.
use Prim.Native.Nat.{ℕ, zero, suc, ◌+◌}
use mathlib.Core.Path.{◌≡◌, refl, sym, subst}
use mathlib.Core.Bool.{Bool}
use mathlib.Core.Option.{Option, none, some}
use mathlib.Core.List.{map, Memᴰ, List, [], ◌∷◌, ◌++◌}
use native.Mathlib.Omega.{arith}
use mathlib.Core.Bool.{true, false}
use mathlib.Core.Path.{ap, ◌∙◌}
use mathlib.Core.Option.{some-injective}
use hoist.Prelude.Tests.{if◌then◌else◌, if_true, if_false}

module _ {ℓ} {A : Type ℓ} where
  abbrev pub length : List A → ℕ
  length [] = 0
  length (x ∷ xs) = suc (length xs)

  abbrev pub drop : ℕ → List A → List A
  drop zero xs = xs
  drop (suc n) [] = []
  drop (suc n) (x ∷ xs) = drop n xs

  abbrev pub take : ℕ → List A → List A
  take zero xs = []
  take (suc n) [] = []
  take (suc n) (x ∷ xs) = x ∷ take n xs

  -- The last entry that passes the test: a loop from the end that stops at the first hit.
  unfoldable pub find_last : (A → Bool) → List A → Option A
  find_last p [] = none
  find_last p (x ∷ xs) = elim (find_last p xs) [
    | some y ↦ some y
    | none ↦ if p x then some x else none
  ]

  abbrev pub get_last? : List A → Option A
  get_last? [] = none
  get_last? (x ∷ xs) = elim (get_last? xs) [ some y ↦ some y | none ↦ some x ]

  pub length-append : (xs ys : List A) → length (xs ++ ys) ≡ length xs + length ys
  length-append [] ys = omega arith
  length-append (x ∷ xs) ys = omega (arith, length-append xs ys)

  pub drop-suc :
      (n : ℕ) (xs : List A) (x : A) (rest : List A) → drop n xs ≡ x ∷ rest → drop (suc n) xs ≡ rest
  drop-suc zero [] x rest h = cc
  drop-suc zero (y ∷ xs) x rest h = cc
  drop-suc (suc n) [] x rest h = cc
  drop-suc (suc n) (y ∷ xs) x rest h = drop-suc n xs x rest h

  pub drop-length-append : (xs ys : List A) → drop (length xs) (xs ++ ys) ≡ ys
  drop-length-append [] ys = refl
  drop-length-append (x ∷ xs) ys = drop-length-append xs ys

  pub find_last-append :
      (p : A → Bool) (xs : List A) (y : A)
      → find_last p (xs ++ y ∷ []) ≡ (if p y then some y else find_last p xs)
  unfolding find_last
  find_last-append p [] y = refl
  find_last-append p (x ∷ xs) y = ground (arith, find_last-append p xs y)

module _ {ℓ κ} {A : Type ℓ} (P : A → Type κ) where
  abbrev pub All : List A → Type κ
  All [] = Unit
  All (x ∷ xs) = P x × All xs

  pub All-append : (xs ys : List A) → All xs → All ys → All (xs ++ ys)
  All-append [] ys hx hy = hy
  All-append (x ∷ xs) ys hx hy = (hx.0, All-append xs ys hx.1 hy)

  pub All-drop : (n : ℕ) (xs : List A) → All xs → All (drop n xs)
  All-drop zero xs h = h
  All-drop (suc n) [] h = h
  All-drop (suc n) (x ∷ xs) h = All-drop n xs h.1

pub All-map {ℓ κ} :
    {A : Type ℓ} {P Q : A → Type κ} → ((a : A) → P a → Q a) → (xs : List A) → All P xs → All Q xs
All-map f [] h = tt
All-map f (x ∷ xs) h = (f x h.0, All-map f xs h.1)

pub All-Memᴰ {ℓ} : {A : Type ℓ} (xs : List A) → All (λ x. Memᴰ x xs) xs
All-Memᴰ [] = tt
All-Memᴰ (x ∷ xs) = (Memᴰ.head refl, All-map (λ y m. Memᴰ.tail m) xs (All-Memᴰ xs))

pub All-at {ℓ κ} : {A : Type ℓ} (P : A → Type κ) {x : A} (xs : List A) → Memᴰ x xs → All P xs → P x
All-at P [] m h = elim m [ ]
All-at P (y ∷ xs) (Memᴰ.head e) h = subst P (sym e) h.0
All-at P (y ∷ xs) (Memᴰ.tail m) h = All-at P xs m h.1

pub All-both {ℓ κ} :
    {A : Type ℓ} (P Q : A → Type κ) (xs : List A) → All P xs → All Q xs → All (λ x. P x × Q x) xs
All-both P Q [] h k = tt
All-both P Q (x ∷ xs) h k = ((h.0, k.0), All-both P Q xs h.1 k.1)

pub Memᴰ-append_left {ℓ} : {A : Type ℓ} {x : A} (xs ys : List A) → Memᴰ x xs → Memᴰ x (xs ++ ys)
Memᴰ-append_left [] ys m = elim m [ ]
Memᴰ-append_left (z ∷ xs) ys (Memᴰ.head e) = Memᴰ.head e
Memᴰ-append_left (z ∷ xs) ys (Memᴰ.tail m) = Memᴰ.tail (Memᴰ-append_left xs ys m)

pub Memᴰ-append_right {ℓ} : {A : Type ℓ} {x : A} (xs ys : List A) → Memᴰ x ys → Memᴰ x (xs ++ ys)
Memᴰ-append_right [] ys m = m
Memᴰ-append_right (z ∷ xs) ys m = Memᴰ.tail (Memᴰ-append_right xs ys m)

pub All-mapped {ℓ κ μ} :
    {A : Type ℓ} {B : Type κ} (f : A → B) (P : B → Type μ) (xs : List A)
    → All (λ x. P (f x)) xs
    → All P (map f xs)
All-mapped f P [] h = tt
All-mapped f P (x ∷ xs) h = (h.0, All-mapped f P xs h.1)

pub Memᴰ-map {ℓ κ} :
    {A : Type ℓ} {B : Type κ} (f : A → B) (xs : List A) → All (λ x. Memᴰ (f x) (map f xs)) xs
Memᴰ-map f [] = tt
Memᴰ-map f (x ∷ xs) = (Memᴰ.head refl, All-map (λ y m. Memᴰ.tail m) xs (Memᴰ-map f xs))

-- A found entry passes the test and is in the list.
pub find_last-Memᴰ {ℓ} :
    {A : Type ℓ} (p : A → Bool) (xs : List A) (y : A)
    → find_last p xs ≡ some y
    → Memᴰ y xs × (p y ≡ true)
unfolding find_last
find_last-Memᴰ p [] y h = absurd (cc h)
find_last-Memᴰ {A = A} p (x ∷ xs) y h =
    by_rest (find_last p xs) refl h (λ k. find_last-Memᴰ p xs y k)
  where
    by_head :
        (b : Bool)
        → p x ≡ b
        → (if b then some x else none) ≡ some y
        → Memᴰ y (x ∷ xs) × (p y ≡ true)
    by_head true e k =
        let same : x ≡ y = some-injective x y k in (Memᴰ.head (sym same), ap p (sym same) ∙ e)
    by_head false e k = absurd (cc k)

    by_rest :
        (o : Option A)
        → find_last p xs ≡ o
        → elim o [ some z ↦ some z | none ↦ if p x then some x else none ] ≡ some y
        → (find_last p xs ≡ some y → Memᴰ y xs × (p y ≡ true))
        → Memᴰ y (x ∷ xs) × (p y ≡ true)
    by_rest (some z) e k r = let (m, t) = r (e ∙ k) in (Memᴰ.tail m, t)
    by_rest none e k r = by_head (p x) refl k

find_last-misses {ℓ} :
    {A : Type ℓ} (p : A → Bool) (m : List A) → All (λ x. p x ≡ false) m → find_last p m ≡ none
unfolding find_last
find_last-misses p [] k = refl
find_last-misses p (x ∷ m) k = rw (find_last-misses p m k.1) (if_false _ _ k.0)

pub find_last-past {ℓ} :
    {A : Type ℓ} (p : A → Bool) (a m : List A) (e : A)
    → p e ≡ true
    → All (λ x. p x ≡ false) m
    → find_last p (a ++ e ∷ m) ≡ some e
unfolding find_last
find_last-past p [] m e t k = rw (find_last-misses p m k) (if_true _ _ t)
find_last-past p (x ∷ a) m e t k = rw (find_last-past p a m e t k) refl
