-- ===== src/Image/Parse/Shape.antt =====
-- What the bytes of a well-formed repository and tag cannot be.
use hoist.Prelude.{
  Without, ℕ, ◌≡◌, refl, sym, ap, ◌∙◌, inl, inr, Bool, true, false, ◌&&◌, ◌||◌, [], ◌∷◌, ◌++◌,
  Option, none, some, Text, codes, has_prefix, has_prefix-drop, ◌==◌, length, drop, arith,
  Bool-cases, Option-cases,
}
use mathlib.Core.Path.{subst}
use hoist.Image.Validate.{
  every, digest_matches, tag_matches, RepoState, at_host, in_host, at_port, in_port, at_path,
  in_path, repo_step, repo_scan, repo_matches, is_upper, is_lower, is_digit, is_mark, is_hex,
}
use hoist.Image.Parse.{is_blank, has_blank}

-- A byte of a repository, and one of a tag.
abbrev pub is_repo_byte : ℕ → Bool
is_repo_byte c =
    is_upper c || (is_lower c || (is_digit c || (is_mark c || ((c == b':') || (c == b'/')))))

repo_step-is_repo_byte :
    (q q' : RepoState) (c : ℕ) → repo_step q c ≡ some q' → is_repo_byte c ≡ true
unfolding repo_step
repo_step-is_repo_byte at_host q' c h = ground arith
repo_step-is_repo_byte in_host q' c h = ground arith
repo_step-is_repo_byte at_port q' c h = ground arith
repo_step-is_repo_byte in_port q' c h = ground arith
repo_step-is_repo_byte at_path q' c h = ground arith
repo_step-is_repo_byte in_path q' c h = ground arith

pub repo_scan-step :
    (q : RepoState) (c : ℕ) (s : Text)
    → repo_scan q (c ∷ s) ≡ true
    → (q' : RepoState) × (repo_step q c ≡ some q') × (repo_scan q' s ≡ true)
unfolding repo_scan
repo_scan-step q c s h = elim (Option-cases (repo_step q c)) [
  | inl n ↦ let failed : false ≡ true = ap go (sym n) ∙ h in absurd (cc failed)
  | inr (q', e) ↦ (q', e, ap go (sym e) ∙ h)
]
  where
    go : Option RepoState → Bool
    go o = elim o [ some q' ↦ repo_scan q' s | none ↦ false ]

pub repo_scan-every :
    (q : RepoState) (s : Text) → repo_scan q s ≡ true → every (λ c. is_repo_byte c) s ≡ true
unfolding every
repo_scan-every q [] h = refl
repo_scan-every q (c ∷ s) h =
    let (q', e, k) = repo_scan-step q c s h in
    let here = repo_step-is_repo_byte q q' c e in let rest = repo_scan-every q' s k in ground arith

abbrev pub is_tag_byte : ℕ → Bool
is_tag_byte c = is_upper c || (is_lower c || (is_digit c || is_mark c))

pub tag_matches-every : (s : Text) → tag_matches s ≡ true → every (λ c. is_tag_byte c) s ≡ true
unfolding tag_matches every
tag_matches-every [] h = refl
tag_matches-every (c ∷ s) h = ground arith

pub every-Without :
    (p : ℕ → Bool) (c : ℕ) (s : Text)
    → ((x : ℕ) → p x ≡ true → (x == c) ≡ false)
    → every p s ≡ true
    → Without c s
unfolding every
every-Without p c [] f h = tt
every-Without p c (x ∷ s) f h =
    let both : (p x ≡ true) × (every p s ≡ true) = ground arith in
    (f x both.0, every-Without p c s f both.1)

pub every-has_blank :
    (p : ℕ → Bool) (s : Text)
    → ((x : ℕ) → p x ≡ true → is_blank x ≡ false)
    → every p s ≡ true
    → has_blank s ≡ false
unfolding every has_blank
every-has_blank p [] f h = refl
every-has_blank p (x ∷ s) f h =
    let both : (p x ≡ true) × (every p s ≡ true) = ground arith in
    let here = f x both.0 in let rest = every-has_blank p s f both.1 in ground arith

pub has_blank-append :
    (a b : Text) → has_blank a ≡ false → has_blank b ≡ false → has_blank (a ++ b) ≡ false
unfolding has_blank
has_blank-append [] b h k = k
has_blank-append (x ∷ a) b h k =
    let both : (is_blank x ≡ false) × (has_blank a ≡ false) = ground arith in
    let rest = has_blank-append a b both.1 k in ground arith

ends_true : (a b c : Bool) → (a && (b && c)) ≡ true → (a ≡ true) × (c ≡ true)
ends_true a b c h = ground arith

-- sha256:… holds no white space.
pub digest_matches-has_blank : (s : Text) → digest_matches s ≡ true → has_blank s ≡ false
unfolding digest_matches has_blank
digest_matches-has_blank s h =
    let (marked, hex) =
      ends_true (has_prefix s (codes "sha256:")) (length (drop 7 s) == 64)
        (every (λ c. is_hex c) (drop 7 s)) h in
    ap has_blank (has_prefix-drop s (codes "sha256:") marked)
    ∙ has_blank-append (codes "sha256:") (drop 7 s) refl
        (every-has_blank (λ c. is_hex c) (drop 7 s) (λ x k. ground arith) hex)

-- A byte that can stand in a host.
abbrev is_host_byte : ℕ → Bool
is_host_byte c = is_upper c || (is_lower c || (is_digit c || is_mark c))

at_port_step : (z : ℕ) (q' : RepoState) → repo_step at_port z ≡ some q' → (z == b'/') ≡ false
unfolding repo_step
at_port_step z q' e = ground arith

in_host_colon :
    (z : ℕ) (q' : RepoState) → (z == b':') ≡ true → repo_step in_host z ≡ some q' → q' ≡ at_port
unfolding repo_step
in_host_colon z q' c e = ground arith

at_host_step : (z : ℕ) (q' : RepoState) → repo_step at_host z ≡ some q' → q' ≡ in_host
unfolding repo_step
at_host_step z q' e = ground arith

in_host_byte :
    (z : ℕ) (q' : RepoState) → is_host_byte z ≡ true → repo_step in_host z ≡ some q' → q' ≡ in_host
unfolding repo_step
in_host_byte z q' c e = ground arith

no_port : repo_scan at_port [] ≡ true → ⊥
unfolding repo_scan
no_port h = cc h

at_port-has_prefix :
    (s t : Text) → repo_scan at_port s ≡ true → has_prefix (s ++ t) (codes "//") ≡ false
unfolding repo_step
at_port-has_prefix [] t h = absurd (no_port h)
at_port-has_prefix (z ∷ s) t h =
    let (q', e, k) = repo_scan-step at_port z s h in
    let other : (z == b'/') ≡ false = at_port_step z q' e in ground arith

-- A repository is not, with a tag behind it, the beginning of a URL.
in_host-has_prefix :
    (p s : Text) (x : ℕ) (tail : Text)
    → every (λ c. is_host_byte c) p ≡ true
    → repo_scan in_host s ≡ true
    → (x == b'/') ≡ false
    → has_prefix (s ++ b':' ∷ x ∷ tail) (p ++ codes "://") ≡ false
unfolding every repo_step
in_host-has_prefix [] [] x tail k h n = ground arith
in_host-has_prefix (c ∷ p) [] x tail k h n = ground arith
in_host-has_prefix [] (y ∷ s) x tail k h n = elim (Bool-cases (y == b':')) [
  | inr other ↦ rw other refl
  | inl colon ↦
      let (q', e, scanned) = repo_scan-step in_host y s h in
      let port : repo_scan at_port s ≡ true =
        subst (λ q. repo_scan q s ≡ true) (in_host_colon y q' colon e) scanned in
      rw colon (at_port-has_prefix s (b':' ∷ x ∷ tail) port)
]
in_host-has_prefix (c ∷ p) (y ∷ s) x tail k h n = elim (Bool-cases (y == c)) [
  | inr other ↦ rw other refl
  | inl same ↦
      let both : (is_host_byte c ≡ true) × (every (λ c. is_host_byte c) p ≡ true) = ground arith in
      let host : is_host_byte y ≡ true = ground (arith, both.0) in
      let (q', e, scanned) = repo_scan-step in_host y s h in
      let rest : repo_scan in_host s ≡ true =
        subst (λ q. repo_scan q s ≡ true) (in_host_byte y q' host e) scanned in
      rw same (in_host-has_prefix p s x tail both.1 rest n)
]

-- So no repository with a tag behind it has the prefix that Parse trims.
pub repo_matches-has_prefix :
    (s : Text) (x : ℕ) (tail : Text)
    → repo_matches s ≡ true
    → (x == b'/') ≡ false
    → has_prefix (s ++ b':' ∷ x ∷ tail) (codes "docker-pullable://") ≡ false
unfolding repo_matches every
repo_matches-has_prefix [] x tail h n = ground arith
repo_matches-has_prefix (y ∷ s) x tail h n = elim (Bool-cases (y == b'd')) [
  | inr other ↦ rw other refl
  | inl same ↦
      let (q', e, scanned) = repo_scan-step at_host y s h in
      let rest : repo_scan in_host s ≡ true =
        subst (λ q. repo_scan q s ≡ true) (at_host_step y q' e) scanned in
      rw same (in_host-has_prefix (codes "ocker-pullable") s x tail refl rest n)
]
