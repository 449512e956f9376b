-- ===== src/Gitops/Apply/Newlines.antt =====
-- Lines hold no newline, before and after an edit.
use hoist.Prelude.{
  Without, ℕ, zero, suc, ◌+◌, ◌≡◌, refl, sym, Bool, true, false, not, ◌&&◌, [], ◌∷◌, ◌++◌, Option,
  none, some, Text, codes, has_prefix, length, drop, take, is_empty, ◌==◌, if_elim, if◌then◌else◌,
  arith, has_prefix-drop,
}
use mathlib.Core.Path.{subst}
use hoist.Image.Ref.{Ref, to_text}
use hoist.Image.Validate.{validate, every, repo_matches, tag_matches, digest_matches, is_hex}
use hoist.Image.Parse.Shape.{
  is_repo_byte, is_tag_byte, repo_scan-every, tag_matches-every, every-Without,
}
use hoist.Gitops.Types.{Edit}
use hoist.Gitops.Editable.{Styles, place, written_error, check_editable}
use hoist.Gitops.Apply.Line.{edited, replace_in_line}
use hoist.Gitops.Apply.Line.Exact.{replace_in_line-Exact}

Without-append : (c : ℕ) (a b : Text) → Without c a → Without c b → Without c (a ++ b)
Without-append c [] b h k = k
Without-append c (x ∷ a) b h k = (h.0, Without-append c a b h.1 k)

Without-take : (c n : ℕ) (s : Text) → Without c s → Without c (take n s)
Without-take c zero s h = tt
Without-take c (suc n) [] h = tt
Without-take c (suc n) (x ∷ s) h = (h.0, Without-take c n s h.1)

Without-drop : (c n : ℕ) (s : Text) → Without c s → Without c (drop n s)
Without-drop c zero s h = h
Without-drop c (suc n) [] h = tt
Without-drop c (suc n) (x ∷ s) h = Without-drop c n s h.1

-- A well-formed reference is printed on one line.
ends_true : (a b c : Bool) → (a && (b && c)) ≡ true → (a ≡ true) × (c ≡ true)
ends_true a b c h = ground arith

digest_matches-Without : (s : Text) → digest_matches s ≡ true → Without 10 s
unfolding digest_matches
digest_matches-Without s h =
    let (marked, hex) =
      ends_true (has_prefix s (codes "sha256:")) (length (drop 7 s) == 64)
        (every (λ c. is_hex c) (drop 7 s)) h in
    subst (Without 10) (sym (has_prefix-drop s (codes "sha256:") marked)) (
      Without-append 10 (codes "sha256:") (drop 7 s)
        (every-Without (λ c. not (c == 10)) 10 (codes "sha256:") (λ x k. ground arith) refl)
        (every-Without (λ c. is_hex c) 10 (drop 7 s) (λ x k. ground arith) hex))

validate_parts :
    (r : Ref)
    → validate r ≡ none
    → (repo_matches r.repo ≡ true)
      × (is_empty r.tag ≡ false → tag_matches r.tag ≡ true)
      × (is_empty r.digest ≡ false → digest_matches r.digest ≡ true)
unfolding validate
validate_parts r h = ground arith

validate-Without : (r : Ref) → validate r ≡ none → Without 10 (to_text r)
unfolding to_text repo_matches
validate-Without r h =
    let (repo, tag, digest) = validate_parts r h in
    Without-append 10 r.repo _
      (every-Without (λ c. is_repo_byte c) 10 r.repo (λ x k. ground arith)
        (repo_scan-every _ r.repo repo))
      (Without-append 10 (if is_empty r.tag then [] else b':' ∷ r.tag) _
        (if_elim (Without 10) (is_empty r.tag) (λ _. tt)
          (λ e. (
            refl,
            every-Without (λ c. is_tag_byte c) 10 r.tag (λ x k. ground arith)
                (tag_matches-every r.tag (tag e)),
          )))
        (if_elim (Without 10) (is_empty r.digest) (λ _. tt)
          (λ e. (refl, digest_matches-Without r.digest (digest e)))))

written_error_first : (y : Styles) (e : Edit) → check_editable y e ≡ none → validate e.new ≡ none
unfolding check_editable
written_error_first y e h = by_valid (validate e.new) h
  where
    by_valid :
        (o : Option Text)
        → elim o [
          | some why ↦
              some (place e ++ (codes ": refusing to write a malformed reference: " ++ why))
          | none ↦ written_error y e
        ]
          ≡ none
        → o ≡ none
    by_valid none h = refl
    by_valid (some why) h = absurd (cc h)

pub replace_in_line-Without :
    (y : Styles) (line line' : Text) (e : Edit)
    → replace_in_line y line e ≡ edited line'
    → Without 10 line
    → Without 10 line'
replace_in_line-Without y line line' e h w =
    let x = replace_in_line-Exact y line line' e h in
    subst (Without 10) (sym x.result) (
      Without-append 10 (take x.start line) _ (Without-take 10 x.start line w) (
        Without-append 10 (to_text e.new) _
          (validate-Without e.new (written_error_first y e x.editable))
          (Without-drop 10 (x.start + length e.raw) line w)))
