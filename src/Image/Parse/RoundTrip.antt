-- ===== src/Image/Parse/RoundTrip.antt =====
-- What hoist writes reads back as itself.
use hoist.Prelude.{
  Without, ℕ, ◌≡◌, refl, sym, ap, ◌∙◌, true, false, not, [], ◌∷◌, ◌++◌, none, some, Text, is_empty,
  append_assoc, arith, if_false, ◌==◌,
}
use hoist.Image.Ref.{Ref, to_text}
use hoist.Image.Validate.{every, digest_matches, tag_matches, repo_matches, validate, at_host}
use hoist.Image.Parse.{
  trim_prefix, pullable_prefix, has_blank, cut_first, cut_last, tag_cut, parsed, parse_repo,
  parse_tag, parse_digest, parse_trimmed, parse,
}
use hoist.Image.Parse.Cuts.{cut_first-append, cut_last-append, cut_last-Before, tag_cut-Before}
use hoist.Image.Parse.Shape.{
  is_repo_byte, is_tag_byte, repo_scan-every, tag_matches-every, every-Without, every-has_blank,
  has_blank-append, digest_matches-has_blank, repo_matches-has_prefix,
}

Without-append : (c : ℕ) (a b : Text) → Without c a → Without c b → Without c (a ++ b)
Without-append c [] b h k = k
Without-append c (x ∷ a) b h k = (h.0, Without-append c a b h.1 k)

repo_matches-every : (s : Text) → repo_matches s ≡ true → every (λ c. is_repo_byte c) s ≡ true
unfolding repo_matches
repo_matches-every s h = repo_scan-every at_host s h

module _ (repo : Text) (x : ℕ) (tag' digest : Text) (r : repo_matches repo ≡ true)
    (t : tag_matches (x ∷ tag') ≡ true) (d : digest_matches digest ≡ true) where
  abbrev tag : Text
  tag = x ∷ tag'

  abbrev named : Text
  named = repo ++ b':' ∷ tag

  abbrev whole : Text
  whole = repo ++ b':' ∷ (tag ++ b'@' ∷ digest)

  abbrev made : Ref
  made = record { repo = repo; tag = tag; digest = digest }

  tag-Without : (c : ℕ) → ((y : ℕ) → is_tag_byte y ≡ true → (y == c) ≡ false) → Without c tag
  tag-Without c f = every-Without (λ c. is_tag_byte c) c tag f (tag_matches-every tag t)

  named-Without : Without b'@' named
  named-Without =
      Without-append b'@' repo (b':' ∷ tag)
        (every-Without (λ c. is_repo_byte c) b'@' repo (λ y k. ground arith)
          (repo_matches-every repo r))
        (refl, tag-Without b'@' (λ y k. ground arith))

  whole-split : named ++ b'@' ∷ digest ≡ whole
  whole-split = append_assoc repo (b':' ∷ tag) (b'@' ∷ digest)

  cut_digest : cut_first b'@' whole ≡ some (named, digest)
  cut_digest =
      ap (cut_first b'@') (sym whole-split) ∙ cut_first-append b'@' named digest named-Without

  cut_tag : tag_cut (cut_last b':' named) (cut_last b'/' named) ≡ some (repo, tag)
  cut_tag =
      ap (λ o. tag_cut o (cut_last b'/' named))
        (cut_last-append b':' repo tag (tag-Without b':' (λ y k. ground arith)))
      ∙ tag_cut-Before repo tag (cut_last b'/' named)
          (cut_last-Before b'/' b':' repo tag (tag-Without b'/' (λ y k. ground arith)) refl)

  has_blank-whole : has_blank whole ≡ false
  unfolding has_blank
  has_blank-whole =
      has_blank-append repo (b':' ∷ (tag ++ b'@' ∷ digest))
        (every-has_blank (λ c. is_repo_byte c) repo (λ y k. ground arith)
          (repo_matches-every repo r))
        (has_blank-append (b':' ∷ []) (tag ++ b'@' ∷ digest) refl (
          has_blank-append tag (b'@' ∷ digest)
            (every-has_blank (λ c. is_tag_byte c) tag (λ y k. ground arith)
              (tag_matches-every tag t))
            (has_blank-append (b'@' ∷ []) digest refl (digest_matches-has_blank digest d))))

  first_of_tag : (x == b'/') ≡ false
  first_of_tag = (tag-Without b'/' (λ y k. ground arith)).0

  trim_prefix-whole : trim_prefix whole pullable_prefix ≡ whole
  unfolding trim_prefix
  trim_prefix-whole =
      if_false _ _ (repo_matches-has_prefix repo x (tag' ++ b'@' ∷ digest) r first_of_tag)

  is_empty-whole : is_empty whole ≡ false
  is_empty-whole = not_empty repo
    where
      not_empty : (s : Text) → is_empty (s ++ b':' ∷ (tag ++ b'@' ∷ digest)) ≡ false
      not_empty [] = refl
      not_empty (y ∷ s) = refl

  parse-whole : parse whole ≡ parsed made
  unfolding parse parse_trimmed parse_digest parse_tag parse_repo
  parse-whole =
      ap (parse_trimmed whole) trim_prefix-whole
      ∙ (if_false _ _ is_empty-whole
          ∙ (if_false _ _ has_blank-whole
              ∙ (ap (parse_digest whole whole) cut_digest
                  ∙ (if_false _ _ (ap not d)
                      ∙ (ap (parse_tag whole digest named) cut_tag
                          ∙ (if_false _ _ (ap not t) ∙ if_false _ _ (ap not r)))))))

validate-parts :
    (r : Ref)
    → validate r ≡ none
    → is_empty r.tag ≡ false
    → is_empty r.digest ≡ false
    → (repo_matches r.repo ≡ true) × (tag_matches r.tag ≡ true) × (digest_matches r.digest ≡ true)
unfolding validate
validate-parts r v t d = ground arith

-- A reference that is well formed, tagged and pinned, which is all that hoist writes, is what Parse
-- returns for the text that String prints of it.
pub parse-to_text :
    (r : Ref)
    → validate r ≡ none
    → is_empty r.tag ≡ false
    → is_empty r.digest ≡ false
    → parse (to_text r) ≡ parsed r
unfolding to_text
parse-to_text r v t d =
    let (a, b, c) = validate-parts r v t d in by_tag r.repo r.tag r.digest a b c t d
  where
    by_tag :
        (repo tag digest : Text)
        → repo_matches repo ≡ true
        → tag_matches tag ≡ true
        → digest_matches digest ≡ true
        → is_empty tag ≡ false
        → is_empty digest ≡ false
        → parse (to_text (record { repo = repo; tag = tag; digest = digest }))
          ≡ parsed (record { repo = repo; tag = tag; digest = digest })
    by_tag repo [] digest a b c t d = absurd (cc t)
    by_tag repo (x ∷ tag) [] a b c t d = absurd (cc d)
    by_tag repo (x ∷ tag) (y ∷ digest) a b c t d = parse-whole repo x tag (y ∷ digest) a b c
