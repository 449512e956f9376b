-- ===== src/Gitops/Prefix/Boundary.antt =====
-- A prefix covers whole components of a registry path, never a host that shares its first bytes.
use hoist.Prelude.{
  ◌≡◌, sym, drop-length-append, ◌↔◌, ◌⊎◌, true, false, ◌++◌, Text, is_empty, has_prefix,
  has_prefix-append, has_prefix-drop, length, drop, arith,
}
use mathlib.Core.Path.{subst}
use hoist.Gitops.Prefix.{ends_in_slash, at_boundary, matches_prefix}

matches_prefix-splits :
    (repo prefix : Text)
    → matches_prefix repo prefix ≡ true
    → (is_empty prefix ≡ false)
      × (has_prefix repo prefix ≡ true)
      × ((ends_in_slash prefix ≡ true) ⊎ (at_boundary (drop (length prefix) repo) ≡ true))
unfolding matches_prefix
matches_prefix-splits repo prefix h = ground arith

matches_prefix-joins :
    (repo prefix : Text)
    → is_empty prefix ≡ false
    → has_prefix repo prefix ≡ true
    → (ends_in_slash prefix ≡ true) ⊎ (at_boundary (drop (length prefix) repo) ≡ true)
    → matches_prefix repo prefix ≡ true
unfolding matches_prefix
matches_prefix-joins repo prefix e h k = ground arith

matches_prefix-append :
    (prefix rest : Text)
    → is_empty prefix ≡ false
    → (ends_in_slash prefix ≡ true) ⊎ (at_boundary rest ≡ true)
    → matches_prefix (prefix ++ rest) prefix ≡ true
matches_prefix-append prefix rest e k =
    matches_prefix-joins (prefix ++ rest) prefix e (has_prefix-append prefix rest) (
      subst (λ r. (ends_in_slash prefix ≡ true) ⊎ (at_boundary r ≡ true))
        (sym (drop-length-append prefix rest)) k)

-- A repository is covered by a prefix exactly when the prefix is not empty and the repository is
-- the prefix followed by a rest, where the prefix ends in "/" or the rest is empty or begins with
-- "/".
pub matches_prefix_lem :
    (repo prefix : Text)
    → (matches_prefix repo prefix ≡ true) ↔ (
        (is_empty prefix ≡ false)
        × ((rest : Text) × (repo ≡ prefix ++ rest)
            × ((ends_in_slash prefix ≡ true) ⊎ (at_boundary rest ≡ true))))
matches_prefix_lem repo prefix = (
  λ h.
      let (e, p, k) = matches_prefix-splits repo prefix h in
      (e, (drop (length prefix) repo, has_prefix-drop repo prefix p, k)),
  λ (e, (rest, same, k)).
      subst (λ r. matches_prefix r prefix ≡ true) (sym same)
        (matches_prefix-append prefix rest e k),
)
