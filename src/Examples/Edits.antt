-- ===== src/Examples/Edits.antt =====
-- One edit of a small manifest.
use hoist.Prelude.{◌≡◌, refl, [], ◌∷◌, ◌++◌, none, Text, codes, join, split}
use hoist.Image.Ref.{to_text}
use hoist.Image.Validate.{
  validate, repo_matches, repo_scan, repo_step, tag_matches, digest_matches, every,
}
use hoist.Gitops.Types.{Edit}
use hoist.Gitops.Editable.{check_editable, written_error, style_error}
use hoist.Gitops.Order.{insert_by, sort_by}
use hoist.Gitops.Apply.{edit_line, edit_lines, apply_lines, apply_bytes}
use hoist.Gitops.Apply.Line.{
  require, rune_size, byte_offset, trim_blanks, cut_suffix, key_before, path_key,
  check_scalar_start, plain_terminator, plain_safe, quote_of, replace_in_line,
}
use hoist.Gitops.Apply.Line.Exact.{Exact, replace_in_line-Exact}
use hoist.Gitops.Apply.Accepts.{apply_bytes-accepted}
use hoist.Gitops.Verify.{verify_lines}
use hoist.Examples.Plans.{styles, image, occurrence}

abbrev edit : Edit
edit = record {
  occurrence = record (occurrence (codes "a.yaml") 2) { col = 17 };
  new = image (codes "v2");
}

abbrev line : Text
line = codes "  - image:      ghcr.io/example/app:v1 # the app"

abbrev line_after : Text
line_after =
    codes
      "  - image:      ghcr.io/example/app:v2@sha256:0123456789abcdef0123456789abcdef0123456789abcdef0123456789abcdef # the app"

replace_in_line-Exact_example : Exact styles line line_after edit
unfolding replace_in_line check_editable written_error style_error check_scalar_start require
    byte_offset rune_size trim_blanks cut_suffix key_before path_key plain_terminator plain_safe
    quote_of split to_text validate repo_matches repo_scan repo_step tag_matches digest_matches
    every
replace_in_line-Exact_example = replace_in_line-Exact styles line line_after edit refl

apply_bytes-accepted_example :
    verify_lines styles
      (codes "a.yaml")
      (codes "spec:" ++ 10 ∷ line ++ 10 ∷ [])
      (codes "spec:" ++ 10 ∷ line_after ++ 10 ∷ [])
      (edit ∷ [])
    ≡ none
unfolding replace_in_line check_editable written_error style_error check_scalar_start require
    byte_offset rune_size trim_blanks cut_suffix key_before path_key plain_terminator plain_safe
    quote_of split to_text validate repo_matches repo_scan repo_step tag_matches digest_matches
    every apply_bytes apply_lines edit_lines edit_line sort_by insert_by join
apply_bytes-accepted_example =
    apply_bytes-accepted styles (codes "a.yaml") (edit ∷ []) (codes "spec:" ++ 10 ∷ line ++ 10 ∷ [])
      (codes "spec:" ++ 10 ∷ line_after ++ 10 ∷ []) refl
