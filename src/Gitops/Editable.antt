-- ===== src/Gitops/Editable.antt =====
-- pkg/gitops: whether a reference may be written at all, and into one occurrence.
use hoist.Prelude.{
  ℕ, not, ◌||◌, ◌++◌, Option, none, some, Text, codes, text_eq, is_empty, decimal, ◌==◌, em_dash,
  if◌then◌else◌,
}
use hoist.Image.Ref.{Ref, to_text, pinned}
use hoist.Image.Validate.{validate}
use hoist.Gitops.Types.{Edit}

-- The scalar styles of yaml.v3 that the code names.
pub record Styles : Type 0 where
  pub double_quoted : ℕ
  pub single_quoted : ℕ
  pub literal : ℕ
  pub folded : ℕ

-- unwritable.
unfoldable pub unwritable : Ref → Text
unwritable ref =
    if not (pinned ref)
    then codes "a bare tag with no digest; nothing hoist writes is a bare tag "
      ++ (em_dash ++ codes " supply a digest for this repo")
    else if is_empty ref.tag
    then codes
        "a digest with no tag; hoist writes <repo>:<tag>@sha256:<digest> so a tag is required "
      ++ (em_dash
          ++ codes " supply a digest override for this repo carrying both the tag and the digest")
    else codes ""

abbrev pub place : Edit → Text
place e = e.file ++ (codes ":" ++ (decimal e.line ++ (codes ":" ++ decimal e.col)))

-- The switch on the style.
unfoldable pub style_error : Styles → Edit → Option Text
style_error y e =
    if (e.style == 0) || ((e.style == y.double_quoted) || (e.style == y.single_quoted))
    then none
    else if (e.style == y.literal) || (e.style == y.folded)
    then some (place e ++ codes ": image is a block scalar (| or >); hoist refuses to rewrite it")
    else some (place e ++ (codes ": unsupported scalar style " ++ decimal e.style))

unfoldable pub written_error : Styles → Edit → Option Text
written_error y e =
    if not (pinned e.new)
    then some (
        place e
        ++ (codes ": refusing to write " ++ (to_text e.new ++ codes ": not pinned to a digest")))
    else if is_empty e.new.tag
    then some (
        place e
        ++ (codes ": refusing to write "
            ++ (to_text e.new
                ++ codes ": digest with no tag; the written form is <repo>:<tag>@sha256:<digest>")))
    else if not (text_eq e.new.repo e.ref.repo)
    then some (
        place e
        ++ (codes ": refusing to replace "
            ++ (e.ref.repo ++ (codes " with a different repo " ++ e.new.repo))))
    else style_error y e

-- checkEditable: the error, if there is one.
unfoldable pub check_editable : Styles → Edit → Option Text
check_editable y e = elim (validate e.new) [
  | some why ↦ some (place e ++ (codes ": refusing to write a malformed reference: " ++ why))
  | none ↦ written_error y e
]
