-- ===== src/Gitops/Types.antt =====
-- pkg/gitops/types.go: occurrences, families, environments, edits, warnings and plans.
use hoist.Prelude.{ℕ, Bool, List, Text, codes, text_eq}
use hoist.Image.Ref.{Ref, to_text}

pub record Occurrence : Type 0 where
  pub file : Text
  pub doc : ℕ
  pub line : ℕ
  pub col : ℕ
  pub style : ℕ
  pub kind : Text
  pub name : Text
  pub container : Text
  pub path : Text
  pub raw : Text
  pub ref : Ref

pub record Family : Type 0 where
  pub name : Text
  pub dir : Text
  pub app : Text
  pub occurrences : List Occurrence

-- `Families` is a map; the list is in the order in which it is iterated.
pub record Env : Type 0 where
  pub name : Text
  pub dir : Text
  pub families : List (Text × Family)

pub record ArgoApp : Type 0 where
  pub name : Text
  pub source_path : Text
  pub namespace : Text
  pub file : Text

pub record Repo : Type 0 where
  pub root : Text
  pub apps_root : Text
  pub envs : List (Text × Env)
  pub apps : List ArgoApp
  pub unmanaged : List Text

pub record Edit : Type 0 where
  pub occurrence : Occurrence
  pub open occurrence use *
  pub new : Ref

unfoldable pub no_op : Edit → Bool
unfolding to_text
no_op e = text_eq (to_text e.ref) (to_text e.new)

pub record Warning : Type 0 where
  pub code : Text
  pub message : Text
  pub occurrences : List Occurrence

pub record Plan : Type 0 where
  pub variant : Text
  pub source_env : Text
  pub target_env : Text
  pub edits : List Edit
  pub untouched : List Ref
  pub warnings : List Warning
  pub generated_at : ℕ

abbrev pub variant_promote : Text
variant_promote = codes ""

abbrev pub variant_deploy : Text
variant_deploy = codes "deploy"

unfoldable pub is_deploy : Plan → Bool
is_deploy p = text_eq p.variant variant_deploy
