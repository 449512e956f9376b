-- ===== src/Resolve.antt =====
-- pkg/resolve/resolve.go: which digest a promotion of an image repository writes.
pub mod Pods
pub mod Repo
pub mod Batch
use hoist.Prelude.{Bool, Option, none, some, Text, codes}
use hoist.Image.Ref.{Ref}

-- k8s.RunningImage, less the image as the runtime reports it, which nothing here reads.
pub record RunningImage : Type 0 where
  pub pod : Text
  pub container : Text
  pub init : Bool
  pub ref : Ref

pub data Answer (A : Type 0) : Type 0 where
  answered : A → Answer A
  failed : Text → Answer A

-- registry.Registry by its Head, and the ForRepo of a registry that is also PerRepo, which may be nil.
pub record ImageRegistry : Type 0 where
  pub head : Ref → Answer Text
  pub per_repo : Option (Text → Option (Ref → Answer Text))

-- The registry that is asked for a repository.
abbrev pub for_repo : ImageRegistry → Text → Option (Ref → Answer Text)
for_repo reg repo = choice reg.per_repo
  where
    choice : Option (Text → Option (Ref → Answer Text)) → Option (Ref → Answer Text)
    choice none = some reg.head
    choice (some f) = f repo

abbrev pub Source : Type 0
Source = Text

abbrev pub source_pods : Source
source_pods = codes "pods"

abbrev pub source_manifest : Source
source_manifest = codes "manifest"

abbrev pub source_registry : Source
source_registry = codes "registry"

abbrev pub source_override : Source
source_override = codes "override"
