-- ===== src/Image/Ref.antt =====
-- pkg/image/image.go: the reference, how it is printed, and whether it is pinned.
use hoist.Prelude.{Bool, not, [], ◌∷◌, ◌++◌, Text, is_empty, if◌then◌else◌}

pub record Ref : Type 0 where
  pub repo : Text
  pub tag : Text
  pub digest : Text

-- String: repo[:tag][@digest].
unfoldable pub to_text : Ref → Text
to_text r =
    r.repo
    ++ ((if is_empty r.tag then [] else b':' ∷ r.tag)
        ++ (if is_empty r.digest then [] else b'@' ∷ r.digest))

abbrev pub pinned : Ref → Bool
pinned r = not (is_empty r.digest)
