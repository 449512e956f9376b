-- ===== src/Engine/Identity.antt =====
-- internal/engine/identity.go: how a promotion is found again.
use hoist.Prelude.{◌++◌, Text, codes}

unfoldable pub branch_name : Text → Text → Text
branch_name target_env id = codes "hoist/" ++ (target_env ++ (codes "/" ++ id))

unfoldable pub marker : Text → Text
marker id = codes "<!-- hoist:id=" ++ (id ++ codes " -->")

unfoldable pub commit_trailer : Text → Text
commit_trailer id = codes "hoist-id: " ++ id
