-- ===== src/Examples/Resolutions.antt =====
-- The resolution of an image that two containers run at different digests.
use hoist.Prelude.{All, List, ◌≡◌, [], ◌∷◌, some, false, Text, codes, is_empty}
use hoist.Resolve.{
  RunningImage, ImageRegistry, answered, source_manifest, source_pods, source_registry,
}
use hoist.Resolve.Pods.{Pick, choose_pods}
use hoist.Resolve.Pods.Running.{Accounts, choose_pods-Accounts}
use hoist.Resolve.Repo.{Resolution, resolve_repo}
use hoist.Resolve.Repo.Origin.{Origin, resolve_repo-Origin}
use hoist.Resolve.Batch.{is_resolved, digests}
use hoist.Resolve.Batch.Writable.{Given, digests-Given}
use hoist.Examples.Plans.{image, occurrence}

abbrev app : Text
app = codes "ghcr.io/example/app"

abbrev container : Text → Text → RunningImage
container pod digest = record {
  pod = pod;
  container = codes "app";
  init = false;
  ref = record { repo = app; tag = []; digest = digest };
}

abbrev first_pod : RunningImage
first_pod = container (codes "app-1") (codes "sha256:aa")

abbrev second_pod : RunningImage
second_pod = container (codes "app-2") (codes "sha256:bb")

abbrev mirror : ImageRegistry
mirror = record {
  head = λ r. answered (codes "sha256:cc");
  per_repo = some (λ repo. some (λ r. answered (codes "sha256:dd")));
}

choose_pods-Accounts_example :
    (p : Pick) × (choose_pods []
        (codes "prod")
        app
        (occurrence (codes "p.yaml") 9 ∷ [])
        (first_pod ∷ second_pod ∷ [])
        (codes "sha256:bb")
      ≡ some p)
    × Accounts (codes "sha256:bb") (first_pod ∷ second_pod ∷ []) p
choose_pods-Accounts_example =
    choose_pods-Accounts [] (codes "prod") app (occurrence (codes "p.yaml") 9 ∷ []) first_pod
      (second_pod ∷ []) (codes "sha256:bb")

resolve_repo-Origin_example :
    (r : Resolution) × (resolve_repo []
        (codes "prod")
        app
        (occurrence (codes "p.yaml") 9 ∷ [])
        (first_pod ∷ second_pod ∷ [])
        mirror
        (source_pods ∷ source_manifest ∷ source_registry ∷ [])
        []
      ≡ some r)
    × (is_empty r.ref.digest ≡ false
        → Origin mirror app (occurrence (codes "p.yaml") 9 ∷ []) (first_pod ∷ second_pod ∷ []) [] r)
resolve_repo-Origin_example =
    resolve_repo-Origin [] (codes "prod") app (occurrence (codes "p.yaml") 9) []
      (first_pod ∷ second_pod ∷ []) mirror (source_pods ∷ source_manifest ∷ source_registry ∷ []) []

abbrev resolved_as : Text → Resolution
resolved_as tag = record {
  repo = app;
  ref = image tag;
  source = source_pods;
  detail = codes "1 running container agree";
  alternatives = [];
  warnings = [];
}

abbrev batch : List (Text × Resolution)
batch = (app, resolved_as (codes "v2")) ∷ (codes "ghcr.io/example/job", resolved_as []) ∷ []

digests-Given_example : All (Given batch) ((app, image (codes "v2")) ∷ [])
unfolding digests is_resolved
digests-Given_example = digests-Given batch
