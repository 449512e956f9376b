-- ===== src/Examples/Plans.antt =====
-- A deploy of one image into an environment with two occurrences of it.
use hoist.Prelude.{
  ℕ, ◌≡◌, ◌↔◌, ◌⊎◌, refl, true, false, [], ◌∷◌, ◌++◌, none, Text, codes, is_empty, text_lt,
}
use hoist.Image.Ref.{Ref, to_text}
use hoist.Image.Validate.{
  validate, repo_matches, repo_scan, repo_step, tag_matches, digest_matches, every,
}
use hoist.Image.Parse.{parse, parsed}
use hoist.Image.Parse.RoundTrip.{parse-to_text}
use hoist.Prelude.{All, some}
use hoist.Gitops.Choose.{Choice, choose_ref}
use hoist.Gitops.Choose.Carried.{Carries, choose_ref-Carries}
use hoist.Gitops.Types.{Occurrence, Repo, Edit, Plan, variant_deploy}
use hoist.Gitops.Prefix.{is_promotable, matches_prefix, ends_in_slash, at_boundary}
use hoist.Gitops.Prefix.Boundary.{matches_prefix_lem}
use hoist.Gitops.Editable.{Styles, unwritable, check_editable, written_error, style_error}
use hoist.Gitops.Order.{
  insert_by, sort_by, occurrence_less, sort_occurrences, sort_refs, all_occurrences,
  env_occurrences,
}
use hoist.Gitops.Deploy.{
  find_env, is_seen, deploy_loop, deploy_plan, has_some, deploy_into, build_deploy_plan,
}
use hoist.Gitops.Deploy.Exact.{Exact, build_deploy_plan-Exact}

matches_prefix_lem_example :
    (matches_prefix (codes "ghcr.io.evil/app") (codes "ghcr.io") ≡ true) ↔ (
      (is_empty (codes "ghcr.io") ≡ false)
      × ((rest : Text) × (codes "ghcr.io.evil/app" ≡ codes "ghcr.io" ++ rest)
          × ((ends_in_slash (codes "ghcr.io") ≡ true) ⊎ (at_boundary rest ≡ true))))
matches_prefix_lem_example = matches_prefix_lem (codes "ghcr.io.evil/app") (codes "ghcr.io")

abbrev pub styles : Styles
styles = record { double_quoted = 2; single_quoted = 4; literal = 8; folded = 16 }

abbrev pub image : Text → Ref
image tag = record {
  repo = codes "ghcr.io/example/app";
  tag = tag;
  digest = codes "sha256:0123456789abcdef0123456789abcdef0123456789abcdef0123456789abcdef";
}

abbrev pub occurrence : Text → ℕ → Occurrence
occurrence file line = record {
  file = file;
  doc = 0;
  line = line;
  col = 16;
  style = 0;
  kind = codes "Deployment";
  name = codes "app";
  container = codes "app";
  path = codes "spec.image";
  raw = codes "ghcr.io/example/app:v1";
  ref = image (codes "v1");
}

abbrev repo : Repo
repo = record {
  root = codes "/clone";
  apps_root = codes "apps";
  envs =
      (
        codes "staging",
        record {
          name = codes "staging";
          dir = codes "staging";
          families =
              (
                codes "app",
                record {
                  name = codes "app";
                  dir = codes "staging/app";
                  app = codes "app";
                  occurrences = occurrence (codes "b.yaml") 9 ∷ occurrence (codes "a.yaml") 4 ∷ [];
                },
              )
              ∷ [];
        },
      )
      ∷ [];
  apps = [];
  unmanaged = [];
}

abbrev edit_at : Text → ℕ → Edit
edit_at file line = record { occurrence = occurrence file line; new = image (codes "v2") }

abbrev plan : Plan
plan = record {
  variant = variant_deploy;
  source_env = codes "";
  target_env = codes "staging";
  edits = edit_at (codes "a.yaml") 4 ∷ edit_at (codes "b.yaml") 9 ∷ [];
  untouched = [];
  warnings = [];
  generated_at = 1;
}

build_deploy_plan-Exact_example :
    (validate (image (codes "v2")) ≡ none)
    × (is_empty (unwritable (image (codes "v2"))) ≡ true)
    × ((has_some (codes "ghcr.io/example/" ∷ []) ≡ false)
        ⊎ (is_promotable (codes "ghcr.io/example/app") (codes "ghcr.io/example/" ∷ []) ≡ true))
    × Exact styles (image (codes "v2")) (codes "staging") repo plan
unfolding validate repo_matches repo_scan repo_step tag_matches digest_matches every is_promotable
    matches_prefix ends_in_slash unwritable check_editable written_error style_error insert_by
    sort_by occurrence_less sort_occurrences sort_refs all_occurrences env_occurrences find_env
    is_seen deploy_loop deploy_plan deploy_into build_deploy_plan text_lt
build_deploy_plan-Exact_example =
    build_deploy_plan-Exact styles (image (codes "v2")) 1 repo (codes "staging")
      (codes "ghcr.io/example/" ∷ []) plan refl

parse-to_text_example : parse (to_text (image (codes "v2"))) ≡ parsed (image (codes "v2"))
unfolding validate repo_matches repo_scan repo_step tag_matches digest_matches every
parse-to_text_example = parse-to_text (image (codes "v2")) refl refl refl

abbrev newer : Occurrence
newer = record (occurrence (codes "c.yaml") 2) { ref = image (codes "v2") }

choose_ref-Carries_example :
    (c : Choice) × (choose_ref (occurrence (codes "a.yaml") 4 ∷ newer ∷ []) ≡ some c)
    × Carries (occurrence (codes "a.yaml") 4 ∷ newer ∷ []) c.chosen
    × (c.disagree ≡ false
        → All (λ x. to_text x.ref ≡ to_text c.chosen) (occurrence (codes "a.yaml") 4 ∷ newer ∷ []))
choose_ref-Carries_example = choose_ref-Carries (occurrence (codes "a.yaml") 4) (newer ∷ [])
