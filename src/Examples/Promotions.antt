-- ===== src/Examples/Promotions.antt =====
-- A promotion of one image from staging, which runs v2, into prod, which runs v1.
use hoist.Prelude.{refl, [], ◌∷◌, Text, codes, text_lt, sort_texts}
use hoist.Image.Validate.{
  validate, repo_matches, repo_scan, repo_step, tag_matches, digest_matches, every,
}
use hoist.Gitops.Types.{Occurrence, Env, Repo, Plan, variant_promote}
use hoist.Gitops.Prefix.{is_promotable, matches_prefix, ends_in_slash}
use hoist.Gitops.Editable.{unwritable, check_editable, written_error, style_error}
use hoist.Gitops.Order.{
  insert_by, sort_by, occurrence_less, sort_occurrences, sort_refs, all_occurrences,
  env_occurrences,
}
use hoist.Gitops.Choose.{choose_ref, tally, count_ref, choose_tally}
use hoist.Gitops.Deploy.{find_env, is_seen}
use hoist.Gitops.Promote.{
  build_plan_with, source_repos, of_repo, lookup, choose_for, plan_repos, write_repo, edits_to,
  untouched_refs, plan_between,
}
use hoist.Gitops.Promote.Warnings.{target_newer_warning, timestamp_tag, newer_than, missing_warning}
use hoist.Gitops.Promote.Sound.{Sound, build_plan_with-Sound}
use hoist.Examples.Plans.{styles, image, occurrence}

abbrev env_of : Text → Occurrence → Env
env_of name o = record {
  name = name;
  dir = name;
  families =
      (
        codes "app",
        record { name = codes "app"; dir = name; app = codes "app"; occurrences = o ∷ [] },
      )
      ∷ [];
}

abbrev clone : Repo
clone = record {
  root = codes "/clone";
  apps_root = codes "apps";
  envs =
      (
        codes "staging",
        env_of (codes "staging")
            (record (occurrence (codes "s.yaml") 4) { ref = image (codes "v2") }),
      )
      ∷ (codes "prod", env_of (codes "prod") (occurrence (codes "p.yaml") 9))
      ∷ [];
  apps = [];
  unmanaged = [];
}

abbrev promotion : Plan
promotion = record {
  variant = variant_promote;
  source_env = codes "staging";
  target_env = codes "prod";
  edits = record { occurrence = occurrence (codes "p.yaml") 9; new = image (codes "v2") } ∷ [];
  untouched = [];
  warnings = [];
  generated_at = 1;
}

build_plan_with-Sound_example :
    Sound styles (codes "staging") (codes "prod") (codes "ghcr.io/example/" ∷ []) [] clone promotion
unfolding build_plan_with source_repos of_repo lookup choose_for plan_repos write_repo edits_to
    untouched_refs plan_between choose_ref tally count_ref choose_tally target_newer_warning
    timestamp_tag newer_than missing_warning unwritable check_editable written_error style_error
    validate repo_matches repo_scan repo_step tag_matches digest_matches every is_promotable
    matches_prefix ends_in_slash text_lt sort_texts insert_by sort_by occurrence_less
    sort_occurrences sort_refs all_occurrences env_occurrences find_env is_seen
build_plan_with-Sound_example =
    build_plan_with-Sound styles 1 clone (codes "staging") (codes "prod")
      (codes "ghcr.io/example/" ∷ []) [] [] promotion refl
