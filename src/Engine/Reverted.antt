-- ===== src/Engine/Reverted.antt =====
-- internal/engine/steps_review.go: mergeWasReverted.
use hoist.Prelude.{
  ◌≢◌, ◌≡◌, refl, Bool, true, false, not, [], ◌∷◌, Option, none, some, Text, codes, em_dash,
  is_empty, concat, if◌then◌else◌,
}
use hoist.Engine.Errors.{wrapped, ok}
use hoist.Engine.State.{Env}
use hoist.Engine.Action.{
  Action, pure, call, failing_as, with_state, and_then-eq-ok, on_error-eq-ok, call-eq-ok, ◌>>=◌,
}
use hoist.Engine.Remote.{Remote}
use hoist.Engine.OwnPr.{origin}

lost_text : Text → Text → Text → Text
lost_text merge_sha fact base_sha = concat (
    codes "this promotion's merge commit "
    ∷ merge_sha
    ∷ fact
    ∷ base_sha
    ∷ codes ") "
    ∷ em_dash
    ∷ codes
        " the target may have been reset or rebuilt outside hoist; a fresh promotion is needed, not a retry of this one"
    ∷ [])

module _ {W : Type 0} (remote : Remote W) where
  -- What a clone that lacks the merge shows: `what`, unless it is shallow.
  shallow_block : Text → Text → Text → Action W (Option Text)
  shallow_block merge_sha base_sha what = with_state λ s. do
    shallow ←
        failing_as
          (wrapped
            (concat (codes "checking whether " ∷ s.clone_dir ∷ codes " is a shallow clone: " ∷ [])))
          (call (remote.is_shallow s.clone_dir))
    pure (
        some (
          if not shallow
          then what
          else concat (
              s.clone_dir
              ∷ codes
                  " is a shallow clone, so it cannot show whether this promotion's merge commit "
              ∷ merge_sha
              ∷ codes " is still part of "
              ∷ s.base
              ∷ codes "'s history (origin is at "
              ∷ base_sha
              ∷ codes ") "
              ∷ em_dash
              ∷ codes
                  " run `git fetch --unshallow origin` in that clone and resume; nothing was reverted as far as hoist can tell"
              ∷ [])))

  judge_ancestor : Text → Text → Bool → Action W (Option Text)
  unfolding shallow_block lost_text
  judge_ancestor merge_sha base_sha true = pure none
  judge_ancestor merge_sha base_sha false = with_state λ s. do
    shallow_block merge_sha base_sha (
        lost_text merge_sha
          (concat
            (codes " is no longer part of " ∷ s.base ∷ codes "'s history (origin is now at " ∷ []))
          base_sha)

  judge_exists : Text → Text → Bool → Action W (Option Text)
  unfolding shallow_block lost_text judge_ancestor
  judge_exists merge_sha base_sha false = with_state λ s. do
    shallow_block merge_sha base_sha (
        lost_text merge_sha
          (concat (
            codes " is no longer resolvable in this clone (origin's "
            ∷ s.base
            ∷ codes " is now at "
            ∷ []))
          base_sha)
  judge_exists merge_sha base_sha true = with_state λ s. do
    is_part ←
        failing_as
          (wrapped (
            concat (
              codes "checking whether merge "
              ∷ merge_sha
              ∷ codes " is still part of "
              ∷ s.base
              ∷ codes "'s history: "
              ∷ [])))
          (call (remote.is_ancestor s.clone_dir merge_sha base_sha))
    judge_ancestor merge_sha base_sha is_part

  judge_tip : Text → Option Text → Action W (Option Text)
  unfolding judge_exists
  judge_tip merge_sha none = with_state λ s. do
    pure (
        some (
          concat (
            codes "origin's "
            ∷ s.base
            ∷ codes " branch no longer exists "
            ∷ em_dash
            ∷ codes " this promotion's merge cannot be verified; a fresh promotion is needed"
            ∷ [])))
  judge_tip merge_sha (some base_sha) = with_state λ s. do
    exists ←
        failing_as
          (wrapped (
            concat (
              codes "checking whether this clone has this promotion's merge commit "
              ∷ merge_sha
              ∷ codes ": "
              ∷ [])))
          (call (remote.object_exists s.clone_dir merge_sha))
    judge_exists merge_sha base_sha exists

  -- mergeWasReverted: the text of the block, if it was.
  unfoldable pub merge_was_reverted : Text → Action W (Option Text)
  unfolding judge_tip
  merge_was_reverted merge_sha = with_state λ s. do
    if is_empty merge_sha
        then pure (
            some (
              concat (
                codes "the forge reports this PR as merged but recorded no merge commit sha "
                ∷ em_dash
                ∷ codes " "
                ∷ s.base
                ∷ codes "'s history cannot be verified against it; a fresh promotion is needed"
                ∷ [])))
        else (do
          tip ←
              failing_as
                (wrapped (
                  concat (
                    codes "fetching origin/"
                    ∷ s.base
                    ∷ codes " to verify the merge still holds: "
                    ∷ [])))
                (call (remote.fetch_branch s.clone_dir origin s.base))
          judge_tip merge_sha tip)

  -- What a merge that still holds rests on: the tip of the base, asked of origin just now, and the
  -- clone's answers after that.
  pub record Holds (merge_sha : Text) (env env' : Env W) : Type 0 where
    pub tip : Text
    pub fetched : W
    pub checked : W
    pub tip_fetched :
        remote.fetch_branch env.state.clone_dir origin env.state.base env.world
        ≡ (ok (some tip), fetched)
    pub merge_present :
        remote.object_exists env.state.clone_dir merge_sha fetched ≡ (ok true, checked)
    pub merge_in_tip :
        remote.is_ancestor env.state.clone_dir merge_sha tip checked ≡ (ok true, env'.world)
    pub state_kept : env'.state ≡ env.state

  shallow_block-blocks :
      (merge_sha base_sha what : Text) (env env' : Env W)
      → shallow_block merge_sha base_sha what env ≢ (ok none, env')
  unfolding shallow_block
  shallow_block-blocks merge_sha base_sha what env env' h =
      let (shallow, mid, asked, done) = and_then-eq-ok _ _ h in cc done

  judge_ancestor-none :
      (merge_sha base_sha : Text) (b : Bool) (env env' : Env W)
      → judge_ancestor merge_sha base_sha b env ≡ (ok none, env')
      → (b ≡ true) × (env ≡ env')
  unfolding judge_ancestor
  judge_ancestor-none merge_sha base_sha true env env' h = (refl, cc h)
  judge_ancestor-none merge_sha base_sha false env env' h =
      absurd (shallow_block-blocks merge_sha base_sha _ env env' h)

  judge_exists-none :
      (merge_sha base_sha : Text) (b : Bool) (env env' : Env W)
      → judge_exists merge_sha base_sha b env ≡ (ok none, env')
      → (b ≡ true)
        × (remote.is_ancestor env.state.clone_dir merge_sha base_sha env.world
            ≡ (ok true, env'.world))
        × (env'.state ≡ env.state)
  unfolding judge_exists
  judge_exists-none merge_sha base_sha true env env' h =
      let (part, mid, asked, done) = and_then-eq-ok _ _ h in
      let (is_part, same) = judge_ancestor-none merge_sha base_sha part mid env' done in
      let (answer, moved) =
        call-eq-ok (remote.is_ancestor env.state.clone_dir merge_sha base_sha) env
          (on_error-eq-ok _ _ asked) in
      (refl, cc (answer, same, is_part), cc (moved, same))
  judge_exists-none merge_sha base_sha false env env' h =
      absurd (shallow_block-blocks merge_sha base_sha _ env env' h)

  judge_tip-none :
      (merge_sha : Text) (tip : Option Text) (env env' : Env W)
      → judge_tip merge_sha tip env ≡ (ok none, env')
      → (base_sha : Text) × (checked : W) × (tip ≡ some base_sha)
        × (remote.object_exists env.state.clone_dir merge_sha env.world ≡ (ok true, checked))
        × (remote.is_ancestor env.state.clone_dir merge_sha base_sha checked
            ≡ (ok true, env'.world))
        × (env'.state ≡ env.state)
  unfolding judge_tip
  judge_tip-none merge_sha none env env' h = absurd (cc h)
  judge_tip-none merge_sha (some base_sha) env env' h =
      let (there, mid, asked, done) = and_then-eq-ok _ _ h in
      let (is_there, part, moved) = judge_exists-none merge_sha base_sha there mid env' done in
      let (answer, moved') =
        call-eq-ok (remote.object_exists env.state.clone_dir merge_sha) env
          (on_error-eq-ok _ _ asked) in
      (base_sha, mid.world, refl, cc (answer, is_there), cc (part, moved'), cc (moved, moved'))

  pub merge_was_reverted-none :
      (merge_sha : Text) (env env' : Env W)
      → merge_was_reverted merge_sha env ≡ (ok none, env')
      → (is_empty merge_sha ≡ false) × Holds merge_sha env env'
  unfolding merge_was_reverted
  merge_was_reverted-none [] env env' h = absurd (cc h)
  merge_was_reverted-none (c ∷ sha) env env' h =
      let (found, mid, asked, done) = and_then-eq-ok _ _ h in
      let (tip, checked, is_tip, there, part, moved) =
        judge_tip-none (c ∷ sha) found mid env' done in
      let (answer, moved') =
        call-eq-ok (remote.fetch_branch env.state.clone_dir origin env.state.base) env
          (on_error-eq-ok _ _ asked) in
      (
        refl,
        record {
          tip = tip;
          fetched = mid.world;
          checked = checked;
          tip_fetched = cc (answer, is_tip);
          merge_present = cc (there, moved');
          merge_in_tip = cc (part, moved');
          state_kept = cc (moved, moved');
        },
      )
