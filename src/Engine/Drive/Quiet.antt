-- ===== src/Engine/Drive/Quiet.antt =====
-- A poll at which nothing has changed leaves the history as it was.
use hoist.Prelude.{
  ℕ, zero, suc, ◌+◌, ◌≡◌, refl, sym, ◌∙◌, ap, true, false, List, [], ◌∷◌, ◌++◌, Option, none, some,
  Text, codes, is_empty,
}
use mathlib.Core.Path.{subst}
use hoist.Redact.{strings}
use hoist.Engine.StepName.{StepName}
use hoist.Engine.Errors.{ok}
use hoist.Engine.State.{
  HistoryEntry, PromotionState, Observation, cleanly_satisfied, LandingWalk, Env, Step, Runtime,
}
use hoist.Engine.History.{put_entry, append_history}
use hoist.Engine.History.Repeats.{
  Said, went_through, stopped_at, passed, record_said, WellSaid, record_said-again,
}
use hoist.Engine.Landing.{with_landing_walk}
use hoist.Engine.Drive.Rounds.{
  drive_from-eq, after_observe-blocked, after_observe-waiting, after_observe-satisfied,
}
use hoist.Engine.Drive.{
  Save, Outcome, finished, proceed, follow, set_phase, record_stop, save_if_set, pass, drive_from,
  drive_status, probe_index,
}

-- A time before the others.
abbrev at_first : ℕ → (ℕ → ℕ) → ℕ → ℕ
at_first t times zero = t
at_first t times (suc i) = times i

module _ {W : Type 0} (rt : Runtime W) (saved : W → W) where
  -- With no save a world stays as it is; a save succeeds and takes it to the saved one.
  abbrev pub Saving : Save W → Type 0
  Saving none = (w : W) → saved w ≡ w
  Saving (some f) = (env : Env W) → f env ≡ (none, record env { world = saved env.world })

  save_if_set-saved :
      (save : Save W)
      → Saving save
      → (env : Env W) → save_if_set rt save env ≡ record env { world = saved env.world }
  unfolding save_if_set
  save_if_set-saved none k env = ap (λ w. record env { world = w }) (sym (k env.world))
  save_if_set-saved (some f) k env = rw (k env) refl

  pass-Saving :
      (save : Save W)
      → Saving save
      → (name : StepName) (obs : Observation) (detail : Text) (env : Env W)
      → let kept = set_phase name (append_history rt name detail env) in
        pass rt save name obs detail env ≡ (
          proceed (record { step = name; observation = obs }),
          record kept { world = saved kept.world },
        )
  unfolding pass append_history
  pass-Saving none k name obs detail env =
      ap
        (λ w. (
          proceed (record { step = name; observation = obs }),
          record (set_phase name (append_history rt name detail env)) { world = w },
        ))
        (sym (k env.world))
  pass-Saving (some f) k name obs detail env =
      rw (k (set_phase name (append_history rt name detail env))) refl

module _ {W : Type 0} (rt : Runtime W) (save : Save W) (saved : W → W) (s : PromotionState) where
  -- The save, where there is one, succeeds, and takes a world to the saved one.
  abbrev pub Saves : Type 0
  Saves = Saving rt saved save

  -- The promotion with another phase and history, in a world of a walk.
  abbrev pub at_world : W → Option LandingWalk → StepName → List HistoryEntry → Env W
  at_world w memo phase h = record {
    world = w;
    walk = memo;
    state = record s { phase = phase; history = h };
  }

  -- Asked about this promotion in the world `w`, whatever its phase, its history and the walk's memo,
  -- the step observes this and leads to the world `v`; it may set the memo, and writes nothing that
  -- the state does not hold already.
  abbrev pub Fixed : Step W → W → Observation → W → Type 0
  Fixed step w obs v =
      (memo : Option LandingWalk) (phase : StepName) (h : List HistoryEntry)
      → (memo' : Option LandingWalk) × (step.observe (at_world w memo phase h)
          ≡ (ok obs, at_world v memo' phase h))

  abbrev pub clean : W → Text → Text
  clean w detail = strings (rt.registered w) detail []

  -- What a walk over such steps from the world `w` has to say.
  pub data Says : W → List (Step W) → Said → Type 0 where
    at_end : {w : W} → Says w [] went_through
    at_block :
        {w : W} {step : Step W} {rest : List (Step W)} (obs : Observation) (v : W)
        → rt.cancelled w ≡ none
        → Fixed step w obs v
        → is_empty obs.blocked ≡ false
        → Says w (step ∷ rest) (stopped_at step.name (clean v (codes "blocked: " ++ obs.blocked)))
    at_wait :
        {w : W} {step : Step W} {rest : List (Step W)} (obs : Observation) (v : W)
        → rt.cancelled w ≡ none
        → Fixed step w obs v
        → is_empty obs.blocked ≡ true
        → obs.waiting ≡ true
        → Says w (step ∷ rest) (stopped_at step.name (clean v (codes "waiting: " ++ obs.detail)))
    on :
        {w : W} {step : Step W} {rest : List (Step W)} {said : Said} (obs : Observation) (v : W)
        → rt.cancelled w ≡ none
        → Fixed step w obs v
        → cleanly_satisfied obs ≡ true
        → Says (saved v) rest said
        → Says w
            (step ∷ rest)
            (passed step.name (clean v (codes "already satisfied: " ++ obs.detail)) said)

  -- The walk ends with what it had to say recorded, and with nothing else changed of the promotion
  -- but the phase.
  abbrev Ends : Said → List HistoryEntry → Outcome × Env W → Type 0
  Ends said h o =
      (v : W) × (memo : Option LandingWalk) × (phase : StepName) × (times : ℕ → ℕ) × (o.1
        ≡ at_world v memo phase (record_said times said h))

  record_stop-saved :
      Saves
      → (name : StepName) (detail : Text) (v : W) (memo : Option LandingWalk) (phase : StepName)
        (h : List HistoryEntry)
      → record_stop rt save name detail (at_world v memo phase h)
        ≡ at_world (saved v) memo name (put_entry name (rt.now v) (clean v detail) h)
  unfolding record_stop append_history
  record_stop-saved k name detail v memo phase h =
      save_if_set-saved rt saved save k
        (at_world v memo name (put_entry name (rt.now v) (clean v detail) h))

  pass-saved :
      Saves
      → (name : StepName) (obs : Observation) (detail : Text) (v : W) (memo : Option LandingWalk)
        (phase : StepName) (h : List HistoryEntry)
      → pass rt save name obs detail (at_world v memo phase h) ≡ (
        proceed (record { step = name; observation = obs }),
        at_world (saved v) memo name (put_entry name (rt.now v) (clean v detail) h),
      )
  unfolding append_history
  pass-saved k name obs detail v memo phase h =
      pass-Saving rt saved save k name obs detail (at_world v memo phase h)

  stop-Ends :
      Saves
      → (name : StepName) (detail : Text) (o : Outcome) (v : W) (memo : Option LandingWalk)
        (phase : StepName) (h : List HistoryEntry)
      → Ends
          (stopped_at name (clean v detail))
          h
          (o, record_stop rt save name detail (at_world v memo phase h))
  stop-Ends k name detail o v memo phase h =
      (saved v, memo, name, (λ i. rt.now v), record_stop-saved k name detail v memo phase h)

  drive_from-Ends :
      Saves
      → (i : ℕ) {w : W} {steps : List (Step W)} {said : Said} (memo : Option LandingWalk)
        (phase : StepName) (h : List HistoryEntry)
      → Says w steps said
      → Ends said h (drive_from rt save none i steps (at_world w memo phase h))
  unfolding drive_from
  drive_from-Ends k i {w = w} memo phase h at_end = (w, memo, phase, (λ i. 0), refl)
  drive_from-Ends k i {w = w} memo phase h (at_block {step = step} {rest = rest} obs v live f b) =
      let (memo', e) = f memo phase h in
      rw (drive_from-eq rt save i step rest obs _ _ live e) (
        rw (after_observe-blocked rt save step obs (at_world v memo' phase h) b)
          (stop-Ends k step.name (codes "blocked: " ++ obs.blocked) finished v memo' phase h))
  drive_from-Ends k i {w = w} memo phase h (at_wait {step = step} {rest = rest} obs v live f b a) =
      let (memo', e) = f memo phase h in
      rw (drive_from-eq rt save i step rest obs _ _ live e) (
        rw (after_observe-waiting rt save step obs (at_world v memo' phase h) b a)
          (stop-Ends k step.name (codes "waiting: " ++ obs.detail) finished v memo' phase h))
  drive_from-Ends k i {w = w} memo phase h
        (on {step = step} {rest = rest} {said = said} obs v live f c says) =
      let (memo', e) = f memo phase h in
      let detail = codes "already satisfied: " ++ obs.detail in
      let h' = put_entry step.name (rt.now v) (clean v detail) h in
      let (u, m, p, times, ends) = drive_from-Ends k (i + 1) memo' step.name h' says in
      (
        u,
        m,
        p,
        at_first (rt.now v) times,
        ap (λ x. x.1)
              (drive_from-eq rt save i step rest obs _ _ live e
                ∙ ap (λ x. follow x (λ env'. drive_from rt save none (i + 1) rest env'))
                    (after_observe-satisfied rt save step obs (at_world v memo' phase h) c
                      ∙ pass-saved k step.name obs detail v memo' phase h))
            ∙ ends,
      )

  drive_status-Ends :
      Saves
      → {w : W} {steps : List (Step W)} {said : Said} (memo : Option LandingWalk) (phase : StepName)
        (h : List HistoryEntry)
      → Says w steps said
      → probe_index steps phase ≡ none
      → Ends said h (drive_status rt save steps (at_world w memo phase h))
  unfolding drive_status with_landing_walk
  drive_status-Ends k memo phase h says p =
      rw (p, drive_status) (drive_from-Ends k 0 (some none) phase h says)

  -- Two polls in a row of a promotion, the second in whatever world and at whatever times: where the
  -- steps of both, up to the one that stops the walk, observe the same of this promotion in a live
  -- context, whatever its phase, its history and the walk's memo, where they write nothing new into
  -- its state and none has to act, the second leaves the history exactly as the first left it. Each
  -- save succeeds, the steps have different names, the redacted details still begin as they were
  -- written, and neither poll probes the merged step.
  pub drive_status-quiet :
      Saves
      → {w : W} {steps : List (Step W)} {said : Said} (memo : Option LandingWalk)
      → Says w steps said
      → WellSaid said
      → probe_index steps s.phase ≡ none
      → let first = (drive_status rt save steps (record { world = w; walk = memo; state = s })).1 in
        (later : W)
        → Says later steps said
        → probe_index steps first.state.phase ≡ none
        → (drive_status rt save steps (record first { world = later })).1.state.history
          ≡ first.state.history
  drive_status-quiet k {w = w} {steps = steps} {said = said} memo says well p later again q =
      let (v, m, phase, times, first) = drive_status-Ends k memo s.phase s.history says p in
      let h = record_said times said s.history in
      let q' : probe_index steps phase ≡ none =
        subst (λ (e : Env W). probe_index steps e.state.phase ≡ none) first q in
      let (v', m', phase', times', second) = drive_status-Ends k m phase h again q' in
      ap (λ (e : Env W). (drive_status rt save steps (record e { world = later })).1.state.history)
        first
      ∙ (ap (λ (e : Env W). e.state.history) second
          ∙ (record_said-again times times' said s.history well
              ∙ sym (ap (λ (e : Env W). e.state.history) first)))
