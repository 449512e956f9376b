-- ===== src/Resolve/Repo/Origin.antt =====
-- Where the reference of a resolution comes from.
use hoist.Prelude.{
  ◌≡◌, refl, sym, ap, ◌∙◌, ◌⊎◌, inl, inr, true, false, not, List, [], ◌∷◌, Option, none, some, Text,
  text_eq, is_empty, if_elim, codes,
}
use mathlib.Core.Path.{subst}
use mathlib.Core.List.{Memᴰ}
use hoist.Redact.{Registry}
use hoist.Image.Ref.{Ref}
use hoist.Gitops.Types.{Occurrence}
use hoist.Gitops.Choose.{Choice}
use hoist.Gitops.Choose.Carried.{Carries, choose_ref-Carries}
use hoist.Gitops.Promote.{lookup}
use hoist.Resolve.{
  RunningImage, Answer, answered, failed, ImageRegistry, for_repo, Source, source_pods,
  source_manifest, source_registry, source_override,
}
use hoist.Resolve.Pods.{Pick}
use hoist.Resolve.Pods.Running.{Runs, choose_pods-Accounts}
use hoist.Resolve.Repo.{
  Resolution, Progress, with_tag, consult, head_answer, ask_head, consult_registry, consult_source,
  consult_all, picked, pods_of, conclude, resolve_by, first_tag, tag_to_write, resolve_chosen,
  resolve_repo, start,
}

module _ (repo tag : Text) (reg : ImageRegistry) (pods manifest : Text) where
  -- The source that is named gives this digest.
  abbrev Told : Source → Text → Type 0
  Told source digest =
      ((source ≡ source_pods) × (digest ≡ pods))
      ⊎ (((source ≡ source_manifest) × (digest ≡ manifest))
          ⊎ ((source ≡ source_registry)
              × ((head : Ref → Answer Text) × (for_repo reg repo ≡ some head)
                  × (head (with_tag repo tag []) ≡ answered digest))))

  abbrev Known : Progress → Type 0
  Known g = (is_empty g.chosen ≡ true) ⊎ Told g.source g.chosen

  consult-Known :
      (digest : Text) (source : Source) (detail missing : Text) (g : Progress)
      → Told source digest
      → Known g
      → Known (consult repo tag digest source detail missing g)
  unfolding consult
  consult-Known digest source detail missing g told k =
      if_elim Known (is_empty digest) (λ _. k)
        (λ _.
          if_elim Known (is_empty g.chosen) (λ _. inr told)
            (λ _. if_elim Known (not (text_eq digest g.chosen)) (λ _. k) (λ _. k)))

  ask_head-Known :
      (o : Option (Ref → Answer Text)) (g : Progress)
      → for_repo reg repo ≡ o
      → Known g
      → Known (ask_head repo tag o g)
  ask_head-Known none g e k = k
  ask_head-Known (some head) g e k = answer (head (with_tag repo tag [])) refl
    where
      answer :
          (a : Answer Text) → head (with_tag repo tag []) ≡ a → Known (head_answer repo tag a g)
      answer (failed why) h = k
      answer (answered d) h = inr (inr (inr (refl, (head, e, h))))

  consult_registry-Known : (g : Progress) → Known g → Known (consult_registry repo tag reg g)
  unfolding consult_registry
  consult_registry-Known g k =
      if_elim Known (not (is_empty g.chosen)) (λ _. k)
        (λ _.
          if_elim Known (is_empty tag) (λ _. k) (λ _. ask_head-Known (for_repo reg repo) g refl k))

  consult_all-Known :
      (detail : Text) (order : List Source) (g : Progress)
      → Known g
      → Known (consult_all repo tag reg pods detail manifest order g)
  unfolding consult_all consult_source
  consult_all-Known detail [] g k = k
  consult_all-Known detail (s ∷ order) g k = consult_all-Known detail order _ (
      if_elim Known (text_eq s source_pods)
        (λ _.
          consult-Known pods source_pods detail (codes "no running pods") g (inl (refl, refl)) k)
        (λ _.
          if_elim Known (text_eq s source_manifest)
            (λ _.
              consult-Known manifest source_manifest (codes "pinned in the manifest")
                (codes "manifest is not pinned") g (inr (inl (refl, refl))) k)
            (λ _.
              if_elim Known (text_eq s source_registry) (λ _. consult_registry-Known g k)
                (λ _. k))))

  -- A conclusion with a digest.
  abbrev Concluded : Resolution → Type 0
  Concluded q =
      is_empty q.ref.digest ≡ false
      → (is_empty tag ≡ false)
        × (q.ref ≡ with_tag repo tag q.ref.digest)
        × Told q.source q.ref.digest

  conclude-Concluded :
      (registered : Registry) (namespace : Text) (occ : List Occurrence)
      (running : List RunningImage) (pick : Pick) (g : Progress)
      → Known g
      → Concluded (conclude registered namespace repo occ running pick manifest tag g)
  unfolding conclude
  conclude-Concluded registered namespace occ running pick g k =
      if_elim Concluded (is_empty g.chosen) (λ _ h. absurd (cc h))
        (λ some_digest.
          if_elim Concluded (is_empty tag) (λ _ h. absurd (cc h))
            (λ some_tag h. (some_tag, refl, known k some_digest)))
    where
      known : Known g → is_empty g.chosen ≡ false → Told g.source g.chosen
      known (inl e) n = absurd (cc (e, n))
      known (inr t) n = t

-- Where the reference of a resolution comes from when no override is given.
pub record Found (reg : ImageRegistry) (repo : Text) (occ : List Occurrence)
    (running : List RunningImage) (r : Resolution) : Type 0 where
  pub of_repo : r.ref.repo ≡ repo
  pub some_tag : is_empty r.ref.tag ≡ false
  pub tag_stands : (o : Occurrence) × Memᴰ o occ × (o.ref.tag ≡ r.ref.tag)
  pub digest_given :
      ((r.source ≡ source_pods) × Runs r.ref.digest running)
      ⊎ (((r.source ≡ source_manifest)
            × ((o : Occurrence) × Memᴰ o occ × (o.ref.digest ≡ r.ref.digest)))
          ⊎ ((r.source ≡ source_registry)
              × ((head : Ref → Answer Text) × (for_repo reg repo ≡ some head)
                  × (head (with_tag repo r.ref.tag []) ≡ answered r.ref.digest))))

abbrev pub Origin :
    ImageRegistry
    → Text
    → List Occurrence
    → List RunningImage
    → List (Text × Ref)
    → Resolution
    → Type 0
Origin reg repo occ running overrides r =
    ((lookup repo overrides ≡ some r.ref) × (r.source ≡ source_override))
    ⊎ Found reg repo occ running r

first_tag-stands :
    (occ : List Occurrence)
    → is_empty (first_tag occ) ≡ false
    → (o : Occurrence) × Memᴰ o occ × (o.ref.tag ≡ first_tag occ)
unfolding first_tag
first_tag-stands [] h = absurd (cc h)
first_tag-stands (o ∷ os) h =
    if_elim (λ t. is_empty t ≡ false → (x : Occurrence) × Memᴰ x (o ∷ os) × (x.ref.tag ≡ t))
      (is_empty o.ref.tag) (λ _ k. let (x, m, e) = first_tag-stands os k in (x, Memᴰ.tail m, e))
      (λ _ k. (o, Memᴰ.head refl, refl)) h

module _ (registered : Registry) (namespace repo : Text) (occ : List Occurrence)
    (running : List RunningImage) where
  tag_to_write-stands :
      (c : Ref)
      → Carries occ c
      → is_empty (tag_to_write registered namespace repo occ running c) ≡ false
      → (o : Occurrence) × Memᴰ o occ
        × (o.ref.tag ≡ tag_to_write registered namespace repo occ running c)
  tag_to_write-stands c carried h =
      if_elim (λ t. is_empty t ≡ false → (o : Occurrence) × Memᴰ o occ × (o.ref.tag ≡ t))
        (is_empty c.tag) (λ _ k. first_tag-stands occ k)
        (λ _ k. (carried.0, carried.1, ap (λ (x : Ref). x.tag) carried.2)) h

pods_of-Runs :
    (registered : Registry) (namespace repo : Text) (occ : List Occurrence)
    (running : List RunningImage) (manifest : Text)
    → is_empty (pods_of registered namespace repo occ running manifest).digest ≡ false
    → Runs (pods_of registered namespace repo occ running manifest).digest running
unfolding pods_of
pods_of-Runs registered namespace repo occ [] manifest h = absurd (cc h)
pods_of-Runs registered namespace repo occ (x ∷ xs) manifest h =
    let (p, e, a) = choose_pods-Accounts registered namespace repo occ x xs manifest in
    subst (λ o. Runs (picked o).digest (x ∷ xs)) (sym e) a.runs

module _ (registered : Registry) (namespace repo : Text) (occ : List Occurrence)
    (running : List RunningImage) (reg : ImageRegistry) where
  concluded-Found :
      (c : Ref) (q : Resolution)
      → Carries occ c
      → is_empty q.ref.digest ≡ false
      → is_empty (tag_to_write registered namespace repo occ running c) ≡ false
      → q.ref ≡ with_tag repo (tag_to_write registered namespace repo occ running c) q.ref.digest
      → Told repo
          (tag_to_write registered namespace repo occ running c)
          reg
          (pods_of registered namespace repo occ running c.digest).digest
          c.digest
          q.source
          q.ref.digest
      → Found reg repo occ running q
  concluded-Found c q carried some_digest some_tag e told =
      let same_tag : q.ref.tag ≡ tag_to_write registered namespace repo occ running c =
        ap (λ (x : Ref). x.tag) e in
      let (o, m, at_o) =
        tag_to_write-stands registered namespace repo occ running c carried some_tag in
      record {
        of_repo = ap (λ (x : Ref). x.repo) e;
        some_tag = ap is_empty same_tag ∙ some_tag;
        tag_stands = (o, m, at_o ∙ sym same_tag);
        digest_given = given same_tag told;
      }
    where
      given :
          q.ref.tag ≡ tag_to_write registered namespace repo occ running c
          → Told repo
              (tag_to_write registered namespace repo occ running c)
              reg
              (pods_of registered namespace repo occ running c.digest).digest
              c.digest
              q.source
              q.ref.digest
          → ((q.source ≡ source_pods) × Runs q.ref.digest running)
            ⊎ (((q.source ≡ source_manifest)
                  × ((o : Occurrence) × Memᴰ o occ × (o.ref.digest ≡ q.ref.digest)))
                ⊎ ((q.source ≡ source_registry)
                    × ((head : Ref → Answer Text) × (for_repo reg repo ≡ some head)
                        × (head (with_tag repo q.ref.tag []) ≡ answered q.ref.digest))))
      given same (inl (s, d)) = inl (
        s,
        subst (λ t. Runs t running) (sym d)
            (pods_of-Runs registered namespace repo occ running c.digest
              (sym (ap is_empty d) ∙ some_digest)),
      )
      given same (inr (inl (s, d))) =
          inr (inl (s, (carried.0, carried.1, ap (λ (x : Ref). x.digest) carried.2 ∙ sym d)))
      given same (inr (inr (s, (head, f, a)))) =
          inr (inr (s, (head, f, ap (λ t. head (with_tag repo t [])) same ∙ a)))

-- For an image repository with an occurrence there is always a resolution. Where it has a digest, its
-- reference is the caller's override for that repository; or it names the repository with a tag that
-- stands at one of its occurrences, which is never empty, and its digest is what the source it names
-- gives: one that a container runs, one that an occurrence pins, or the registry's answer for that
-- tag.
pub resolve_repo-Origin :
    (registered : Registry) (namespace repo : Text) (o : Occurrence) (os : List Occurrence)
    (running : List RunningImage) (reg : ImageRegistry) (order : List Source)
    (overrides : List (Text × Ref))
    → (r : Resolution) × (resolve_repo registered namespace repo
          (o ∷ os)
          running
          reg
          order
          overrides
        ≡ some r)
      × (is_empty r.ref.digest ≡ false → Origin reg repo (o ∷ os) running overrides r)
unfolding resolve_repo resolve_chosen
resolve_repo-Origin registered namespace repo o os running reg order overrides =
    let (c, e, carried, _) = choose_ref-Carries o os in
    (
      resolve_by registered namespace repo (o ∷ os) running reg order (lookup repo overrides)
          (pods_for c) c.chosen.digest (tag_for c),
      ap
          (resolve_chosen registered namespace repo (o ∷ os) running reg order
            (lookup repo overrides))
          e,
      by_override c carried (lookup repo overrides) refl,
    )
  where
    pods_for : Choice → Pick
    pods_for c = pods_of registered namespace repo (o ∷ os) running c.chosen.digest

    tag_for : Choice → Text
    tag_for c = tag_to_write registered namespace repo (o ∷ os) running c.chosen

    by_override :
        (c : Choice)
        → Carries (o ∷ os) c.chosen
        → (ov : Option Ref) → lookup repo overrides ≡ ov
        → is_empty
            (resolve_by registered namespace repo
              (o ∷ os)
              running
              reg
              order
              ov
              (pods_for c)
              c.chosen.digest
              (tag_for c)).ref.digest
          ≡ false
        → Origin reg repo (o ∷ os) running overrides (
            resolve_by registered namespace repo
              (o ∷ os)
              running
              reg
              order
              ov
              (pods_for c)
              c.chosen.digest
              (tag_for c))
    by_override c carried (some ov) e h = inl (e, refl)
    by_override c carried none e h =
        let pods = pods_for c in
        let known =
          consult_all-Known repo (tag_for c) reg pods.digest c.chosen.digest pods.detail order start
            (inl refl) in
        let (some_tag, same, told) =
          conclude-Concluded repo (tag_for c) reg pods.digest c.chosen.digest registered namespace
            (o ∷ os) running pods
            (consult_all repo (tag_for c) reg pods.digest pods.detail c.chosen.digest order start)
            known h in
        inr (
          concluded-Found registered namespace repo (o ∷ os) running reg c.chosen _ carried h
            some_tag same told)
