-- ===== src/Resolve/Repo.antt =====
-- pkg/resolve/resolve.go: resolveRepo, one image repository asked of each source in order.
pub mod Origin
use hoist.Prelude.{
  em_dash, ℕ, Bool, true, false, not, ◌&&◌, ◌||◌, List, [], ◌∷◌, ◌++◌, Option, none, some, Text,
  codes, text_eq, is_empty, join, concat, if◌then◌else◌,
}
use hoist.Redact.{Registry, strings}
use hoist.Image.Ref.{Ref}
use hoist.Gitops.Types.{Occurrence, Warning}
use hoist.Gitops.Choose.{Choice, choose_ref}
use hoist.Gitops.Promote.{lookup}
use hoist.Resolve.{
  RunningImage, Answer, answered, failed, ImageRegistry, for_repo, Source, source_pods,
  source_manifest, source_registry, source_override,
}
use hoist.Resolve.Pods.{Pick, choose_pods}

pub record Resolution : Type 0 where
  pub repo : Text
  pub ref : Ref
  pub source : Source
  pub detail : Text
  pub alternatives : List Ref
  pub warnings : List Warning

abbrev pub zero_ref : Ref
zero_ref = record { repo = []; tag = []; digest = [] }

-- ==, on image.Ref.
abbrev same_ref : Ref → Ref → Bool
same_ref a b = text_eq a.repo b.repo && (text_eq a.tag b.tag && text_eq a.digest b.digest)

-- appendRef.
unfoldable pub append_ref : List Ref → Ref → List Ref
append_ref [] r = r ∷ []
append_ref (have ∷ refs) r = elim (same_ref have r) [
  | true ↦ have ∷ refs
  | false ↦ have ∷ append_ref refs r
]

unfoldable pub running_vs_manifest :
    Registry → Text → Text → List Occurrence → Text → Text → Source → Warning
unfolding strings
running_vs_manifest registered namespace repo occ manifest pods chosen = record {
  code = codes "running-vs-manifest";
  message =
      strings registered
        (concat (
          namespace
          ∷ codes ": "
          ∷ repo
          ∷ codes " manifests pin "
          ∷ manifest
          ∷ codes " but its pods run "
          ∷ pods
          ∷ codes " "
          ∷ em_dash
          ∷ codes " a rollout may be incomplete, or a bump has not synced; "
          ∷ using
          ∷ []))
        [];
  occurrences = occ;
}
  where
    using : Text
    using =
        if text_eq chosen source_manifest
        then codes "using the manifest pin; the running digest is listed as an alternative"
        else if text_eq chosen source_override
        then codes "using the caller-supplied digest; both are listed as alternatives"
        else codes "using the running digest; the manifest pin is listed as an alternative"

-- The tag to write: the manifest's, or else the first tag among the occurrences.
unfoldable pub first_tag : List Occurrence → Text
first_tag [] = []
first_tag (o ∷ os) = if is_empty o.ref.tag then first_tag os else o.ref.tag

-- What the loop over the sources changes.
pub record Progress : Type 0 where
  pub chosen : Text
  pub source : Source
  pub detail : Text
  pub notes : List Text
  pub alternatives : List Ref

abbrev pub note : Text → Progress → Progress
note n g = record g { notes = g.notes ++ (n ∷ []) }

abbrev pub choose : Text → Source → Text → Progress → Progress
choose digest source detail g = record g { chosen = digest; source = source; detail = detail }

module _ (repo tag : Text) where
  abbrev pub with_tag : Text → Ref
  with_tag digest = record { repo = repo; tag = tag; digest = digest }

  -- The case of a source that gives a digest or has none.
  unfoldable pub consult : Text → Source → Text → Text → Progress → Progress
  unfolding append_ref
  consult digest source detail missing g =
      if is_empty digest
      then note missing g
      else if is_empty g.chosen
      then choose digest source detail g
      else if not (text_eq digest g.chosen)
      then record g { alternatives = append_ref g.alternatives (with_tag digest) }
      else g

  abbrev pub head_answer : Answer Text → Progress → Progress
  head_answer (failed e) g = note (codes "registry: " ++ e) g
  head_answer (answered d) g = choose d source_registry (codes "registry HEAD of tag " ++ tag) g

  abbrev pub ask_head : Option (Ref → Answer Text) → Progress → Progress
  ask_head none g = note (codes "registry not asked: no registry configured for " ++ repo) g
  ask_head (some head) g = head_answer (head (with_tag [])) g

  unfoldable pub consult_registry : ImageRegistry → Progress → Progress
  consult_registry reg g =
      if not (is_empty g.chosen)
      then g
      else if is_empty tag
      then note (codes "registry not asked: the manifest has no tag") g
      else ask_head (for_repo reg repo) g

  -- podsAlternatives, those that were not chosen.
  unfoldable pub add_alternatives : Text → List Text → List Ref → List Ref
  unfolding append_ref
  add_alternatives chosen [] refs = refs
  add_alternatives chosen (d ∷ ds) refs =
      add_alternatives chosen ds
        (if not (text_eq d chosen) then append_ref refs (with_tag d) else refs)

  -- The loop of an override.
  unfoldable pub override_alternatives : Text → List Text → List Ref → List Ref
  unfolding append_ref
  override_alternatives chosen [] refs = refs
  override_alternatives chosen (d ∷ ds) refs =
      override_alternatives chosen ds
        (if not (is_empty d) && not (text_eq d chosen) then append_ref refs (with_tag d) else refs)

  -- One source.
  unfoldable pub consult_source : ImageRegistry → Text → Text → Text → Source → Progress → Progress
  unfolding consult consult_registry
  consult_source reg pods detail manifest s g =
      if text_eq s source_pods
      then consult pods source_pods detail (codes "no running pods") g
      else if text_eq s source_manifest
      then consult manifest source_manifest (codes "pinned in the manifest")
          (codes "manifest is not pinned") g
      else if text_eq s source_registry
      then consult_registry reg g
      else g

  -- The loop over the sources.
  unfoldable pub consult_all :
      ImageRegistry → Text → Text → Text → List Source → Progress → Progress
  unfolding consult_source
  consult_all reg pods detail manifest [] g = g
  consult_all reg pods detail manifest (s ∷ order) g =
      consult_all reg pods detail manifest order (consult_source reg pods detail manifest s g)

abbrev pub no_pick : Pick
no_pick = record { digest = []; detail = []; alternatives = []; warnings = [] }

abbrev picked : Option Pick → Pick
picked none = no_pick
picked (some p) = p

-- choosePods where something runs.
unfoldable pub pods_of : Registry → Text → Text → List Occurrence → List RunningImage → Text → Pick
unfolding choose_pods
pods_of registered namespace repo occ [] manifest = no_pick
pods_of registered namespace repo occ (x ∷ xs) manifest =
    picked (choose_pods registered namespace repo occ (x ∷ xs) manifest)

abbrev pub start : Progress
start = record { chosen = []; source = []; detail = []; notes = []; alternatives = [] }

module _ (registered : Registry) (namespace repo : Text) (occ : List Occurrence)
    (running : List RunningImage) where
  unfoldable pub disagreement : Text → Text → Source → List Warning
  unfolding running_vs_manifest
  disagreement pods manifest source =
      if not (is_empty pods) && (not (is_empty manifest) && not (text_eq pods manifest))
      then running_vs_manifest registered namespace repo occ manifest pods source ∷ []
      else []

  unfoldable pub override_resolution : Ref → Pick → Text → Text → Resolution
  unfolding disagreement override_alternatives
  override_resolution ov pods manifest tag = record {
    repo = repo;
    ref = ov;
    source = source_override;
    detail = codes "caller-supplied digest";
    alternatives =
        override_alternatives repo tag ov.digest (pods.digest ∷ manifest ∷ pods.alternatives) [];
    warnings = pods.warnings ++ disagreement pods.digest manifest source_override;
  }

  -- What the source's detail says besides.
  more_detail : Text → Text → Source → Text
  more_detail pods manifest source =
      (if text_eq source source_pods && is_empty manifest
        then codes "; manifest is not pinned"
        else [])
      ++ (if text_eq source source_manifest && (is_empty pods && nothing_runs running)
          then codes "; no running pods"
          else [])
    where
      nothing_runs : List RunningImage → Bool
      nothing_runs [] = true
      nothing_runs (x ∷ xs) = false

  unresolved : Text → Warning
  unfolding strings
  unresolved message = record {
    code = codes "unresolved";
    message = strings registered message [];
    occurrences = occ;
  }

  -- The end of resolveRepo, with the sources consulted.
  unfoldable pub conclude : Pick → Text → Text → Progress → Resolution
  unfolding disagreement more_detail add_alternatives unresolved
  conclude pods manifest tag g =
      let alternatives = add_alternatives repo tag g.chosen pods.alternatives g.alternatives in
      let warnings = pods.warnings ++ disagreement pods.digest manifest g.source in
      let detail = g.detail ++ more_detail pods.digest manifest g.source in
      if is_empty g.chosen
      then record {
        repo = repo;
        ref = zero_ref;
        source = [];
        detail = [];
        alternatives = alternatives;
        warnings =
            warnings
            ++ (unresolved (
                  concat (
                    namespace
                    ∷ codes ": no digest for "
                    ∷ repo
                    ∷ codes " ("
                    ∷ join (codes "; ") g.notes
                    ∷ codes "); the plan falls back to the manifest's own reference"
                    ∷ []))
                ∷ []);
      }
      else if is_empty tag
      then record {
        repo = repo;
        ref = zero_ref;
        source = g.source;
        detail = detail ++ codes "; no tag to write";
        alternatives = [];
        warnings =
            warnings
            ++ (unresolved (
                  concat (
                    namespace
                    ∷ codes ": "
                    ∷ repo
                    ∷ codes " resolved to "
                    ∷ g.chosen
                    ∷ codes " from "
                    ∷ g.source
                    ∷ codes
                        " but its manifests carry no tag; hoist writes <repo>:<tag>@<digest> and never fabricates a tag"
                    ∷ []))
                ∷ []);
      }
      else record {
        repo = repo;
        ref = with_tag repo tag g.chosen;
        source = g.source;
        detail = detail;
        alternatives = alternatives;
        warnings = warnings;
      }

  unfoldable pub resolve_by :
      ImageRegistry → List Source → Option Ref → Pick → Text → Text → Resolution
  unfolding override_resolution conclude consult_all
  resolve_by reg order (some ov) pods manifest tag = override_resolution ov pods manifest tag
  resolve_by reg order none pods manifest tag =
      conclude pods manifest tag
        (consult_all repo tag reg pods.digest pods.detail manifest order start)

  -- The manifest's tag, or else the first one.
  abbrev pub tag_to_write : Ref → Text
  tag_to_write manifest = if is_empty manifest.tag then first_tag occ else manifest.tag

  resolve_chosen : ImageRegistry → List Source → Option Ref → Option Choice → Option Resolution
  unfolding resolve_by pods_of first_tag
  resolve_chosen reg order ov none = none
  resolve_chosen reg order ov (some c) = some (
      resolve_by reg order ov (pods_of registered namespace repo occ running c.chosen.digest)
        c.chosen.digest (tag_to_write c.chosen))

  -- resolveRepo. With no occurrence ChooseRef is out of range.
  unfoldable pub resolve_repo : ImageRegistry → List Source → List (Text × Ref) → Option Resolution
  unfolding resolve_chosen
  resolve_repo reg order overrides =
      resolve_chosen reg order (lookup repo overrides) (choose_ref occ)
