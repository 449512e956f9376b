-- ===== src/Gitops/Deploy/Exact.antt =====
-- A deploy plan edits every occurrence of the deployed repository once, and nothing else.
use hoist.Prelude.{
  ℕ, ◌≡◌, refl, sym, ap, ◌∙◌, ◌≢◌, ◌⊎◌, inl, inr, Bool, true, false, List, [], ◌∷◌, ◌++◌, Option,
  none, some, Text, text_eq, is_empty, codes, quoted, All, Bool-cases, Option-cases, if_true,
  if_false, arith,
}
use mathlib.Core.Path.{subst}
use mathlib.Core.List.{Permᴰ}
use hoist.Image.Ref.{Ref, to_text}
use hoist.Image.Validate.{validate}
use hoist.Gitops.Types.{Occurrence, Env, Repo, Edit, Plan}
use hoist.Gitops.Prefix.{is_promotable}
use hoist.Gitops.Editable.{Styles, unwritable, check_editable}
use hoist.Gitops.Order.{insert_by, sort_by, sort_occurrences, all_occurrences, env_occurrences}
use hoist.Gitops.Deploy.{
  Planned, planned, refused, find_env, is_seen, cons_edit, cons_untouched, deploy_loop, deploy_plan,
  has_some, deploy_into, build_deploy_plan,
}

Perm-refl : {A : Type 0} (xs : List A) → Permᴰ xs xs
Perm-refl [] = Permᴰ.nil
Perm-refl (x ∷ xs) = Permᴰ.cons refl (Perm-refl xs)

pub Perm-symm : {A : Type 0} {xs ys : List A} → Permᴰ xs ys → Permᴰ ys xs
Perm-symm Permᴰ.nil = Permᴰ.nil
Perm-symm (Permᴰ.cons e π) = Permᴰ.cons (sym e) (Perm-symm π)
Perm-symm (Permᴰ.swap e f) = Permᴰ.swap (sym f) (sym e)
Perm-symm (Permᴰ.trans π ρ) = Permᴰ.trans (Perm-symm ρ) (Perm-symm π)

Perm-nil : {A : Type 0} {xs ys : List A} → Permᴰ xs ys → xs ≡ [] → ys ≡ []
Perm-nil Permᴰ.nil n = refl
Perm-nil (Permᴰ.cons e π) n = absurd (cc n)
Perm-nil (Permᴰ.swap e f) n = absurd (cc n)
Perm-nil (Permᴰ.trans π ρ) n = Perm-nil ρ (Perm-nil π n)

module _ {A : Type 0} (less : A → A → Bool) where
  insert_by-Perm : (a : A) (xs : List A) → Permᴰ (insert_by less a xs) (a ∷ xs)
  unfolding insert_by
  insert_by-Perm a [] = Perm-refl (a ∷ [])
  insert_by-Perm a (b ∷ xs) = elim (Bool-cases (less b a)) [
    | inl e ↦
        subst (λ l. Permᴰ l (a ∷ b ∷ xs)) (sym (if_true _ _ e))
          (Permᴰ.trans (Permᴰ.cons refl (insert_by-Perm a xs)) (Permᴰ.swap refl refl))
    | inr e ↦ subst (λ l. Permᴰ l (a ∷ b ∷ xs)) (sym (if_false _ _ e)) (Perm-refl (a ∷ b ∷ xs))
  ]

  sort_by-Perm : (xs : List A) → Permᴰ (sort_by less xs) xs
  unfolding sort_by
  sort_by-Perm [] = Permᴰ.nil
  sort_by-Perm (x ∷ xs) =
      Permᴰ.trans (insert_by-Perm x (sort_by less xs)) (Permᴰ.cons refl (sort_by-Perm xs))

pub sort_occurrences-Perm :
    {A : Type 0} (key : A → Occurrence) (xs : List A) → Permᴰ (sort_occurrences key xs) xs
unfolding sort_occurrences
sort_occurrences-Perm key xs = sort_by-Perm _ xs

env_occurrences-Perm : (e : Env) → Permᴰ (env_occurrences e) (all_occurrences e.families)
unfolding env_occurrences
env_occurrences-Perm e = sort_occurrences-Perm (λ o. o) (all_occurrences e.families)

pub All-Perm : {A : Type 0} (P : A → Type 0) {xs ys : List A} → Permᴰ xs ys → All P xs → All P ys
All-Perm P Permᴰ.nil h = h
All-Perm P (Permᴰ.cons e π) h = (subst P e h.0, All-Perm P π h.1)
All-Perm P (Permᴰ.swap e f) h = (subst P f h.1.0, (subst P e h.0, h.1.1))
All-Perm P (Permᴰ.trans π ρ) h = All-Perm P ρ (All-Perm P π h)

abbrev keep : Bool → Edit → List Edit → List Edit
keep true e es = e ∷ es
keep false e es = es

-- One edit to the reference for each occurrence of its repository.
abbrev pub expected : Ref → List Occurrence → List Edit
expected ref [] = []
expected ref (o ∷ os) =
    keep (text_eq o.ref.repo ref.repo) (record { occurrence = o; new = ref }) (expected ref os)

keep-Perm :
    (b : Bool) (e : Edit) {es fs : List Edit} → Permᴰ es fs → Permᴰ (keep b e es) (keep b e fs)
keep-Perm true e π = Permᴰ.cons refl π
keep-Perm false e π = π

keep_swap :
    (b c : Bool) (e f : Edit) (es : List Edit)
    → Permᴰ (keep b e (keep c f es)) (keep c f (keep b e es))
keep_swap true true e f es = Permᴰ.swap refl refl
keep_swap true false e f es = Perm-refl (e ∷ es)
keep_swap false true e f es = Perm-refl (f ∷ es)
keep_swap false false e f es = Perm-refl es

expected-Perm :
    (ref : Ref) {os ps : List Occurrence} → Permᴰ os ps → Permᴰ (expected ref os) (expected ref ps)
expected-Perm ref Permᴰ.nil = Permᴰ.nil
expected-Perm ref (Permᴰ.cons {a = a} {b = b} {l₂ = l} e π) =
    Permᴰ.trans (keep-Perm (text_eq a.ref.repo ref.repo) _ (expected-Perm ref π))
      (subst (λ x. Permᴰ (expected ref (a ∷ l)) (expected ref (x ∷ l))) e (Perm-refl _))
expected-Perm ref (Permᴰ.swap {a = a} {b = b} {b' = b'} {l = l} e f) =
    subst (λ x. Permᴰ (expected ref (a ∷ b ∷ l)) (expected ref (x ∷ b' ∷ l))) f
      (subst (λ x. Permᴰ (expected ref (a ∷ b ∷ l)) (expected ref (b ∷ x ∷ l))) e
        (keep_swap (text_eq a.ref.repo ref.repo) (text_eq b.ref.repo ref.repo) _ _
          (expected ref l)))
expected-Perm ref (Permᴰ.trans π ρ) = Permᴰ.trans (expected-Perm ref π) (expected-Perm ref ρ)

module _ (y : Styles) (ref : Ref) where
  abbrev pub Editable : Edit → Type 0
  Editable e = check_editable y e ≡ none

  cons_edit-planned :
      (e : Edit) (r : Planned (List Edit × List Ref)) (es : List Edit) (us : List Ref)
      → cons_edit e r ≡ planned (es, us)
      → (es' : List Edit) × (us' : List Ref) × (r ≡ planned (es', us')) × (es ≡ e ∷ es')
  cons_edit-planned e (planned (es', us')) es us h = (es', us', refl, cc)
  cons_edit-planned e (refused why) es us h = absurd (cc h)

  cons_untouched-planned :
      (u : Ref) (r : Planned (List Edit × List Ref)) (es : List Edit) (us : List Ref)
      → cons_untouched u r ≡ planned (es, us)
      → (us' : List Ref) × (r ≡ planned (es, us'))
  cons_untouched-planned u (planned (es', us')) es us h = (us', cc)
  cons_untouched-planned u (refused why) es us h = absurd (cc h)

  deploy_loop-expected :
      (os : List Occurrence) (seen : List Text) (es : List Edit) (us : List Ref)
      → deploy_loop y ref seen os ≡ planned (es, us)
      → (es ≡ expected ref os) × All Editable es
  unfolding deploy_loop
  deploy_loop-expected [] seen es us h =
      let same : [] ≡ es = cc in subst (λ l. (l ≡ []) × All Editable l) same (refl, tt)
  deploy_loop-expected (o ∷ os) seen es us h = elim (Bool-cases (text_eq o.ref.repo ref.repo)) [
    | inr other ↦
        subst (λ b. (es ≡ keep b e (expected ref os)) × All Editable es) (sym other)
          (other_repo (deploy_loop-expected os) (is_seen (to_text o.ref) seen)
            (ap by_repo (sym other) ∙ h))
    | inl ours ↦
        subst (λ b. (es ≡ keep b e (expected ref os)) × All Editable es) (sym ours)
          (our_repo (deploy_loop-expected os) (check_editable y e) refl (ap by_repo (sym ours) ∙ h))
  ]
    where
      e : Edit
      e = record { occurrence = o; new = ref }

      by_seen : Bool → Planned (List Edit × List Ref)
      by_seen b = elim b [
        | true ↦ deploy_loop y ref seen os
        | false ↦ cons_untouched o.ref (deploy_loop y ref (to_text o.ref ∷ seen) os)
      ]

      by_check : Option Text → Planned (List Edit × List Ref)
      by_check c = elim c [
        | some why ↦ refused why
        | none ↦ cons_edit e (deploy_loop y ref seen os)
      ]

      by_repo : Bool → Planned (List Edit × List Ref)
      by_repo b = elim b [
        | false ↦ by_seen (is_seen (to_text o.ref) seen)
        | true ↦ by_check (check_editable y e)
      ]

      other_repo :
          ((seen : List Text) (es : List Edit) (us : List Ref)
            → deploy_loop y ref seen os ≡ planned (es, us)
            → (es ≡ expected ref os) × All Editable es)
          → (b : Bool) → by_seen b ≡ planned (es, us)
          → (es ≡ expected ref os) × All Editable es
      other_repo ih true k = ih seen es us k
      other_repo ih false k =
          let (us', r) = cons_untouched-planned o.ref _ es us k in
          ih (to_text o.ref ∷ seen) es us' r

      our_repo :
          ((seen : List Text) (es : List Edit) (us : List Ref)
            → deploy_loop y ref seen os ≡ planned (es, us)
            → (es ≡ expected ref os) × All Editable es)
          → (c : Option Text) → check_editable y e ≡ c
          → by_check c ≡ planned (es, us)
          → (es ≡ e ∷ expected ref os) × All Editable es
      our_repo ih (some why) a k = absurd (cc k)
      our_repo ih none a k =
          let (es', us', r, same) = cons_edit-planned e _ es us k in
          let (tail, good) = ih seen es' us' r in
          (same ∙ ap (◌∷◌ e) tail, subst (All Editable) (sym same) (a, good))

  -- What a deploy plan holds.
  pub record Exact (env : Text) (r : Repo) (p : Plan) : Type 0 where
    pub into : Env
    pub found : find_env env r.envs ≡ some into
    pub once : Permᴰ p.edits (expected ref (all_occurrences into.families))
    pub editable : All Editable p.edits
    pub some_edit : p.edits ≢ []

  deploy_plan-Exact :
      (now : ℕ) (env : Text) (r : Repo) (e : Env) (l : Planned (List Edit × List Ref)) (p : Plan)
      → find_env env r.envs ≡ some e
      → deploy_loop y ref [] (env_occurrences e) ≡ l
      → deploy_plan now env ref l ≡ planned p
      → Exact env r p
  unfolding deploy_plan
  deploy_plan-Exact now env r e (refused why) p f k h = absurd (cc h)
  deploy_plan-Exact now env r e (planned ([], us)) p f k h = absurd (cc h)
  deploy_plan-Exact now env r e (planned (a ∷ as', us)) p f k h =
      let (same, good) = deploy_loop-expected (env_occurrences e) [] (a ∷ as') us k in
      let edits : sort_occurrences (λ (e : Edit). e.occurrence) (a ∷ as') ≡ p.edits = cc h in
      let sorted = sort_occurrences-Perm (λ (e : Edit). e.occurrence) (a ∷ as') in
      let whole : Permᴰ p.edits (a ∷ as') = subst (λ l. Permᴰ l (a ∷ as')) edits sorted in
      record {
        into = e;
        found = f;
        once = Permᴰ.trans whole (
            subst (λ l. Permᴰ l (expected ref (all_occurrences e.families))) (sym same)
              (expected-Perm ref (env_occurrences-Perm e)));
        editable = All-Perm Editable (Perm-symm whole) good;
        some_edit = λ n. cc (Perm-nil whole n);
      }

  deploy_into-planned :
      (now : ℕ) (env : Text) (promotable : List Text) (e : Env) (p : Plan)
      → deploy_into y now env ref promotable e ≡ planned p
      → (validate ref ≡ none)
        × (is_empty (unwritable ref) ≡ true)
        × ((has_some promotable ≡ false) ⊎ (is_promotable ref.repo promotable ≡ true))
        × (deploy_plan now env ref (deploy_loop y ref [] (env_occurrences e)) ≡ planned p)
  unfolding deploy_into
  deploy_into-planned now env promotable e p h = ground arith

  -- A plan that a deploy builds writes a reference that is well formed, pinned and tagged, and of a
  -- promotable repository where prefixes are configured; its edits are, up to order, one edit to
  -- that reference for each occurrence of its repository in the environment's families; every
  -- edit is editable in place; and there is at least one.
  pub build_deploy_plan-Exact :
      (now : ℕ) (r : Repo) (env : Text) (promotable : List Text) (p : Plan)
      → build_deploy_plan y now (some r) env ref promotable ≡ planned p
      → (validate ref ≡ none)
        × (is_empty (unwritable ref) ≡ true)
        × ((has_some promotable ≡ false) ⊎ (is_promotable ref.repo promotable ≡ true))
        × Exact env r p
  unfolding build_deploy_plan
  build_deploy_plan-Exact now r env promotable p h = elim (Option-cases (find_env env r.envs)) [
    | inl n ↦ let failed = ap by_env (sym n) ∙ h in absurd (cc failed)
    | inr (e, f) ↦
        let (v, w, c, built) = deploy_into-planned now env promotable e p (ap by_env (sym f) ∙ h) in
        (
          v,
          w,
          c,
          deploy_plan-Exact now env r e (deploy_loop y ref [] (env_occurrences e)) p f refl built,
        )
  ]
    where
      by_env : Option Env → Planned Plan
      by_env o = elim o [
        | none ↦ refused (codes "env " ++ (quoted env ++ codes " not found in the discovered repo"))
        | some e ↦ deploy_into y now env ref promotable e
      ]
