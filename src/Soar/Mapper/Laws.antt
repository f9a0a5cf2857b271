-- ===== src/Soar/Mapper/Laws.antt =====
-- What a loaded playbook satisfies, and how the schema validators are cached.
use walmart_assignment.Base.{
  ◌≡◌, refl, sym, subst, ap, ◌↔◌, String, false, some, List, [], ◌∷◌, map, arith, All, Bool-cases,
  Option-cases, inl, inr, ◌⊎◌, none,
}
use walmart_assignment.Base.Text.{includes, str_eq_comm, Distinct, eq_refl}
use walmart_assignment.Base.Js.{and_then-eq-ok, Run-cases, ◌>>◌, ◌>>=◌, ok, call, for_each}
use walmart_assignment.Soar.Playbook.{Step, step_id, Playbook}
use walmart_assignment.Soar.Mapper.{
  Loader, Cache, cached, get_validator, check_ids, find_unknown, first_doc, check_schema,
  with_created_at, on_world, load_text, load_doc, load_value, accept,
}

-- No text of the list is among those seen.
abbrev Unseen : List String → List String → Type 0
Unseen seen = All (λ x. includes x seen ≡ false)

Unseen-cons :
    (y : String) (seen xs : List String)
    → (includes y xs ≡ false) × Unseen seen xs
    → Unseen (y ∷ seen) xs
Unseen-cons y seen [] h = tt
Unseen-cons y seen (x ∷ xs) h =
    (ground (arith, str_eq_comm x y), Unseen-cons y seen xs (ground arith))

Unseen-uncons :
    (y : String) (seen xs : List String)
    → Unseen (y ∷ seen) xs
    → (includes y xs ≡ false) × Unseen seen xs
Unseen-uncons y seen [] h = (refl, tt)
Unseen-uncons y seen (x ∷ xs) h = ground (arith, str_eq_comm x y, Unseen-uncons y seen xs h.1)

Unseen-nil : (xs : List String) → Unseen [] xs
Unseen-nil [] = tt
Unseen-nil (x ∷ xs) = (refl, Unseen-nil xs)

module _ {W : Type 0} where
  check_ids-Unseen :
      (seen : List String) (steps : List Step) (s t : W)
      → check_ids seen steps s ≡ (ok tt, t)
      → Distinct (map step_id steps) × Unseen seen (map step_id steps)
  unfolding check_ids
  check_ids-Unseen seen [] s t h = (tt, tt)
  check_ids-Unseen seen (step ∷ steps) s t h = elim (Bool-cases (includes (step_id step) seen)) [
    | inl dup ↦ ground arith
    | inr fresh ↦
        let (d, u) = check_ids-Unseen (step_id step ∷ seen) steps s t (rw fresh at h) in
        let (here, later) = Unseen-uncons (step_id step) seen (map step_id steps) u in
        ((here, d), (fresh, later))
  ]

  Unseen-check_ids :
      (seen : List String) (steps : List Step) (s : W)
      → Distinct (map step_id steps)
      → Unseen seen (map step_id steps)
      → check_ids seen steps s ≡ (ok tt, s)
  unfolding check_ids
  Unseen-check_ids seen [] s d u = refl
  Unseen-check_ids seen (step ∷ steps) s (here, d) (fresh, u) = rw fresh (
      Unseen-check_ids (step_id step ∷ seen) steps s d
        (Unseen-cons (step_id step) seen (map step_id steps) (here, u)))

  -- The duplicate check accepts exactly the lists of steps with pairwise different ids.
  pub check_ids_iff :
      (steps : List Step) (s : W)
      → (check_ids [] steps s ≡ (ok tt, s)) ↔ Distinct (map step_id steps)
  check_ids_iff steps s = (
    (λ h. (check_ids-Unseen [] steps s s h).0),
    (λ d. Unseen-check_ids [] steps s d (Unseen-nil (map step_id steps))),
  )

List-cases : {A : Type 0} (xs : List A) → (xs ≡ []) ⊎ ((x : A) × (rest : List A) × (xs ≡ x ∷ rest))
List-cases [] = inl refl
List-cases (x ∷ rest) = inr (x, rest, refl)

module _ {Doc Validator W : Type 0} (l : Loader Doc Validator W) where
  -- A schema is read and compiled once: after a first success the same version gives the same
  -- validator, with no further effect.
  pub get_validator_once :
      (version : String) (s t : Cache Validator W) (v : Validator)
      → get_validator l version s ≡ (ok v, t)
      → get_validator l version t ≡ (ok v, t)
  unfolding get_validator
  get_validator_once version s t v h = ground (arith, eq_refl version)

  -- The validator of a version: the one that is kept, or the one compiled from the schema's file.
  abbrev pub Validates : String → Cache Validator W → Validator → Type 0
  Validates version s v =
      (cached version s.validators ≡ some v)
      ⊎ ((cached version s.validators ≡ none)
          × ((schema : String) × (w : W) × (u : W) × (l.read_file (l.schema_path version) s.world
                ≡ (ok schema, w))
              × (l.compile schema w ≡ (ok v, u))))

  -- What a playbook that is loaded from this text is.
  abbrev pub Loaded : String → String → Cache Validator W → Playbook → Type 0
  Loaded version text s pb =
      (doc : Doc) × (docs : List Doc) × (v : Validator) × (parsed : Playbook) × (l.parse_all text
        ≡ doc ∷ docs)
      × (l.doc_errors doc ≡ [])
      × Validates version s v
      × (l.check v (l.to_js doc) ≡ [])
      × (l.parse_schema (l.to_js doc) ≡ ok parsed)
      × (pb.steps ≡ parsed.steps)
      × Distinct (map step_id pb.steps)
      × ((at : String) × (pb.created_at ≡ some at))

  first_doc-eq-ok :
      (text : String) (doc : Doc)
      → first_doc l text ≡ ok doc
      → (docs : List Doc) × (l.parse_all text ≡ doc ∷ docs) × (l.doc_errors doc ≡ [])
  unfolding first_doc
  first_doc-eq-ok text doc h = elim (List-cases (l.parse_all text)) [
    | inl none_there ↦ absurd (let z = rw (none_there, first_doc) at h in cc)
    | inr (x, xs, b) ↦ elim (List-cases (l.doc_errors x)) [
      | inr (e, es, d) ↦ absurd (let z = rw (b, d, first_doc) at h in cc)
      | inl clean ↦
          let z = rw (b, clean, first_doc) at h in
          let same : x ≡ doc = cc in (xs, rw same at b, rw same at clean)
    ]
  ]

  get_validator-Validates :
      (version : String) (s t : Cache Validator W) (v : Validator)
      → get_validator l version s ≡ (ok v, t)
      → Validates version s v
  unfolding get_validator
  get_validator-Validates version s t v h = elim (Option-cases (cached version s.validators)) [
    | inr (x, kept) ↦
        let z = rw (kept, get_validator) at h in
        let same : x ≡ v = ground arith in inl (rw same at kept)
    | inl miss ↦ elim (Run-cases (l.read_file (l.schema_path version) s.world)) [
      | inr (e, w, b) ↦ absurd (let z = rw (miss, b, get_validator) at h in cc)
      | inl (schema, w, b) ↦ elim (Run-cases (l.compile schema w)) [
        | inr (e, u, d) ↦ absurd (let z = rw (miss, b, d, get_validator) at h in cc)
        | inl (x, u, d) ↦
            let z = rw (miss, b, d, get_validator) at h in
            let same : x ≡ v = ground arith in inr (miss, (schema, w, u, b, rw same at d))
      ]
    ]
  ]

  check_schema-nil :
      (text : String) (doc : Doc) (v : Validator)
      → check_schema l text doc v ≡ ok tt
      → l.check v (l.to_js doc) ≡ []
  unfolding check_schema
  check_schema-nil text doc v h = ground arith

  -- What the last lines make of the parsed value.
  abbrev Accepts : Playbook → Playbook → Type 0
  Accepts parsed pb =
      (pb.steps ≡ parsed.steps)
      × Distinct (map step_id pb.steps)
      × ((at : String) × (pb.created_at ≡ some at))

  with_created_at-Accepts :
      (parsed pb : Playbook) (s t : Cache Validator W)
      → Distinct (map step_id parsed.steps)
      → with_created_at l parsed s ≡ (ok pb, t)
      → Accepts parsed pb
  unfolding with_created_at
  with_created_at-Accepts parsed pb s t d h = elim (Option-cases parsed.created_at) [
    | inl missing ↦
        let same : pb.steps ≡ parsed.steps = ground arith in
        (same, rw same d, ((l.now_iso s.world).0, ground arith))
    | inr (at, given) ↦
        let same : pb.steps ≡ parsed.steps = ground arith in (same, rw same d, (at, ground arith))
  ]

  accept-Accepts :
      (parsed pb : Playbook) (s t : Cache Validator W)
      → accept l parsed s ≡ (ok pb, t)
      → Accepts parsed pb
  unfolding accept
  accept-Accepts parsed pb s t h =
      let (_, u, checked, rest) =
        and_then-eq-ok (check_ids [] parsed.steps s) (λ _. with_created_at l parsed) h in
      with_created_at-Accepts parsed pb u t (check_ids-Unseen [] parsed.steps s u checked).0 rest

  -- A playbook that loads from a text comes from its first document, which has no YAML errors and
  -- for which the validator of the version, kept or compiled from its file, has no objection: its
  -- steps are those of the parsed value, with pairwise different ids, and its creation time is set.
  pub load_text-Loaded :
      (version text : String) (pb : Playbook) (s t : Cache Validator W)
      → load_text l version text s ≡ (ok pb, t)
      → Loaded version text s pb
  unfolding load_text load_doc load_value
  load_text-Loaded version text pb s t h =
      let (doc, s₁, read, h₁) = and_then-eq-ok (first_doc l text, s) (load_doc l version text) h in
      let (v, s₂, got, h₂) =
        and_then-eq-ok (get_validator l version s₁)
          (λ x. (λ u. (check_schema l text doc x, u)) >> load_value l doc) h₁ in
      let (_, s₃, checked, h₃) =
        and_then-eq-ok (check_schema l text doc v, s₂) (λ _. load_value l doc) h₂ in
      let (_, s₄, _, h₄) =
        and_then-eq-ok
          (on_world l (for_each (λ p. call (l.warn p)) (find_unknown (l.to_js doc))) s₃)
          (λ _. (λ u. (l.parse_schema (l.to_js doc), u)) >>= accept l) h₃ in
      let (parsed, s₅, parse, h₅) =
        and_then-eq-ok (l.parse_schema (l.to_js doc), s₄) (accept l) h₄ in
      let (same, distinct, at) = accept-Accepts parsed pb s₅ t h₅ in
      let state : s ≡ s₁ = ap (λ r. r.1) read in
      let (docs, first, clean) = first_doc-eq-ok text doc (ap (λ r. r.0) read) in
      (
        doc,
        docs,
        v,
        parsed,
        first,
        clean,
        subst (λ x. Validates version x v) (sym state)
            (get_validator-Validates version s₁ s₂ v got),
        check_schema-nil text doc v (ap (λ r. r.0) checked),
        ap (λ r. r.0) parse,
        same,
        distinct,
        at,
      )
