-- ===== src/Soar/Cli/Exits.antt =====
-- How the command ends.
use walmart_assignment.Base.{
  ◌≡◌, ◌≢◌, refl, String, ℕ, true, Option, none, some, List, [], ◌∷◌, false, ◌⊎◌, inl, inr, sym,
  ◌∙◌, Bool-cases, Option-cases, get_elem?,
}
use walmart_assignment.Base.Text.{str_eq, is_truthy, eq_iff, eq_refl}
use walmart_assignment.Base.Js.{
  Exn, Outcome, ok, thrown, Returns, Returns-mono, Returns-and, Returns-value, Run-cases,
  Outcome-cases,
}
use walmart_assignment.Soar.Playbook.{AlertEvent, Playbook, Step, all_failed, ExecutionResult}
use walmart_assignment.Soar.Engine.{Runtime, run_playbook, clear_registry}
use walmart_assignment.Soar.Engine.Totals.{
  Concerns, IsQuiet, run_playbook-Concerns, run_playbook_unregistered,
}
use walmart_assignment.Soar.Mapper.{Loader, Cache, load_playbook}
use walmart_assignment.Soar.Mapper.Laws.{Loaded, load_text-Loaded}
use walmart_assignment.Soar.Cli.{
  Exit, exits, later, index_of, if_truthy, arg_after, option_of, paths, run_loaded, run_files,
  start, run_playbook_cli,
}

-- The arguments give a value to a flag: the one after the first occurrence of the flag, not empty.
pub data Given (flag value : String) : List String → Type 0 where
  here : (rest : List String) → is_truthy value ≡ true → Given flag value (flag ∷ value ∷ rest)
  there :
      (a : String) (rest : List String)
      → str_eq a flag ≡ false
      → Given flag value rest
      → Given flag value (a ∷ rest)

arg_after-later :
    (a : String) (o : Option ℕ) (rest : List String)
    → arg_after (later o) (a ∷ rest) ≡ arg_after o rest
arg_after-later a none rest = refl
arg_after-later a (some i) rest = refl

Given-option_of :
    (flag value : String) (args : List String)
    → Given flag value args
    → option_of flag args ≡ some value
Given-option_of flag value _ (here rest full) = rw (eq_refl flag, full) refl
Given-option_of flag value _ (there a rest other g) =
    rw (other, arg_after-later a (index_of flag rest) rest) (Given-option_of flag value rest g)

next-Given :
    (flag value : String) (rest : List String)
    → if_truthy (get_elem? rest 0) ≡ some value
    → Given flag value (flag ∷ rest)
next-Given flag value [] h = absurd (cc)
next-Given flag value (x ∷ rest) h = elim (Bool-cases (is_truthy x)) [
  | inr empty ↦ absurd (let z = rw empty at h in cc)
  | inl full ↦
      let z = rw full at h in let same : x ≡ value = cc in rw same (here rest (rw same at full))
]

option_of-Given :
    (flag value : String) (args : List String)
    → option_of flag args ≡ some value
    → Given flag value args
option_of-Given flag value [] h = absurd (cc)
option_of-Given flag value (a ∷ rest) h = elim (Bool-cases (str_eq a flag)) [
  | inl it ↦
      let same : a ≡ flag = (eq_iff a flag).0 it in
      rw same (next-Given flag value rest (rw it at h))
  | inr other ↦ there a rest other (
      option_of-Given flag value rest
        (rw (other, arg_after-later a (index_of flag rest) rest) at h))
]

module _ {Doc Validator W : Type 0} (l : Loader Doc Validator W)
    (parse_alert : String → Outcome AlertEvent) (rt : Runtime (Cache Validator W)) where
  abbrev S : Type 0
  S = Cache Validator W

  -- The two paths that the arguments give.
  abbrev pub Paths : List String → String → String → Type 0
  Paths args a p = Given "--alert" a args × Given "--playbook" p args

  -- The two files are read and the alert parsed: up to the world `u`.
  abbrev pub Read : W → String → String → AlertEvent → String → W → Type 0
  Read w a p alert source u =
      (text : String) × (v : W) × (l.read_file a w ≡ (ok text, v))
      × (parse_alert text ≡ ok alert)
      × (l.read_file p v ≡ (ok source, u))

  -- The end of a run of a playbook that has steps is a failure of them all.
  abbrev Failed : Playbook → ExecutionResult → Type 0
  Failed pb res = pb.steps ≢ [] → res.overall ≡ all_failed

  -- The ways in which the command ends.
  pub data Ended (args : List String) (s : S) : Outcome Exit × S → Type 0 where
    usage : ((a p : String) → ¬ Paths args a p) → Ended args s (ok (exits 1 none), s)
    unread_alert :
        (a p : String) (e : Exn) (w : W)
        → Paths args a p
        → l.read_file a s.world ≡ (thrown e, w)
        → Ended args s (thrown e, record s { world = w })
    bad_alert :
        (a p text : String) (e : Exn) (w : W)
        → Paths args a p
        → l.read_file a s.world ≡ (ok text, w)
        → parse_alert text ≡ thrown e
        → Ended args s (thrown e, record s { world = w })
    unread_playbook :
        (a p text : String) (alert : AlertEvent) (e : Exn) (v w : W)
        → Paths args a p
        → l.read_file a s.world ≡ (ok text, v)
        → parse_alert text ≡ ok alert
        → l.read_file p v ≡ (thrown e, w)
        → Ended args s (thrown e, record s { world = w })
    bad_playbook :
        (a p source : String) (alert : AlertEvent) (e : Exn) (u : W) (t : S)
        → Paths args a p
        → Read s.world a p alert source u
        → load_playbook l false source "v1" (record s { world = u }) ≡ (thrown e, t)
        → Ended args s (thrown e, t)
    ran :
        (a p source : String) (alert : AlertEvent) (u : W) (pb : Playbook) (res : ExecutionResult)
        (t v : S)
        → Paths args a p
        → Read s.world a p alert source u
        → load_playbook l false source "v1" (record s { world = u }) ≡ (ok pb, t)
        → Loaded l "v1" source (record s { world = u }) pb
        → run_playbook rt clear_registry pb alert t ≡ (ok res, v)
        → Concerns pb res v
        → (pb.steps ≢ [] → res.overall ≡ all_failed)
        → Ended args s (ok (exits 0 (some res)), v)

  steps-cases : (steps : List Step) → (steps ≡ []) ⊎ (steps ≢ [])
  steps-cases [] = inl refl
  steps-cases (s ∷ steps) = inr (λ h. absurd (cc))

  run_playbook-Failed :
      IsQuiet rt
      → (pb : Playbook) (alert : AlertEvent) (s : S)
      → Returns
          (λ res t. Concerns pb res t × Failed pb res)
          (run_playbook rt clear_registry pb alert s)
  run_playbook-Failed quiet pb alert s = elim (steps-cases pb.steps) [
    | inl none_at_all ↦
        Returns-mono (Concerns pb) (λ res t. Concerns pb res t × Failed pb res) _
          (run_playbook-Concerns rt clear_registry pb alert quiet s)
          (λ res t c. (c, λ ne. absurd (ne none_at_all)))
    | inr some_step ↦
        Returns-mono (λ res t. Concerns pb res t × (res.overall ≡ all_failed))
          (λ res t. Concerns pb res t × Failed pb res) _
          (Returns-and (Concerns pb) (λ res t. res.overall ≡ all_failed) _
            (run_playbook-Concerns rt clear_registry pb alert quiet s)
            (run_playbook_unregistered rt pb alert quiet s some_step))
          (λ res t h. (h.0, λ ne. h.1))
  ]

  run_files-Ended :
      IsQuiet rt
      → (args : List String) (a p : String) (s : S) → Paths args a p
      → Ended args s (run_files l parse_alert rt clear_registry a p s)
  unfolding run_files run_loaded
  run_files-Ended quiet args a p s given = elim (Run-cases (l.read_file a s.world)) [
    | inr (e, w, b) ↦ rw b (unread_alert a p e w given b)
    | inl (text, w, b) ↦ elim (Outcome-cases (parse_alert text)) [
      | inr (e, b₁) ↦ rw (b, b₁) (bad_alert a p text e w given b b₁)
      | inl (alert, b₁) ↦ elim (Run-cases (l.read_file p w)) [
        | inr (e, u, b₂) ↦ rw (b, b₁, b₂) (unread_playbook a p text alert e w u given b b₁ b₂)
        | inl (source, u, b₂) ↦
            elim (Run-cases (load_playbook l false source "v1" (record s { world = u }))) [
              | inr (e, t, b₃) ↦
                  rw (b, b₁, b₂, b₃)
                    (bad_playbook a p source alert e u t given (text, w, b, b₁, b₂) b₃)
              | inl (pb, t, b₃) ↦
                  let (res, v, b₄, (c, f)) =
                    Returns-value (λ res t. Concerns pb res t × Failed pb res)
                      (run_playbook rt clear_registry pb alert t)
                      (run_playbook-Failed quiet pb alert t) in
                  rw (b, b₁, b₂, b₃, b₄)
                    (ran a p source alert u pb res t v given (text, w, b, b₁, b₂) b₃
                      (unfold load_playbook in
                        load_text-Loaded l "v1" source pb (record s { world = u }) t b₃)
                      b₄ c f)
            ]
      ]
    ]
  ]

  no_Paths :
      (args : List String)
      → (option_of "--alert" args ≡ none) ⊎ (option_of "--playbook" args ≡ none)
      → (a p : String) → ¬ Paths args a p
  no_Paths args (inl missing) a p (g, h) =
      let found : some a ≡ none = sym (Given-option_of "--alert" a args g) ∙ missing in absurd (cc)
  no_Paths args (inr missing) a p (g, h) =
      let found : some p ≡ none = sym (Given-option_of "--playbook" p args h) ∙ missing in
      absurd (cc)

  -- With the engine's registry as the module creates it, and a logger that is missing or never throws:
  -- where the arguments do not give a path that is not empty after each of `--alert` and `--playbook`
  -- the command ends with 1 and does nothing else. Otherwise it reads the alert, parses it, reads the
  -- playbook and loads it; it throws just where one of these throws, with that error, and otherwise it
  -- ends with 0 and the result of a run of the loaded playbook, also where the result is that every step
  -- failed, as it is for every playbook that has steps.
  pub run_playbook_cli-Ended :
      IsQuiet rt
      → (args : List String) (s : S)
      → Ended args s (run_playbook_cli l parse_alert rt clear_registry args s)
  unfolding run_playbook_cli paths start
  run_playbook_cli-Ended quiet args s = elim (Option-cases (option_of "--alert" args)) [
    | inl no_alert ↦ rw no_alert (usage (no_Paths args (inl no_alert)))
    | inr (a, g) ↦ elim (Option-cases (option_of "--playbook" args)) [
      | inl no_playbook ↦ rw (g, no_playbook) (usage (no_Paths args (inr no_playbook)))
      | inr (p, h) ↦
          rw (g, h)
            (run_files-Ended quiet args a p s
              (option_of-Given "--alert" a args g, option_of-Given "--playbook" p args h))
    ]
  ]
