-- ===== src/Soar/Engine/Totals.antt =====
-- What a run reports: one result for each step, in order, and the overall status.
use mathlib.Core.List.{append-nil, append_assoc}
use walmart_assignment.Base.{
  ◌≡◌, refl, sym, ◌∙◌, ◌≢◌, ◌≤◌, ℕ, List, [], ◌∷◌, ◌++◌, arith, true, false, All, All-append,
  length, count_by, count_by-le-length,
}
use walmart_assignment.Base.Text.{◌&◌}
use walmart_assignment.Base.Js.{
  Exn, ok, Ends, Returns, Ends-bind, Ends-try_catch, Returns-mono, Returns-and, error,
}
use walmart_assignment.Soar.Playbook.{
  Step, step_id, step_type, Playbook, AlertEvent, is_success, StepResult, Overall, all_success,
  all_failed, partial, ExecutionResult,
}
use walmart_assignment.Soar.Engine.{
  Runtime, Registry, log, run_step, run_steps, overall_status, run_playbook, clear_registry,
  get_handler, attempt, recover, conclude, type_name,
}

-- The meaning of each overall status.
abbrev pub Meaning : Overall → List StepResult → Type 0
Meaning all_success rs = All (λ r. is_success r.status ≡ true) rs
Meaning all_failed rs = All (λ r. is_success r.status ≡ false) rs × (rs ≢ [])
Meaning partial rs =
    (¬ All (λ r. is_success r.status ≡ true) rs) × (¬ All (λ r. is_success r.status ≡ false) rs)

module _ (p : StepResult → _) where
  count_by-all : (rs : List StepResult) → count_by p rs ≡ length rs → All (λ r. p r ≡ true) rs
  count_by-all [] h = tt
  count_by-all (r ∷ rs) h = ground (arith, count_by-all rs, count_by-le-length p rs)

  all-count_by : (rs : List StepResult) → All (λ r. p r ≡ true) rs → count_by p rs ≡ length rs
  all-count_by [] h = refl
  all-count_by (r ∷ rs) h = ground (arith, all-count_by rs h.1)

  count_by-none : (rs : List StepResult) → count_by p rs ≡ 0 → All (λ r. p r ≡ false) rs
  count_by-none [] h = tt
  count_by-none (r ∷ rs) h = ground (arith, count_by-none rs)

  none-count_by : (rs : List StepResult) → All (λ r. p r ≡ false) rs → count_by p rs ≡ 0
  none-count_by [] h = refl
  none-count_by (r ∷ rs) h = ground (arith, none-count_by rs h.1)

-- The overall status means what it says: `success` that every step succeeded, `failed` that there
-- are steps and none succeeded, `partial` that neither all nor none did.
pub overall_status-Meaning : (rs : List StepResult) → Meaning (overall_status rs) rs
unfolding overall_status
overall_status-Meaning rs = ground (
  arith,
  count_by-all (λ r. is_success r.status) rs,
  all-count_by (λ r. is_success r.status) rs,
  count_by-none (λ r. is_success r.status) rs,
  none-count_by (λ r. is_success r.status) rs,
)

-- The results are those of the steps, in order: same ids, same types, at least one attempt each.
abbrev pub Reports : List Step → List StepResult → Type 0
Reports [] [] = Unit
Reports (s ∷ ss) (r ∷ rs) =
    (r.of_step ≡ step_id s) × (r.of_type ≡ step_type s) × (1 ≤ r.attempts) × Reports ss rs
Reports [] (r ∷ rs) = ⊥
Reports (s ∷ ss) [] = ⊥

-- The logger of the context is missing or never throws.
abbrev pub IsQuiet : {W : Type 0} → Runtime W → Type 0
IsQuiet {W} rt = (e : Exn) (w : W) → (log rt e w).0 ≡ ok tt

-- What the loop pushes for one step.
abbrev Describes : Step → StepResult → Type 0
Describes step r = (r.of_step ≡ step_id step) × (r.of_type ≡ step_type step) × (1 ≤ r.attempts)

-- After the results in `acc` come those of `steps`.
abbrev Adds : {W : Type 0} → List StepResult → List Step → List StepResult → W → Type 0
Adds acc steps out _ = (rs : List StepResult) × (out ≡ acc ++ rs) × Reports steps rs

-- A result of running this playbook: its steps' results, and what the overall status means.
abbrev pub Concerns : {W : Type 0} → Playbook → ExecutionResult → W → Type 0
Concerns pb res _ =
    (res.playbook_id ≡ pb.id)
    × Reports pb.steps res.step_results
    × Meaning res.overall res.step_results

module _ {W : Type 0} (rt : Runtime W) (registry : Registry W) (pb : Playbook)
    (alert : AlertEvent) where
  attempt-Describes :
      (step : Step) (start : ℕ) (w : W)
      → Ends (λ r _. Describes step r) (λ _ _. Unit) (attempt rt registry pb alert step start w)
  unfolding attempt
  attempt-Describes step start w = ground arith

  recover-Describes :
      (quiet : IsQuiet rt) (step : Step) (start : ℕ) (e : Exn) (w : W)
      → Returns (λ r _. Describes step r) (recover rt registry pb alert step start e w)
  unfolding recover
  recover-Describes quiet step start e w = ground (arith, quiet e w)

  run_step-Describes :
      (quiet : IsQuiet rt) (step : Step) (w : W)
      → Returns (λ r _. Describes step r) (run_step rt registry pb alert step w)
  unfolding run_step
  run_step-Describes quiet step w =
      let (start, t) = rt.now w in
      Ends-try_catch (λ r _. Describes step r) (λ _ _. Unit) (λ _ _. ⊥)
        (attempt rt registry pb alert step start) (recover rt registry pb alert step start) t
        (attempt-Describes step start t) (λ e u _. recover-Describes quiet step start e u)

  run_steps-Adds :
      (quiet : IsQuiet rt) (acc : List StepResult) (steps : List Step) (w : W)
      → Returns (Adds acc steps) (run_steps rt registry pb alert acc steps w)
  unfolding run_steps
  run_steps-Adds quiet acc [] w = ([], sym (append-nil acc), tt)
  run_steps-Adds quiet acc (step ∷ rest) w =
      Ends-bind (λ r _. Describes step r) (λ _ _. ⊥) (Adds acc (step ∷ rest))
        (run_step rt registry pb alert step)
        (λ r. run_steps rt registry pb alert (acc ++ r ∷ []) rest) w
        (run_step-Describes quiet step w)
        (λ r t d.
          Returns-mono (Adds (acc ++ r ∷ []) rest) (Adds acc (step ∷ rest)) _
            (run_steps-Adds quiet (acc ++ r ∷ []) rest t)
            (λ out _ (rs, e, h). (r ∷ rs, e ∙ append_assoc acc (r ∷ []) rs, (d.0, d.1, d.2, h))))

  -- Whatever the handlers do, throwing included, and whichever are registered, the run ends in a
  -- result of this playbook: it reports every step once, in order, each with the step's own id and
  -- type and at least one attempt, and its overall status means what it says. The context's logger
  -- is missing or never throws.
  pub run_playbook-Concerns :
      (quiet : IsQuiet rt) (w : W) → Returns (Concerns pb) (run_playbook rt registry pb alert w)
  unfolding run_playbook
  run_playbook-Concerns quiet w =
      let (run_id, t) = rt.random_uuid w in
      let (started, u) = rt.now t in
      Ends-bind (Adds [] pb.steps) (λ _ _. ⊥) (Concerns pb)
        (run_steps rt registry pb alert [] pb.steps) (conclude rt registry pb alert run_id started)
        u (run_steps-Adds quiet [] pb.steps u)
        (λ out v (rs, e, h). (refl, rw e h, overall_status-Meaning out))

-- Without a handler a step's result is a failure.
abbrev Failed : StepResult → Type 0
Failed r = is_success r.status ≡ false

overall-eq-all_failed :
    (ss : List Step) (rs : List StepResult)
    → All Failed rs
    → ss ≢ []
    → Reports ss rs
    → overall_status rs ≡ all_failed
unfolding overall_status
overall-eq-all_failed [] rs h ne rep = absurd (ne refl)
overall-eq-all_failed (s ∷ ss) [] h ne rep = absurd rep
overall-eq-all_failed (s ∷ ss) (r ∷ rs) h ne rep =
    ground (arith, none-count_by (λ x. is_success x.status) (r ∷ rs) h)

module _ {W : Type 0} (rt : Runtime W) (pb : Playbook) (alert : AlertEvent)
    (quiet : IsQuiet rt) where
  run_step_unregistered :
      (step : Step) (w : W) → Returns (λ r _. Failed r) (run_step rt clear_registry pb alert step w)
  unfolding run_step get_handler clear_registry
  run_step_unregistered step w = ground (
    arith,
    quiet (error ("no handler registered for " & type_name (step_type step))) (rt.now w).1,
  )

  run_steps_unregistered :
      (acc : List StepResult) (steps : List Step) (w : W)
      → All Failed acc
      → Returns (λ out _. All Failed out) (run_steps rt clear_registry pb alert acc steps w)
  unfolding run_steps
  run_steps_unregistered acc [] w h = h
  run_steps_unregistered acc (step ∷ rest) w h =
      Ends-bind (λ r _. Failed r) (λ _ _. ⊥) (λ out _. All Failed out)
        (run_step rt clear_registry pb alert step)
        (λ r. run_steps rt clear_registry pb alert (acc ++ r ∷ []) rest) w
        (run_step_unregistered step w)
        (λ r t d.
          run_steps_unregistered (acc ++ r ∷ []) rest t (All-append Failed acc (r ∷ []) h (d, tt)))

  -- With the registry as the module creates it, empty, a run of a playbook with at least one step
  -- always ends with the overall status `failed`, whatever the playbook and the alert. The context's
  -- logger is missing or never throws.
  pub run_playbook_unregistered :
      (w : W)
      → pb.steps ≢ []
      → Returns (λ res _. res.overall ≡ all_failed) (run_playbook rt clear_registry pb alert w)
  unfolding run_playbook
  run_playbook_unregistered w some_step =
      let (run_id, t) = rt.random_uuid w in
      let (started, u) = rt.now t in
      Ends-bind (λ out v. Adds [] pb.steps out v × All Failed out) (λ _ _. ⊥)
        (λ res _. res.overall ≡ all_failed) (run_steps rt clear_registry pb alert [] pb.steps)
        (conclude rt clear_registry pb alert run_id started) u
        (Returns-and (Adds [] pb.steps) (λ out _. All Failed out) _
          (run_steps-Adds rt clear_registry pb alert quiet [] pb.steps u)
          (run_steps_unregistered [] pb.steps u tt))
        (λ out v (added, failures).
          overall-eq-all_failed pb.steps out failures some_step (rw (added.1) added.2))
