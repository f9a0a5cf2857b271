-- ===== src/Soar/Engine.antt =====
-- soar-service/src/engine/index.ts and registry.ts: the handler registry, and the run of a playbook.
pub mod Handlers
pub mod Totals
mod Tests
use walmart_assignment.Base.{
  String, ℕ, Bool, true, false, Option, none, some, List, [], ◌∷◌, ltb, ◌==◌, if◌then◌else◌, length,
  count_by, ◌++◌,
}
use walmart_assignment.Base.Text.{◌&◌}
use walmart_assignment.Base.Int.{sub_ℕ}
use walmart_assignment.Base.Js.{
  Exn, error, message_of, Outcome, ok, thrown, Action, pure, throw, ◌>>=◌, ◌>>◌, call, try_catch,
  or_throw,
}
use walmart_assignment.Soar.Playbook.{
  StepType, isolate_host, reset_password, notify, same_type, Step, step_id, step_type, Playbook,
  AlertEvent, Status, failed, is_success, StepResult, Overall, all_success, all_failed, partial,
  ExecutionResult,
}

-- What the engine takes from its runtime: identifiers, the clock, `toISOString`, and the logger of
-- `ctx`, which may be missing.
pub record Runtime (W : Type 0) : Type 0 where
  pub random_uuid : W → String × W
  pub now : W → ℕ × W
  pub iso : ℕ → String
  pub log_error : Option (Exn → Action W (Unit {0}))

abbrev pub Handler : Type 0 → Type 0
Handler W = Playbook → Step → AlertEvent → Action W StepResult

-- `new Map<StepType, StepHandler>()`.
abbrev pub Registry : Type 0 → Type 0
Registry W = StepType → Option (Handler W)

abbrev pub type_name : StepType → String
type_name isolate_host = "isolate_host"
type_name reset_password = "reset_password"
type_name notify = "notify"

-- `registry.clear()`, and the state of the module when it is loaded.
unfoldable pub clear_registry : {W : Type 0} → Registry W
clear_registry _ = none

abbrev pub has : {W : Type 0} → StepType → Registry W → Bool
has t r = elim (r t) [ none ↦ false | some _ ↦ true ]

unfoldable pub register : {W : Type 0} → StepType → Handler W → Action (Registry W) (Unit {0})
register t fn r =
    if has t r
    then (thrown (error ("handler already registered for " & type_name t)), r)
    else (ok tt, λ u. if same_type t u then some fn else r u)

unfoldable pub get_handler : {W : Type 0} → StepType → Registry W → Outcome (Handler W)
get_handler t r = elim (r t) [
  | none ↦ thrown (error ("no handler registered for " & type_name t))
  | some fn ↦ ok fn
]

-- `if (ctx.logger) ctx.logger.error(err)`.
abbrev pub log : {W : Type 0} → Runtime W → Exn → Action W (Unit {0})
log rt e = elim rt.log_error [ none ↦ pure tt | some write ↦ write e ]

-- The reduction after the loop: the number of successes decides the overall status.
unfoldable pub overall_status : List StepResult → Overall
overall_status results =
    let n = count_by (λ r. is_success r.status) results in
    if n == length results then all_success else if ltb 0 n then partial else all_failed

module _ {W : Type 0} (rt : Runtime W) (registry : Registry W) (pb : Playbook)
    (alert : AlertEvent) where
  -- The `try` block of the loop: the handler's result under the step's own id and type.
  attempt : Step → ℕ → Action W StepResult
  attempt step start = do
    handler ← (λ w. (get_handler (step_type step) registry, w))
    res ← handler pb step alert
    end ← call rt.now
    pure (record res {
      of_step = step_id step;
      of_type = step_type step;
      attempts = if res.attempts == 0 then 1 else res.attempts;
      duration_ms = sub_ℕ end start;
    })

  -- The `catch` block: a failed result that carries the message.
  recover : Step → ℕ → Exn → Action W StepResult
  recover step start e = do
    log rt e
    end ← call rt.now
    pure (record {
      of_step = step_id step;
      of_type = step_type step;
      status = failed;
      attempts = 1;
      duration_ms = sub_ℕ end start;
      output = none;
      error = some (message_of e);
    })

  unfoldable pub run_step : Step → Action W StepResult
  unfolding attempt recover
  run_step step = do start ← call rt.now; try_catch (attempt step start) (recover step start)

  -- The `for` loop over the steps, with the results pushed so far.
  unfoldable pub run_steps : List StepResult → List Step → Action W (List StepResult)
  run_steps acc [] = pure acc
  run_steps acc (step ∷ rest) = run_step step >>= λ status. run_steps (acc ++ status ∷ []) rest

  -- What follows the loop.
  conclude : String → ℕ → List StepResult → Action W ExecutionResult
  conclude run_id started results = do
    ended ← call rt.now
    pure (record {
      run_id = run_id;
      playbook_id = pb.id;
      overall = overall_status results;
      step_results = results;
      started_at = rt.iso started;
      ended_at = rt.iso ended;
    })

  unfoldable pub run_playbook : Action W ExecutionResult
  unfolding conclude
  run_playbook = do
    run_id ← call rt.random_uuid
    started ← call rt.now
    results ← run_steps [] pb.steps
    conclude run_id started results
