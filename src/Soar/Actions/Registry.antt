-- ===== src/Soar/Actions/Registry.antt =====
-- soar-service/src/actions/index.ts: the map of the actions, and the built-in ones that it registers.
use walmart_assignment.Base.{
  ◌≡◌, refl, String, Bool, true, false, Option, none, some, if◌then◌else◌,
}
use walmart_assignment.Base.Text.{◌&◌}
use walmart_assignment.Base.Js.{Outcome, ok, thrown, error, Action, ◌>>◌}
use walmart_assignment.Soar.Playbook.{
  StepType, same_type, Step, isolate_host_step, reset_password_step, notify_step, step_type,
  Playbook, AlertEvent,
}
use walmart_assignment.Soar.Actions.{
  ActionResult, ActionServices, isolate_host, reset_password, notify,
}

abbrev pub ActionHandler : Type 0 → Type 0
ActionHandler W = Playbook → Step → AlertEvent → Action W ActionResult

-- `new Map<StepType, ActionHandler>()`.
abbrev pub ActionRegistry : Type 0 → Type 0
ActionRegistry W = StepType → Option (ActionHandler W)

abbrev type_name : StepType → String
type_name StepType.isolate_host = "isolate_host"
type_name StepType.reset_password = "reset_password"
type_name StepType.notify = "notify"

unfoldable pub clear_actions : {W : Type 0} → ActionRegistry W
clear_actions t = none

abbrev has_action : {W : Type 0} → StepType → ActionRegistry W → Bool
has_action t r = elim (r t) [ none ↦ false | some fn ↦ true ]

unfoldable pub register_action :
    {W : Type 0} → StepType → ActionHandler W → Action (ActionRegistry W) (Unit {0})
register_action t fn r =
    if has_action t r
    then (thrown (error ("handler already registered for " & type_name t)), r)
    else (ok tt, λ u. if same_type t u then some fn else r u)

unfoldable pub get_action : {W : Type 0} → StepType → ActionRegistry W → Outcome (ActionHandler W)
get_action t r = elim (r t) [
  | none ↦ thrown (error ("no handler registered for " & type_name t))
  | some fn ↦ ok fn
]

-- `miscast` stands for an action on a step of another type, whose fields are `undefined`.
module _ {Ssh W : Type 0} (a : ActionServices Ssh W) (miscast : ActionHandler W) where
  abbrev on_isolate : ActionHandler W
  on_isolate pb (isolate_host_step id host) alert = isolate_host a pb id host
  on_isolate pb step alert = miscast pb step alert

  abbrev on_reset : ActionHandler W
  on_reset pb (reset_password_step id host user) alert = reset_password a pb id host user
  on_reset pb step alert = miscast pb step alert

  abbrev on_notify : ActionHandler W
  on_notify pb (notify_step id channel target message) alert = notify a pb id channel target message
  on_notify pb step alert = miscast pb step alert

  -- The calls of `register` at the end of the module.
  unfoldable pub register_built_in : Action (ActionRegistry W) (Unit {0})
  register_built_in = do
    register_action StepType.isolate_host on_isolate
    register_action StepType.reset_password on_reset
    register_action StepType.notify on_notify

  -- The action of a step, on the step's own fields.
  abbrev pub action_of : Playbook → Step → Action W ActionResult
  action_of pb (isolate_host_step id host) = isolate_host a pb id host
  action_of pb (reset_password_step id host user) = reset_password a pb id host user
  action_of pb (notify_step id channel target message) = notify a pb id channel target message

  -- Once the module is loaded, every step has the action of its type: looking up its type succeeds,
  -- and the handler runs that action on the step's own fields. Loading the module does not throw.
  pub get_action-register_built_in :
      (pb : Playbook) (step : Step) (alert : AlertEvent)
      → ((register_built_in clear_actions).0 ≡ ok tt)
        × ((fn : ActionHandler W) × (get_action (step_type step) (register_built_in clear_actions).1
              ≡ ok fn)
            × (fn pb step alert ≡ action_of pb step))
  unfolding register_built_in register_action get_action clear_actions
  get_action-register_built_in pb (isolate_host_step id host) alert =
      (refl, (on_isolate, refl, refl))
  get_action-register_built_in pb (reset_password_step id host user) alert =
      (refl, (on_reset, refl, refl))
  get_action-register_built_in pb (notify_step id channel target message) alert =
      (refl, (on_notify, refl, refl))
