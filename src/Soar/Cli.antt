-- ===== src/Soar/Cli.antt =====
-- soar-service/src/index.ts: `runPlaybookCli`, the command line that loads a playbook and runs it once.
-- `JSON.parse` is a parameter; the log lines other than the result are left out.
pub mod Exits
mod Tests
use walmart_assignment.Base.{
  String, ℕ, suc, ◌+◌, Option, none, some, List, [], ◌∷◌, get_elem?, if◌then◌else◌, false,
}
use walmart_assignment.Base.Text.{str_eq, is_truthy}
use walmart_assignment.Base.Js.{Exn, Outcome, ok, thrown, Action, pure, ◌>>=◌, ◌>>◌, try_catch}
use walmart_assignment.Soar.Playbook.{AlertEvent, ExecutionResult, Playbook}
use walmart_assignment.Soar.Engine.{Runtime, Registry, run_playbook}
use walmart_assignment.Soar.Mapper.{Loader, Cache, load_playbook, on_world}

-- `args.indexOf(flag)`, with `none` for -1.
abbrev pub later : Option ℕ → Option ℕ
later none = none
later (some i) = some (suc i)

abbrev pub index_of : String → List String → Option ℕ
index_of flag [] = none
index_of flag (a ∷ rest) = if str_eq a flag then some 0 else later (index_of flag rest)

-- An argument that is missing or empty is falsy.
abbrev pub if_truthy : Option String → Option String
if_truthy none = none
if_truthy (some s) = if is_truthy s then some s else none

-- `args[idx + 1]`.
abbrev pub arg_after : Option ℕ → List String → Option String
arg_after none args = none
arg_after (some i) args = if_truthy (get_elem? args (suc i))

abbrev pub option_of : String → List String → Option String
option_of flag args = arg_after (index_of flag args) args

-- The two paths, or `none` where the usage is printed.
abbrev pub both : Option String → Option String → Option (String × String)
both (some a) (some p) = some (a, p)
both _ _ = none

unfoldable pub paths : List String → Option (String × String)
paths args = both (option_of "--alert" args) (option_of "--playbook" args)

-- The process ends with a code; a run that ended in a result has logged it.
pub data Exit : Type 0 where
  exits : ℕ → Option ExecutionResult → Exit

-- `registry` is the engine's map of handlers.
module _ {Doc Validator W : Type 0} (l : Loader Doc Validator W)
    (parse_alert : String → Outcome AlertEvent) (rt : Runtime (Cache Validator W))
    (registry : Registry (Cache Validator W)) where
  -- The `try` block and its `catch`.
  run_loaded : Playbook → AlertEvent → Action (Cache Validator W) Exit
  run_loaded pb alert =
      try_catch (do result ← run_playbook rt registry pb alert; pure (exits 0 (some result)))
        (λ e. pure (exits 1 none))

  run_files : String → String → Action (Cache Validator W) Exit
  unfolding run_loaded
  run_files alert_path pb_path = do
    alert_text ← on_world l (l.read_file alert_path)
    alert ← (λ s. (parse_alert alert_text, s))
    pb_text ← on_world l (l.read_file pb_path)
    pb ← load_playbook l false pb_text "v1"
    run_loaded pb alert

  start : Option (String × String) → Action (Cache Validator W) Exit
  unfolding run_files
  start none = pure (exits 1 none)
  start (some p) = run_files p.0 p.1

  unfoldable pub run_playbook_cli : List String → Action (Cache Validator W) Exit
  unfolding start
  run_playbook_cli args = start (paths args)
