-- ===== src/Soar/Engine/Tests.antt =====
-- A playbook of two steps, of which the registry handles one.
use walmart_assignment.Base.{refl, ◌≢◌, ℕ, ◌+◌, List, [], ◌∷◌, none, some}
use walmart_assignment.Base.Int.{pos}
use walmart_assignment.Base.Js.{ok, Returns}
use walmart_assignment.Soar.Playbook.{
  Step, isolate_host_step, notify_step, isolate_host, low, Playbook, AlertEvent, success,
  StepResult,
}
use walmart_assignment.Soar.Engine.{Runtime, Registry, Handler, run_playbook}
use walmart_assignment.Soar.Engine.Totals.{Concerns, IsQuiet, run_playbook-Concerns}

abbrev rt : Runtime ℕ
rt = record {
  random_uuid = λ w. ("run-1", w);
  now = λ w. (w, w + 10);
  iso = λ _. "2024-01-01T00:00:00Z";
  log_error = none;
}

abbrev two_steps : List Step
two_steps = isolate_host_step "cut" "web-1" ∷ notify_step "tell" "#soc" "on-call" "isolated" ∷ []

abbrev pb : Playbook
pb = record {
  id = "pb-1";
  name = "contain";
  description = "";
  trigger_class = "malware";
  trigger_severity = low ∷ [];
  steps = two_steps;
  version = "1.0.0";
  created_at = none;
}

abbrev alert : AlertEvent
alert = record {
  id = "a-1";
  class = "malware";
  severity = low;
  context = [];
  ts = "2024-01-01T00:00:00Z";
}

abbrev done : StepResult
done = record {
  of_step = "";
  of_type = isolate_host;
  status = success;
  attempts = 0;
  duration_ms = pos 0;
  output = none;
  error = none;
}

abbrev handler : Handler ℕ
handler p s a w = (ok done, w + 5)

abbrev registry : Registry ℕ
registry isolate_host = some handler
registry _ = none

rt-IsQuiet : IsQuiet rt
rt-IsQuiet e w = refl

two_steps_ne : two_steps ≢ []
two_steps_ne h = absurd (cc)

run_playbook-Concerns_example : Returns (Concerns pb) (run_playbook rt registry pb alert 0)
run_playbook-Concerns_example = run_playbook-Concerns rt registry pb alert rt-IsQuiet 0
