-- ===== src/Soar/Cli/Tests.antt =====
-- A playbook of two steps, run from the command line.
use walmart_assignment.Base.{refl, String, ℕ, none, List, [], ◌∷◌}
use walmart_assignment.Base.Json.{Json}
use walmart_assignment.Base.Js.{ok, Outcome}
use walmart_assignment.Soar.Playbook.{isolate_host_step, notify_step, low, Playbook, AlertEvent}
use walmart_assignment.Soar.Engine.{Runtime, clear_registry}
use walmart_assignment.Soar.Engine.Totals.{IsQuiet}
use walmart_assignment.Soar.Mapper.{Loader, Cache}
use walmart_assignment.Soar.Cli.{run_playbook_cli}
use walmart_assignment.Soar.Cli.Exits.{Ended, run_playbook_cli-Ended}

abbrev parsed : Playbook
parsed = record {
  id = "pb-1";
  name = "contain";
  description = "";
  trigger_class = "malware";
  trigger_severity = low ∷ [];
  steps = isolate_host_step "cut" "web-1" ∷ notify_step "tell" "#soc" "on-call" "isolated" ∷ [];
  version = "1.0.0";
  created_at = none;
}

abbrev alert : AlertEvent
alert = record {
  id = "a-1";
  class = "malware";
  severity = low;
  context = [];
  ts = "2024-01-01T00:00:00Z";
}

-- A file holds its own path; the world counts the reads.
abbrev loader : Loader String String ℕ
loader = record {
  read_file = λ path w. (ok path, ℕ.suc w);
  parse_all = λ text. text ∷ [];
  doc_errors = λ doc. [];
  line_pos = λ text n. (1, n);
  to_js = λ doc. Json.null;
  node_start = λ doc path. none;
  schema_path = λ v. v;
  compile = λ schema w. (ok schema, w);
  check = λ v j. [];
  errors_text = λ v j. "";
  parse_schema = λ j. ok parsed;
  warn = λ u w. (tt, w);
  now_iso = λ w. ("2024-01-01T00:00:00Z", w);
}

abbrev rt : Runtime (Cache String ℕ)
rt = record {
  random_uuid = λ s. ("run-1", s);
  now = λ s. (s.world, s);
  iso = λ _. "2024-01-01T00:00:00Z";
  log_error = none;
}

rt-IsQuiet : IsQuiet rt
rt-IsQuiet e s = refl

abbrev parse_alert : String → Outcome AlertEvent
parse_alert text = ok alert

abbrev fresh : Cache String ℕ
fresh = record { validators = []; world = 0 }

abbrev args : List String
args = "run-playbook" ∷ "--alert" ∷ "alert.json" ∷ "--playbook" ∷ "pb.yaml" ∷ []

run_playbook_cli-Ended_example :
    Ended loader parse_alert rt args fresh
      (run_playbook_cli loader parse_alert rt clear_registry args fresh)
run_playbook_cli-Ended_example = run_playbook_cli-Ended loader parse_alert rt rt-IsQuiet args fresh
