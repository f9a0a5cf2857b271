-- ===== src/Soar/Mapper/Tests.antt =====
-- A playbook file of one document and two steps.
use walmart_assignment.Base.{◌≡◌, refl, String, ℕ, List, [], ◌∷◌, none, some}
use walmart_assignment.Base.Json.{Json}
use walmart_assignment.Base.Js.{ok, for_each}
use walmart_assignment.Soar.Playbook.{Step, isolate_host_step, reset_password_step, Playbook}
use walmart_assignment.Soar.Mapper.{
  Loader, Cache, get_validator, check_ids, load_text, load_doc, load_value, accept, with_created_at,
  first_doc, check_schema, find_unknown,
}
use walmart_assignment.Soar.Mapper.Laws.{Loaded, load_text-Loaded, get_validator_once}

abbrev two_steps : List Step
two_steps = isolate_host_step "cut" "web-1" ∷ reset_password_step "reset" "web-1" "ann" ∷ []

abbrev parsed : Playbook
parsed = record {
  id = "pb-1";
  name = "contain";
  description = "";
  trigger_class = "malware";
  trigger_severity = [];
  steps = two_steps;
  version = "1.0.0";
  created_at = none;
}

abbrev pb : Playbook
pb = record parsed { created_at = some "2024-01-01T00:00:00Z" }

-- The document is its text; the validator is the schema's text; the world counts the effects.
abbrev loader : Loader String String ℕ
loader = record {
  read_file = λ path w. (ok path, ℕ.suc w);
  parse_all = λ text. text ∷ [];
  doc_errors = λ doc. [];
  line_pos = λ text n. (1, n);
  to_js = λ doc. Json.null;
  node_start = λ doc path. none;
  schema_path = λ v. v;
  compile = λ schema w. (ok schema, ℕ.suc w);
  check = λ v j. [];
  errors_text = λ v j. "";
  parse_schema = λ j. ok parsed;
  warn = λ u w. (tt, ℕ.suc w);
  now_iso = λ w. ("2024-01-01T00:00:00Z", w);
}

abbrev fresh : Cache String ℕ
fresh = record { validators = []; world = 0 }

abbrev warm : Cache String ℕ
warm = record { validators = ("v1", "v1") ∷ []; world = 2 }

loads : load_text loader "v1" "doc" fresh ≡ (ok pb, warm)
unfolding load_text load_doc load_value accept with_created_at first_doc check_schema get_validator
    find_unknown check_ids for_each
loads = refl

load_text-Loaded_example : Loaded loader "v1" "doc" fresh pb
load_text-Loaded_example = load_text-Loaded loader "v1" "doc" pb fresh warm loads

validates : get_validator loader "v1" fresh ≡ (ok "v1", warm)
unfolding get_validator
validates = refl

get_validator_once_example : get_validator loader "v1" warm ≡ (ok "v1", warm)
get_validator_once_example = get_validator_once loader "v1" fresh warm "v1" validates
