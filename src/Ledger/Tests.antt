-- ===== src/Ledger/Tests.antt =====
-- A peer that is unavailable at first, and a request to log.
use walmart_assignment.Base.{String, ℕ, ◌+◌, ◌≤◌, false, none, some, [], arith, ltb, if◌then◌else◌}
use walmart_assignment.Base.Js.{ok, thrown, Action, error, Returns}
use walmart_assignment.Ledger.Client.{
  AlertAction, VerifyResult, FabricServices, Client, retry, Retried, tries, retry-Retried,
}
use walmart_assignment.Ledger.Routes.{
  Backend, Server, Logged, post_log_event, post_log_event-Logged,
}

abbrev event : AlertAction
event = record {
  id = "1";
  run_id = "r";
  playbook_id = "p";
  step_id = "s";
  action = "notify";
  status = "success";
  timestamp = "noon";
}

abbrev unverified : VerifyResult
unverified = record { valid = false; ledger_hash = ""; provided_hash = "" }

abbrev fabric : FabricServices String String String ℕ
fabric = record {
  unavailable = λ m. false;
  sleep = λ d w. (tt, w + d);
  read_config = λ w. (ok tt, w);
  new_gateway = λ w. ("gateway", w + 1);
  connect = λ g w. (thrown (error "refused"), w + 1);
  contract_of = λ g w. (ok "contract", w);
  create_transaction = λ c w. (ok "tx", w);
  transaction_id = λ tx. tx;
  submit = λ tx body w. (ok tt, w);
  evaluate_verify = λ c key hash w. (ok "", w);
  evaluate_export = λ c w. (ok "", w);
  parse_event = λ e. ok e;
  stringify = λ e. e.id;
  parse_result = λ buf. ok unverified;
}

-- gRPC's code 14 until the clock has reached 60.
abbrev unavailable_first : Action ℕ ℕ
unavailable_first w =
    if ltb w 60 then (thrown (record (error "down") { code = some 14 }), w) else (ok w, w)

retry-Retried_example :
    (tr : Retried fabric unavailable_first 3 (retry fabric unavailable_first 3 0) 0 0) × (tries
        fabric unavailable_first 3 tr
      ≤ 3)
retry-Retried_example = retry-Retried fabric unavailable_first 3 0 (omega arith)

abbrev backend : Backend String (Unit {0}) ℕ
backend = record {
  log_event = λ e w. (thrown (error "down"), w + 1);
  verify_integrity = λ key hash w. (ok unverified, w);
  export_csv = λ w. (ok "", w);
  parse_action = λ body. some event;
  parse_event = λ body. none;
  sha256_hex = λ s. s;
  stringify = λ e. e.action;
  invoke = λ name args w. (ok tt, w);
}

abbrev server : Server ℕ
server = record { logged = []; world = 0 }

post_log_event-Logged_example :
    Returns (Logged backend (some event) server) (post_log_event backend "body" server)
post_log_event-Logged_example = post_log_event-Logged backend "body" server

abbrev no_gateway : Client String ℕ
no_gateway = record { gateway = none; world = 0 }
