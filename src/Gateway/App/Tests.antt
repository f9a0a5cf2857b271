-- ===== src/Gateway/App/Tests.antt =====
-- A request to the ledger, which two trackers count.
use walmart_assignment.Base.{◌≡◌, refl, String, ℕ, ◌+◌, none, some, [], ◌∷◌}
use walmart_assignment.Base.Text.{str_eq}
use walmart_assignment.Base.Js.{ok}
use walmart_assignment.Gateway.Auth.{JwtPayload, jwt_auth}
use walmart_assignment.Gateway.Usage.{Usage, openai_usage}
use walmart_assignment.Gateway.Metrics.{Label, Listener, Metrics, Finished, finish}
use walmart_assignment.Gateway.Proxy.{ProxyServices, Result, proxy}
use walmart_assignment.Gateway.App.{
  ledger, AppServices, AppRequest, App, answered, handle, routers, route_through,
}
use walmart_assignment.Gateway.App.Counts.{finish-route_through}

abbrev payload : JwtPayload
payload = record { id = "u-1"; roles = []; tenant_id = "t-1" }

abbrev usage : Usage ℕ
usage = record { model = "gpt"; prompt_tokens = 5; completion_tokens = 7; cost = 1 }

abbrev upstream : ProxyServices String ℕ
upstream = record {
  resolve = λ url target. ok url;
  fetch = λ url o w. (ok (record { status = 200; text = "{}" }), w + 1);
  parse = λ text. ok text;
  check_schema = λ v. ok tt;
  fire = λ action fall w. (ok (record { status = 201; body = none }), w + 1);
  unavailable = "";
}

abbrev services : AppServices String ℕ String ℕ
services = record {
  auth = record {
    jwt_verify = λ token secret skew w. (ok token, w + 1);
    safe_parse = λ d. some payload;
  };
  env = λ name. some name;
  usage = record { parse = λ header. ok usage; insert = λ u w. (ok tt, w + 1) };
  hrtime = λ w. (w, w + 1);
  mounted = λ path url. str_eq path url;
  upstream = λ name. upstream;
}

abbrev request : AppRequest
request = record {
  proxied = record {
    original_url = "/ledger";
    method = "GET";
    authorization = some "Bearer token";
    content_type = none;
    body_json = "";
  };
  usage_header = none;
}

abbrev fresh : App ℕ
fresh = record { user = none; listeners = []; world = 0 }

abbrev reply : Result String
reply = record { status = 201; body = none }

abbrev listener : String → ℕ → Listener
listener route start = record { route = route; start = start }

abbrev ended : App ℕ
ended = record {
  user = some payload;
  listeners =
      listener "alerts" 1
      ∷ listener "sessions" 2
      ∷ listener "users" 3
      ∷ listener "soar" 4
      ∷ listener "ledger" 5
      ∷ listener "ledger" 6
      ∷ [];
  world = 9;
}

handled : handle services request fresh ≡ (ok (answered ledger reply), ended)
unfolding handle jwt_auth openai_usage proxy
handled = refl

abbrev of_route : String → Label
of_route id = record { route = id; status = 201 }

abbrev empty : Metrics ℕ
empty = record { requests = []; latencies = []; ledger_logs = []; clock = 90 }

abbrev finished : Finished
finished = record { path = "/"; status_code = 201 }

finish-route_through_example :
    (finish
      (λ n. n)
      (λ n. n + 1)
      finished
      (route_through services routers request fresh).1.listeners
      empty).requests
    ≡ of_route "ledger"
      ∷ of_route "ledger"
      ∷ of_route "soar"
      ∷ of_route "users"
      ∷ of_route "sessions"
      ∷ of_route "alerts"
      ∷ []
finish-route_through_example =
    finish-route_through services (λ n. n) (λ n. n + 1) request fresh finished empty refl
