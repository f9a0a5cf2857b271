-- ===== src/Gateway/Tests.antt =====
-- A request with a token, a request for the ledger, and an upstream that answers.
use walmart_assignment.Base.{refl, List, ◌≡◌, String, ℕ, ◌+◌, none, some, [], ◌∷◌, inr, false, true}
use walmart_assignment.Base.Js.{ok, Returns}
use walmart_assignment.Gateway.Auth.{
  JwtPayload, AuthServices, AuthOptions, Authenticated, jwt_auth, Authentication,
  jwt_auth-Authentication,
}
use walmart_assignment.Gateway.Metrics.Globals.{
  Registry, Globals, load, load_again, init_defaults, init_requests, init_ledger, init_latency,
  load-load_again,
}
use walmart_assignment.Gateway.Usage.{Usage, UsageServices}
use walmart_assignment.Gateway.Sockets.{Event, connected, passed, run, sweep, start, sweep-run}
use walmart_assignment.Gateway.Proxy.{
  Request, ProxyServices, proxy, IsBreaker, IsSound, proxy-IsSound,
}

abbrev payload : JwtPayload
payload = record { id = "u-1"; roles = "soc" ∷ []; tenant_id = "t-1" }

abbrev tokens : AuthServices String ℕ
tokens = record {
  jwt_verify = λ token secret skew w. (ok token, w);
  safe_parse = λ d. some payload;
}

abbrev options : AuthOptions
options = record { clock_skew = none }

abbrev anonymous : Authenticated ℕ
anonymous = record { user = none; world = 0 }

jwt_auth-Authentication_example :
    Returns
      (Authentication tokens options (some "secret") (some "Bearer token") anonymous)
      (jwt_auth tokens options (some "secret") (some "Bearer token") anonymous)
jwt_auth-Authentication_example =
    jwt_auth-Authentication tokens options (some "secret") (some "Bearer token") anonymous

-- The breaker runs what it is given.
abbrev services : ProxyServices String ℕ
services = record {
  resolve = λ url target. ok url;
  fetch = λ url o w. (ok (record { status = 200; text = "{}" }), w + 1);
  parse = λ text. ok text;
  check_schema = λ v. ok tt;
  fire = λ action fall w. action w;
  unavailable = "Upstream unavailable";
}

services-IsBreaker : IsBreaker services "http://users"
services-IsBreaker action r w w' h = inr h

abbrev request : Request
request = record {
  original_url = "/users";
  method = "GET";
  authorization = some "Bearer token";
  content_type = none;
  body_json = "";
}

proxy-IsSound_example :
    Returns
      (λ r _. IsSound services "http://users" request "/users" 0 r)
      (proxy services "http://users" request 0)
proxy-IsSound_example =
    proxy-IsSound services "http://users" services-IsBreaker request "/users" 0 refl

abbrev usage : Usage ℕ
usage = record { model = "gpt"; prompt_tokens = 5; completion_tokens = 7; cost = 1 }

abbrev pool : UsageServices ℕ ℕ
pool = record { parse = λ header. ok usage; insert = λ u w. (ok tt, w + 1) }

-- A client that is silent for an hour.
abbrev silent : List Event
silent = connected "c-1" "/" ∷ connected "c-2" "/socket" ∷ passed 3600000 ∷ []

sweep-run_example : sweep (run silent start) ≡ run silent start
sweep-run_example = sweep-run silent

-- A registry that counts the metrics it is given.
abbrev registry : Registry ℕ
registry = record {
  collect_default_metrics = λ w. (ok tt, w + 1);
  new_metric = λ name buckets w. (ok tt, w + 1);
}

abbrev unloaded : Globals ℕ
unloaded = record {
  metrics_initialized = false;
  api_request_counter = false;
  ledger_log_counter = false;
  api_latency_histogram = false;
  world = 0;
}

abbrev loaded : Globals ℕ
loaded = record {
  metrics_initialized = true;
  api_request_counter = true;
  ledger_log_counter = true;
  api_latency_histogram = true;
  world = 4;
}

load-load_again_example : load_again registry 3 loaded ≡ (ok tt, loaded)
unfolding load init_defaults init_requests init_ledger init_latency
load-load_again_example = load-load_again registry unloaded loaded 3 refl
