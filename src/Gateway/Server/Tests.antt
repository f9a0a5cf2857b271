-- ===== src/Gateway/Server/Tests.antt =====
-- A list of two origins, a request to a service, and the shutdown.
use walmart_assignment.Base.{
  ◌≡◌, refl, String, ℕ, ◌+◌, true, false, none, some, List, [], ◌∷◌, map, ◌&&◌,
}
use walmart_assignment.Base.Text.{str_eq, join}
use walmart_assignment.Base.Js.{ok, thrown, error}
use walmart_assignment.Gateway.Auth.{jwt_auth}
use walmart_assignment.Gateway.Proxy.{ProxyServices, Result, proxy}
use walmart_assignment.Gateway.Usage.{openai_usage}
use walmart_assignment.Gateway.App.{alerts, AppServices, AppRequest, App, handle}
use walmart_assignment.Gateway.App.Requests.{Verified, Forwarded}
use walmart_assignment.Gateway.Server.{
  trim, origins_of, any_origin, cors_of, Front, health, serve, shutdown,
}
use walmart_assignment.Gateway.Server.Origins.{Piece, padded, blank, text_in, origins_of-join}
use walmart_assignment.Gateway.Server.Public.{serve-answered}

abbrev pieces : List Piece
pieces = padded " " "http://a" " " ∷ blank " " ∷ blank "" ∷ padded "" "http://b" "" ∷ []

origins_of-join_example : origins_of (join "," (map text_in pieces)) ≡ "http://a" ∷ "http://b" ∷ []
origins_of-join_example = origins_of-join pieces (
  ((refl, tt), ((refl, refl), refl, refl), (refl, tt)),
  ((refl, tt), (tt, ((tt, ((refl, refl), refl, refl), tt), tt))),
)

spaced : origins_of " http://a ,, http://b" ≡ "http://a" ∷ "http://b" ∷ []
unfolding origins_of trim
spaced = refl

-- A list that holds nothing allows every origin.
open_to_all : cors_of " , " ≡ any_origin
unfolding cors_of origins_of trim
open_to_all = refl

abbrev upstream : ProxyServices String ℕ
upstream = record {
  resolve = λ url target. ok url;
  fetch = λ url o w. (ok (record { status = 200; text = "{}" }), w + 1);
  parse = λ text. ok text;
  check_schema = λ v. ok tt;
  fire = λ action fall w. (ok (record { status = 200; body = none }), w);
  unavailable = "";
}

abbrev services : AppServices String ℕ String ℕ
services = record {
  auth = record {
    jwt_verify = λ token secret skew w. (ok token, w);
    safe_parse = λ d. some (record { id = "u-1"; roles = []; tenant_id = "t-1" });
  };
  env = λ name. none;
  usage = record { parse = λ header. thrown (error "none"); insert = λ u w. (ok tt, w) };
  hrtime = λ w. (w, w + 1);
  mounted = λ path url. str_eq path url;
  upstream = λ name. upstream;
}

abbrev front : Front ℕ
front = record {
  gets = λ path method url. str_eq method "GET" && str_eq path url;
  mounted = λ path url. str_eq path url;
  render_metrics = λ w. (ok "up 1", w);
}

abbrev request : AppRequest
request = record {
  proxied = record {
    original_url = "/alerts";
    method = "GET";
    authorization = some "Bearer token";
    content_type = none;
    body_json = "";
  };
  usage_header = none;
}

abbrev fresh : App ℕ
fresh = record { user = none; listeners = []; world = 0 }

checked : serve front services "GET" "/healthz" request fresh ≡ (ok health, fresh)
unfolding serve
checked = refl

abbrev reply : Result String
reply = record { status = 200; body = none }

abbrev ended : App ℕ
ended = (serve front services "GET" "/alerts" request fresh).1

serve-answered_example :
    (front.gets "/healthz" "GET" "/alerts" ≡ false)
    × (front.gets "/metrics" "GET" "/alerts" ≡ false)
    × (front.gets "/docs-json" "GET" "/alerts" ≡ false)
    × (front.mounted "/docs" "/alerts" ≡ false)
    × Verified services (some "Bearer token") 0
    × Forwarded services request alerts reply
unfolding serve handle jwt_auth openai_usage proxy
serve-answered_example =
    serve-answered front services "GET" "/alerts" request alerts reply fresh ended refl

-- A socket server that cannot be closed keeps the process from its end.
stuck :
    shutdown {W = ℕ} (λ w. (thrown (error "busy"), w)) true [] 0 ≡ (thrown (error "busy"), ([], 0))
unfolding shutdown
stuck = refl
