-- ===== src/Gateway/App.antt =====
-- api-gateway/src/server.ts, the routers under routes/ and config/services.ts: the application that a
-- request runs through after the public routes. helmet, cors, morgan and the body parser, which come
-- first, are left out.
pub mod Requests
pub mod Counts
mod Tests
use walmart_assignment.Base.{
  String, ℕ, Bool, Option, none, some, List, [], ◌∷◌, ◌++◌, if◌then◌else◌,
}
use walmart_assignment.Base.Http.{Reply, next, respond, Body}
use walmart_assignment.Base.Js.{Outcome, ok, Action, pure, ◌>>=◌, ◌>>◌}
use walmart_assignment.Gateway.Auth.{JwtPayload, AuthServices, AuthOptions, Authenticated, jwt_auth}
use walmart_assignment.Gateway.Usage.{UsageServices, openai_usage}
use walmart_assignment.Gateway.Metrics.{Listener}
use walmart_assignment.Gateway.Proxy.{ProxyServices, Request, Result, proxy}

pub data ServiceName : Type 0 where
  alerts sessions users soar ledger : ServiceName

-- `envMap`.
abbrev pub variable_of : ServiceName → String
variable_of alerts = "ALERTS_URL"
variable_of sessions = "IAM_URL"
variable_of users = "IAM_URL"
variable_of soar = "SOAR_URL"
variable_of ledger = "LEDGER_URL"

-- The label of the tracker before each router, and the path on which the router mounts its proxy.
abbrev pub route_of : ServiceName → String
route_of alerts = "alerts"
route_of sessions = "sessions"
route_of users = "users"
route_of soar = "soar"
route_of ledger = "ledger"

abbrev pub mount_of : ServiceName → String
mount_of alerts = "/alerts"
mount_of sessions = "/sessions"
mount_of users = "/users"
mount_of soar = "/soar"
mount_of ledger = "/ledger"

-- The routers in the order of `createApp`.
abbrev pub routers : List ServiceName
routers = alerts ∷ sessions ∷ users ∷ soar ∷ ledger ∷ []

-- `env` is `process.env`; `mounted path url` says whether Express runs what is mounted on the path;
-- `upstream` gives each service's proxy its breaker and its schema.
pub record AppServices (Decoded Num V W : Type 0) : Type 0 where
  pub auth : AuthServices Decoded W
  pub env : String → Option String
  pub usage : UsageServices Num W
  pub hrtime : W → ℕ × W
  pub mounted : String → String → Bool
  pub upstream : ServiceName → ProxyServices V W

pub record AppRequest : Type 0 where
  pub proxied : Request
  pub usage_header : Option String

-- `req.user`, the listeners of the response, and the world.
pub record App (W : Type 0) : Type 0 where
  pub user : Option JwtPayload
  pub listeners : List Listener
  pub world : W

-- How a request ends: refused with 401, with the answer of a service's proxy, or unrouted (404).
pub data Sent (V : Type 0) : Type 0 where
  unauthorized : Sent V
  answered : ServiceName → Result V → Sent V
  not_found : Sent V

module _ {Decoded Num V W : Type 0} (v : AppServices Decoded Num V W) where
  -- `getServiceUrl`.
  pub get_service_url : ServiceName → String
  get_service_url name = elim (v.env (variable_of name)) [ none ↦ "" | some url ↦ url ]

  abbrev pub on_world : {A : Type 0} → Action W A → Action (App W) A
  on_world m s = let (r, w) = m s.world in (r, record s { world = w })

  -- `auth()`.
  pub auth : Option String → Action (App W) (Reply (Body (Unit {0})))
  auth header s =
      let (r, t) =
        jwt_auth v.auth (record { clock_skew = none }) (v.env "JWT_SECRET") header
          (record { user = s.user; world = s.world }) in
      (r, record s { user = t.user; world = t.world })

  -- What follows a middleware, if it lets the request go on.
  pub go_on : Reply (Body (Unit {0})) → Action (App W) (Sent V) → Action (App W) (Sent V)
  go_on next rest = rest
  go_on (respond status body) rest = pure unauthorized

  -- `trackRoute(id)`.
  pub track : String → Action (App W) (Unit {0})
  track id s =
      let (start, w) = v.hrtime s.world in
      (
        ok tt,
        record s {
          listeners = s.listeners ++ record { route = id; start = start } ∷ [];
          world = w;
        },
      )

  -- The tracker that the router of the ledger has itself.
  pub track_inside : ServiceName → Action (App W) (Unit {0})
  unfolding track
  track_inside ledger = track "ledger"
  track_inside name = pure tt

  pub forward : AppRequest → ServiceName → Action (App W) (Sent V)
  unfolding get_service_url
  forward req name = do
    r ← on_world (proxy (v.upstream name) (get_service_url name) req.proxied)
    pure (answered name r)

  -- `router.use(mount, [trackRoute,] auth(), json(), proxy)`.
  pub router : AppRequest → ServiceName → Action (App W) (Sent V)
  unfolding track_inside auth forward go_on
  router req name = do
    track_inside name
    a ← auth req.proxied.authorization
    go_on a (forward req name)

  -- The layers `app.use(trackRoute(id), router)`; a router that is not mounted on the path passes on.
  pub route_through : List ServiceName → AppRequest → Action (App W) (Sent V)
  unfolding router track
  route_through [] req = pure not_found
  route_through (name ∷ rest) req =
      let others = route_through rest req in
      track (route_of name)
      >> (if v.mounted (mount_of name) req.proxied.original_url then router req name else others)

  -- The layers from the global `auth()` on.
  unfoldable pub handle : AppRequest → Action (App W) (Sent V)
  unfolding auth route_through go_on
  handle req = do
    a ← auth req.proxied.authorization
    go_on a (do on_world (openai_usage v.usage req.usage_header); route_through routers req)
