-- ===== src/Iam/Router.antt =====
-- iam-service/src/routes/sessions.ts, mountSessionRoutes, with attachAuthz of middleware/authz.ts: the
-- guard, the authorization and the handlers that a request for sessions runs through. Express is left
-- out: a request names the route that it matches.
pub mod Owners
mod Tests
use walmart_assignment.Base.{String, ℕ, Option, none, some}
use walmart_assignment.Base.Text.{◌&◌}
use walmart_assignment.Base.Http.{Reply, next, respond}
use walmart_assignment.Base.Js.{ok, Action, pure, ◌>>=◌}
use walmart_assignment.Iam.Access.{Caller}
use walmart_assignment.Iam.Jwt.{Claims}
use walmart_assignment.Iam.Authz.{Request, AuthzServices, Authz, authz_middleware}
use walmart_assignment.Iam.Authz
use walmart_assignment.Iam.Sessions.{
  SessionServices, Sessions, list_sessions, delete_session, require_authorization,
}
use walmart_assignment.Iam.Sessions

-- The router's two routes, and a path that is neither.
pub data Target (Query : Type 0) : Type 0 where
  sessions : Query → Target Query
  session : String → Target Query
  elsewhere : String → String → Target Query

-- `req.method` and `req.path`, below `/api`.
abbrev pub method_of : {Q : Type 0} → Target Q → String
method_of (sessions query) = "GET"
method_of (session jti) = "DELETE"
method_of (elsewhere method path) = method

abbrev pub path_of : {Q : Type 0} → Target Q → String
path_of (sessions query) = "/sessions"
path_of (session jti) = "/sessions/" & jti
path_of (elsewhere method path) = path

abbrev pub request_of : {Q : Type 0} → Target Q → Option String → Request
request_of target header = record {
  path = path_of target;
  method = method_of target;
  authorization = header;
}

-- `(req as any).user || {}`; the handlers of sessions do not read the permissions.
abbrev pub caller_of : Option Claims → Caller
caller_of none = record { sub = none; roles = none; permissions = none }
caller_of (some c) = record { sub = c.sub; roles = c.roles; permissions = none }

-- Who answers: the guard or a handler, the authorization, or nobody.
pub data Handled : Type 0 where
  answered : Sessions.Answer → Handled
  refused : Authz.Answer → Handled
  passed_on : Handled

-- The state of the authorization, with the world, and the counter of the sessions.
pub record Site (Enforcer W : Type 0) : Type 0 where
  pub authz : Authz Enforcer W
  pub revoked_total : ℕ

abbrev pub sessions_of : {E W : Type 0} → Site E W → Sessions W
sessions_of s = record { revoked_total = s.revoked_total; world = s.authz.world }

module _ {Enforcer Rule Query Date W : Type 0} (a : AuthzServices Enforcer Rule W)
    (v : SessionServices Query Date W) where
  abbrev pub on_authz : {A : Type 0} → Action (Authz Enforcer W) A → Action (Site Enforcer W) A
  on_authz m s = let (r, t) = m s.authz in (r, record s { authz = t })

  abbrev pub on_sessions : {A : Type 0} → Action (Sessions W) A → Action (Site Enforcer W) A
  on_sessions m s =
      let (r, t) = m (sessions_of s) in
      (r, record { authz = record s.authz { world = t.world }; revoked_total = t.revoked_total })

  dispatch : Target Query → Action (Site Enforcer W) Handled
  dispatch (sessions query) s =
      (do r ← on_sessions (list_sessions v query (caller_of s.authz.user)); pure (answered r)) s
  dispatch (session jti) s =
      (do r ← on_sessions (delete_session v jti (caller_of s.authz.user)); pure (answered r)) s
  dispatch (elsewhere method path) s = (ok passed_on, s)

  -- After the authorization.
  admitted : Target Query → Authz.Answer → Action (Site Enforcer W) Handled
  unfolding dispatch
  admitted target next = dispatch target
  admitted target (respond status body) = pure (refused (respond status body))

  -- After the guard.
  guarded : Target Query → Option String → Sessions.Answer → Action (Site Enforcer W) Handled
  unfolding admitted
  guarded target header (respond status body) = pure (answered (respond status body))
  guarded target header next = do
    r ← on_authz (authz_middleware a (request_of target header))
    admitted target r

  unfoldable pub handle : Target Query → Option String → Action (Site Enforcer W) Handled
  unfolding guarded
  handle target header = guarded target header (require_authorization v header)
