-- ===== src/Iam/Router/Owners.antt =====
-- Who may revoke a session.
use text.Mathlib.TextPositions.{starts_with-append}
use walmart_assignment.Base.{
  subst, ◌≡◌, ◌≢◌, String, ◌||◌, true, false, Bool-cases, inl, inr, Option, some, arith,
}
use walmart_assignment.Base.Text.{starts_with, slice_from, str_eq, eq_iff, ◌&◌}
use walmart_assignment.Base.Http.{next, respond, nothing}
use walmart_assignment.Base.Js.{ok, Run-cases}
use walmart_assignment.Iam.Access.{is_admin}
use walmart_assignment.Iam.Jwt.{Claims}
use walmart_assignment.Iam.Authz.{AuthzServices, authz_middleware, Authz}
use walmart_assignment.Iam.Authz
use walmart_assignment.Iam.Authz.Admission.{Admitted, authz_middleware-Admitted}
use walmart_assignment.Iam.Authz.User.{authz_middleware-user}
use walmart_assignment.Iam.Sessions.{
  SessionServices, Session, same_text, delete_session, delete_session-owned, require_authorization,
  require_authorization-respond,
}
use walmart_assignment.Iam.Sessions
use walmart_assignment.Iam.Router.{
  session, request_of, caller_of, Site, answered, handle, guarded, admitted, dispatch, sessions_of,
}

-- A path below `/sessions/` is not that of the health check.
session-path : (jti : String) → str_eq ("/sessions/" & jti) "/healthz" ≡ false
session-path jti = elim (Bool-cases (str_eq ("/sessions/" & jti) "/healthz")) [
  | inr other ↦ other
  | inl same ↦
      let e : ("/sessions/" & jti) ≡ "/healthz" = (eq_iff ("/sessions/" & jti) "/healthz").0 same in
      let prefix : starts_with "/healthz" "/sessions/" ≡ true =
        subst (λ p. starts_with p "/sessions/" ≡ true) e (starts_with-append "/sessions/" jti) in
      absurd (ground (arith, prefix))
]

module _ {Enforcer Rule Query Date W : Type 0} (a : AuthzServices Enforcer Rule W)
    (v : SessionServices Query Date W) where
  -- The session is there, and belongs to the claims' subject, unless they have the role `admin`.
  abbrev pub Owned : String → Claims → Type 0
  Owned jti c =
      (row : Session) × (u w : W) × (v.find_unique jti u ≡ (ok (some row), w))
      × ((is_admin (caller_of (some c)) || same_text c.sub (some row.user_id)) ≡ true)

  -- The authorization admits the request, and its token verifies and gives claims that own the session.
  abbrev pub Authorized : String → Option String → Site Enforcer W → Type 0
  Authorized jti header s =
      Admitted a (request_of {Q = Query} (session jti) header) s.authz
      × ((auth : String) × (c : Claims) × (w : W) × (header ≡ some auth)
          × (starts_with auth "Bearer " ≡ true)
          × (a.verify (slice_from 7 auth) s.authz.world ≡ (ok c, w))
          × Owned jti c)

  dispatch-Owned :
      (jti : String) (c : Claims) (s t : Site Enforcer W)
      → s.authz.user ≡ some c
      → dispatch a v (session jti) s ≡ (ok (answered (respond 204 nothing)), t)
      → Owned jti c
  unfolding dispatch
  dispatch-Owned jti c s t user h =
      elim (Run-cases (delete_session v jti (caller_of s.authz.user) (sessions_of s))) [
        | inr (e, u, b) ↦ absurd (ground arith)
        | inl (r, u, b) ↦
            let same : r ≡ respond 204 nothing = ground arith in
            let (row, w, found, owned) =
              delete_session-owned v jti (caller_of (some c)) (sessions_of s) u
                (rw (user, same) at b) in
            (row, s.authz.world, w, found, owned)
      ]

  admitted-Owned :
      (jti : String) (header : Option String) (s t : Site Enforcer W) (r : Authz.Answer)
      (u : Authz Enforcer W)
      → authz_middleware a (request_of {Q = Query} (session jti) header) s.authz ≡ (ok r, u)
      → admitted a v (session jti) r (record s { authz = u })
        ≡ (ok (answered (respond 204 nothing)), t)
      → Authorized jti header s
  unfolding admitted
  admitted-Owned jti header s t (respond status body) u e h = absurd (ground arith)
  admitted-Owned jti header s t next u e h =
      let (auth, c, w, given, bearer, b, user) =
        authz_middleware-user a (request_of {Q = Query} (session jti) header) s.authz u
          (session-path jti) e in
      (
        authz_middleware-Admitted a (request_of {Q = Query} (session jti) header) s.authz u e,
        (auth, c, w, given, bearer, b, dispatch-Owned jti c (record s { authz = u }) t user h),
      )

  guarded-Owned :
      (jti : String) (header : Option String) (s t : Site Enforcer W) (g : Sessions.Answer)
      → g ≢ respond 204 nothing
      → guarded a v (session jti) header g s ≡ (ok (answered (respond 204 nothing)), t)
      → Authorized jti header s
  unfolding guarded
  guarded-Owned jti header s t (respond status body) ne h = absurd (ne (ground arith))
  guarded-Owned jti header s t next ne h =
      elim (Run-cases (authz_middleware a (request_of {Q = Query} (session jti) header) s.authz)) [
        | inr (e, u, b) ↦ absurd (ground arith)
        | inl (r, u, b) ↦ admitted-Owned jti header s t r u b (rw b at h)
      ]

  -- A session is revoked through the router only by its owner or an administrator: where the answer
  -- is 204, the authorization admitted the request, its bearer token verifies, the session of the
  -- identifier exists, and it belongs to the token's subject or the token has the role `admin`.
  pub handle-Authorized :
      (jti : String) (header : Option String) (s t : Site Enforcer W)
      → handle a v (session jti) header s ≡ (ok (answered (respond 204 nothing)), t)
      → Authorized jti header s
  unfolding handle
  handle-Authorized jti header s t =
      guarded-Owned jti header s t (require_authorization v header) (λ h.
        absurd (let n = require_authorization-respond v header 204 nothing h in omega (arith, n)))
