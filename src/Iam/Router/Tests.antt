-- ===== src/Iam/Router/Tests.antt =====
-- The owner of a session that is already revoked, whose decision is cached.
use walmart_assignment.Base.{◌≡◌, refl, ℕ, ◌+◌, true, none, some, []}
use walmart_assignment.Base.Http.{respond, nothing}
use walmart_assignment.Base.Js.{ok}
use walmart_assignment.Iam.Access.{is_admin}
use walmart_assignment.Iam.Jwt.{Claims}
use walmart_assignment.Iam.Authz.{
  AuthzServices, authz_middleware, authorize, authenticate, proceed, with_user, from_cache, answer,
}
use walmart_assignment.Iam.Sessions.{
  SessionServices, Session, delete_session, delete_found, require_authorization,
}
use walmart_assignment.Iam.Router.{Site, session, answered, handle, guarded, admitted, dispatch}
use walmart_assignment.Iam.Router.Owners.{Authorized, handle-Authorized}

abbrev claims : Claims
claims = record {
  sub = some "ann";
  jti = some "t2";
  roles = none;
  attrs = none;
  tenant_id = none;
  iat = none;
  exp = none;
}

abbrev services : AuthzServices (Unit {0}) (Unit {0}) ℕ
services = record {
  to_lower_case = λ s. s;
  verify = λ token w. (ok claims, w + 1);
  redis_get = λ key w. (ok (some "allow"), w);
  redis_set_ex = λ key v ttl w. (ok tt, w);
  policies_of = λ roles w. (ok [], w);
  rules = λ w. (ok [], w);
  new_enforcer = λ w. (ok tt, w);
  clear_policy = λ e w. (ok tt, w);
  add_policy = λ e p w. (ok tt, w);
  add_grouping = λ e sub role w. (ok tt, w);
  enforce = λ e sub path method w. (ok true, w);
  apply = λ r attrs. ok true;
}

abbrev old : Session
old = record {
  jti = "t1";
  user_id = "ann";
  ip = "10.0.0.1";
  ua = "browser";
  created_at = "noon";
  last_seen = none;
  revoked = true;
}

abbrev store : SessionServices (Unit {0}) (Unit {0}) ℕ
store = record {
  parse_query = λ q. none;
  parse_date = λ d. none;
  find_many = λ user before n w. (ok [], w);
  find_unique = λ jti w. (ok (some old), w + 1);
  redis_setex = λ key ttl v w. (ok tt, w);
  mark_revoked = λ jti w. (ok tt, w);
}

abbrev before : Site (Unit {0}) ℕ
before = record {
  authz = record { enforcer = none; denied = []; user = none; world = 0 };
  revoked_total = 0;
}

abbrev after : Site (Unit {0}) ℕ
after = record {
  authz = record { enforcer = none; denied = []; user = some claims; world = 2 };
  revoked_total = 0;
}

revokes :
    handle services store (session "t1") (some "Bearer token") before
    ≡ (ok (answered (respond 204 nothing)), after)
unfolding handle guarded admitted dispatch authz_middleware authorize authenticate proceed with_user
    from_cache answer delete_session delete_found require_authorization is_admin
revokes = refl

handle-Authorized_example : Authorized services store "t1" (some "Bearer token") before
handle-Authorized_example =
    handle-Authorized services store "t1" (some "Bearer token") before after revokes
