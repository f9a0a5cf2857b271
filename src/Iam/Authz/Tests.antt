-- ===== src/Iam/Authz/Tests.antt =====
-- A request with a bearer token whose role is allowed, under one attribute rule.
use walmart_assignment.Base.{◌≡◌, refl, ℕ, ◌+◌, true, none, some, [], ◌∷◌}
use walmart_assignment.Base.Http.{next}
use walmart_assignment.Base.Js.{ok, Returns, for_each}
use walmart_assignment.Iam.Jwt.{Claims}
use walmart_assignment.Iam.Authz.{
  Request, AuthzServices, Authz, authz_middleware, authorize, authenticate, proceed, with_user,
  from_cache, answer, evaluate, decide, role_allowed, load_policies, get_enforcer, attributes,
  admit, remember, check_abac_rules, all_apply,
}
use walmart_assignment.Iam.Authz.Decisions.{Decided, authz_middleware-Decided}
use walmart_assignment.Iam.Authz.Admission.{Admitted, authz_middleware-Admitted}

abbrev claims : Claims
claims = record {
  sub = some "ann";
  jti = some "t2";
  roles = some ("soc" ∷ []);
  attrs = none;
  tenant_id = none;
  iat = none;
  exp = none;
}

-- The world counts the calls that change something.
abbrev services : AuthzServices (Unit {0}) (Unit {0}) ℕ
services = record {
  to_lower_case = λ s. s;
  verify = λ token w. (ok claims, w);
  redis_get = λ key w. (ok none, w);
  redis_set_ex = λ key v ttl w. (ok tt, w + 1);
  policies_of = λ roles w. (ok (record { role = "soc"; path = "/roles"; method = "get" } ∷ []), w);
  rules = λ w. (ok (tt ∷ []), w);
  new_enforcer = λ w. (ok tt, w + 1);
  clear_policy = λ e w. (ok tt, w + 1);
  add_policy = λ e p w. (ok tt, w + 1);
  add_grouping = λ e sub role w. (ok tt, w + 1);
  enforce = λ e sub path method w. (ok true, w);
  apply = λ r attrs. ok true;
}

abbrev request : Request
request = record { path = "/roles"; method = "get"; authorization = some "Bearer token" }

abbrev fresh : Authz (Unit {0}) ℕ
fresh = record { enforcer = none; denied = []; user = none; world = 0 }

abbrev ended : Authz (Unit {0}) ℕ
ended = record { enforcer = some tt; denied = []; user = some claims; world = 5 }

goes_on : authz_middleware services request fresh ≡ (ok next, ended)
unfolding authz_middleware authorize authenticate proceed with_user from_cache answer evaluate
    decide role_allowed load_policies get_enforcer attributes admit remember check_abac_rules
    all_apply for_each
goes_on = refl

authz_middleware-Admitted_example : Admitted services request fresh
authz_middleware-Admitted_example = authz_middleware-Admitted services request fresh ended goes_on

authz_middleware-Decided_example :
    Returns (Decided services fresh.denied) (authz_middleware services request fresh)
authz_middleware-Decided_example = authz_middleware-Decided services request fresh
