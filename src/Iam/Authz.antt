-- ===== src/Iam/Authz.antt =====
-- iam-service/src/middleware/authz.ts: the authorization of a request.
-- casbin, Prisma, Redis and json-logic are parameters; tokens are verified by `verify` of Iam/Jwt, whose
-- result is the request's user.
pub mod Decisions
pub mod Admission
pub mod User
mod Tests
use walmart_assignment.Base.{
  String, ℕ, Bool, true, false, not, Option, none, some, List, [], ◌∷◌, ◌++◌, if◌then◌else◌,
}
use walmart_assignment.Base.Text.{◌&◌, str_eq, is_truthy, starts_with, slice_from}
use walmart_assignment.Base.Http.{Reply, next, respond, Body, refusal}
use walmart_assignment.Base.Js.{
  Exn, error, Outcome, ok, thrown, Action, pure, throw, ◌>>=◌, ◌>>◌, call, modify, gets, try_catch,
  swallow, for_each,
}
use walmart_assignment.Iam.Jwt.{Claims}

pub record Request : Type 0 where
  pub path : String
  pub method : String
  pub authorization : Option String

-- A row of `role_policies`.
pub record Policy : Type 0 where
  pub role : String
  pub path : String
  pub method : String

-- The services. `Rule` is a rule of json-logic, and `apply` its truth on the attributes; an enforcer
-- is created by `new_enforcer` and changed by the calls on it.
pub record AuthzServices (Enforcer Rule W : Type 0) : Type 0 where
  pub to_lower_case : String → String
  pub verify : String → Action W Claims
  pub redis_get : String → Action W (Option String)
  pub redis_set_ex : String → String → ℕ → Action W (Unit {0})
  pub policies_of : List String → Action W (List Policy)
  pub rules : Action W (List Rule)
  pub new_enforcer : Action W Enforcer
  pub clear_policy : Enforcer → Action W (Unit {0})
  pub add_policy : Enforcer → Policy → Action W (Unit {0})
  pub add_grouping : Enforcer → Option String → String → Action W (Unit {0})
  pub enforce : Enforcer → Option String → String → String → Action W Bool
  pub apply : Rule → List (String × String) → Outcome Bool

-- The labels of `authz_denied_total`, which are also the reasons of the responses.
pub data Reason : Type 0 where
  jwt_missing jwt_invalid cache rbac abac : Reason

abbrev pub reason_text : Reason → String
reason_text jwt_missing = "jwt_missing"
reason_text jwt_invalid = "jwt_invalid"
reason_text cache = "cache"
reason_text rbac = "rbac"
reason_text abac = "abac"

-- The module's `enforcer`, the counter's increments, `req.user`, and the world.
pub record Authz (Enforcer W : Type 0) : Type 0 where
  pub enforcer : Option Enforcer
  pub denied : List Reason
  pub user : Option Claims
  pub world : W

abbrev pub Answer : Type 0
Answer = Reply (Body (Unit {0}))

-- The claims with their defaults, `roles = []` and `attrs = {}`.
abbrev pub roles_of : Claims → List String
roles_of c = elim c.roles [ none ↦ [] | some rs ↦ rs ]

abbrev pub attrs_of : Claims → List (String × String)
attrs_of c = elim c.attrs [ none ↦ [] | some xs ↦ xs ]

-- `${jti}` of a missing identifier.
abbrev jti_text : Claims → String
jti_text c = elim c.jti [ none ↦ "undefined" | some j ↦ j ]

module _ {Enforcer Rule W : Type 0} (a : AuthzServices Enforcer Rule W) where
  abbrev pub on_world : {A : Type 0} → Action W A → Action (Authz Enforcer W) A
  on_world m s = let (r, w) = m s.world in (r, record s { world = w })

  -- `authzDenied.inc({ reason }); return res.status(403).json(...)`.
  pub deny : Reason → Action (Authz Enforcer W) Answer
  deny r s =
      (ok (respond 403 (refusal "Forbidden" (reason_text r))), record s { denied = r ∷ s.denied })

  pub get_enforcer : Action (Authz Enforcer W) Enforcer
  get_enforcer s = elim s.enforcer [
    | some e ↦ (ok e, s)
    | none ↦
        (do e ← on_world a.new_enforcer; modify (λ t. record t { enforcer = some e }); pure e) s
  ]

  pub load_policies : List String → Action (Authz Enforcer W) (Unit {0})
  load_policies roles = do
    policies ← on_world (a.policies_of roles)
    e ← get_enforcer
    on_world (a.clear_policy e)
    on_world (for_each (a.add_policy e) policies)

  -- The loop of `checkAbacRules`.
  pub all_apply : List Rule → List (String × String) → Action W Bool
  all_apply [] attrs = pure true
  all_apply (r ∷ rs) attrs = do
    passed ← (λ w. (a.apply r attrs, w))
    (if passed then all_apply rs attrs else pure false)

  pub check_abac_rules : List (String × String) → Action W Bool
  check_abac_rules attrs = do rs ← a.rules; all_apply rs attrs

  abbrev pub cache_key : Claims → Request → String
  cache_key c req = "authz:" & jti_text c & ":" & a.to_lower_case req.method & ":" & req.path

  -- Whether the roles of the token allow the request.
  pub role_allowed : Claims → Request → Action (Authz Enforcer W) Bool
  role_allowed c req = do
    load_policies (roles_of c)
    e ← get_enforcer
    on_world (for_each (a.add_grouping e c.sub) (roles_of c))
    on_world (a.enforce e c.sub req.path (a.to_lower_case req.method))

  pub remember : Claims → Request → String → Action (Authz Enforcer W) (Unit {0})
  remember c req verdict = on_world (a.redis_set_ex (cache_key c req) verdict 60)

  -- The branches of the second `try` block.
  pub refuse : Claims → Request → Reason → Action (Authz Enforcer W) Answer
  refuse c req r = do remember c req "deny"; deny r

  pub admit : Claims → Request → Action (Authz Enforcer W) Answer
  admit c req = do remember c req "allow"; pure next

  pub attributes : Claims → Request → Action (Authz Enforcer W) Answer
  attributes c req = do
    passed ← on_world (check_abac_rules (attrs_of c))
    if passed then admit c req else refuse c req abac

  pub decide : Claims → Request → Action (Authz Enforcer W) Answer
  decide c req = do
    allowed ← role_allowed c req
    if allowed then attributes c req else refuse c req rbac

  pub evaluate : Claims → Request → Action (Authz Enforcer W) Answer
  evaluate c req = try_catch (decide c req) (λ e. do swallow (remember c req "deny"); deny rbac)

  -- The cached decision, if there is one; errors of the cache are ignored.
  unfoldable pub from_cache : Claims → Request → Action (Authz Enforcer W) (Option String)
  from_cache c req = try_catch (on_world (a.redis_get (cache_key c req))) (λ e. pure none)

  unfoldable pub answer : Claims → Request → Option String → Action (Authz Enforcer W) Answer
  answer c req none = evaluate c req
  answer c req (some v) =
      if is_truthy v then (if str_eq v "allow" then pure next else deny cache) else evaluate c req

  unfoldable pub with_user : Claims → Request → Action (Authz Enforcer W) Answer
  with_user c req = do
    modify (λ s. record s { user = some c })
    cached ← from_cache c req
    answer c req cached

  -- The first `try` block and its `catch`, from what the verification did.
  unfoldable pub proceed :
      Request → Authz Enforcer W → Outcome Claims × W → Outcome Answer × Authz Enforcer W
  proceed req s (ok c, w) = with_user c req (record s { world = w })
  proceed req s (thrown e, w) = deny jwt_invalid (record s { world = w })

  unfoldable pub authenticate : String → Request → Action (Authz Enforcer W) Answer
  authenticate auth req s = proceed req s (a.verify (slice_from 7 auth) s.world)

  unfoldable pub authorize : Option String → Request → Action (Authz Enforcer W) Answer
  authorize none req = deny jwt_missing
  authorize (some auth) req =
      if starts_with auth "Bearer " then authenticate auth req else deny jwt_missing

  unfoldable pub authz_middleware : Request → Action (Authz Enforcer W) Answer
  authz_middleware req =
      if str_eq req.path "/healthz" then pure next else authorize req.authorization req
