-- ===== src/Iam/Authz/User.antt =====
-- The user that the middleware leaves in the request.
use walmart_assignment.Base.{
  ◌≡◌, refl, sym, ap, ◌∙◌, String, true, false, Bool, if◌then◌else◌, Bool-cases, arith, inl, inr,
  Option, none, some, List,
}
use walmart_assignment.Base.Text.{str_eq, is_truthy, starts_with, slice_from}
use walmart_assignment.Base.Http.{next}
use walmart_assignment.Base.Js.{
  Exn, Outcome, ok, thrown, Action, pure, ◌>>=◌, try_catch, Run-cases, and_then, or_else, for_each,
  swallow,
}
use walmart_assignment.Iam.Jwt.{Claims}
use walmart_assignment.Iam.Authz.{
  Request, AuthzServices, Authz, deny, on_world, get_enforcer, load_policies, role_allowed,
  remember, refuse, admit, attributes, decide, evaluate, from_cache, answer, with_user, proceed,
  authenticate, authorize, authz_middleware, check_abac_rules, roles_of, attrs_of, Reason, rbac,
  abac, cache, cache_key,
}

module _ {Enforcer Rule W : Type 0} (a : AuthzServices Enforcer Rule W) where
  abbrev S : Type 0
  S = Authz Enforcer W

  abbrev Keeps : {A : Type 0} → Action S A → Type 0
  Keeps m = (s : S) → (m s).1.user ≡ s.user

  Keeps-bind :
      {A B : Type 0} (m : Action S A) (f : A → Action S B)
      → Keeps m
      → ((x : A) → Keeps (f x))
      → Keeps (m >>= f)
  Keeps-bind {A} {B} m f k h s = go (m s) (k s)
    where
      go : (r : Outcome A × S) → r.1.user ≡ s.user → (and_then r f).1.user ≡ s.user
      go (ok x, t) e = h x t ∙ e
      go (thrown x, t) e = e

  Keeps-try_catch :
      {A : Type 0} (m : Action S A) (f : Exn → Action S A)
      → Keeps m
      → ((x : Exn) → Keeps (f x))
      → Keeps (try_catch m f)
  Keeps-try_catch {A} m f k h s = go (m s) (k s)
    where
      go : (r : Outcome A × S) → r.1.user ≡ s.user → (or_else r f).1.user ≡ s.user
      go (ok x, t) e = e
      go (thrown x, t) e = h x t ∙ e

  get_enforcer-Keeps : Keeps (get_enforcer a)
  unfolding get_enforcer
  get_enforcer-Keeps s = ground arith

  on_world-Keeps : {A : Type 0} (m : Action W A) → Keeps (on_world a m)
  on_world-Keeps m s = refl

  if-Keeps :
      {A : Type 0} (b : Bool) (m n : Action S A) → Keeps m → Keeps n → Keeps (if b then m else n)
  if-Keeps true m n k l = k
  if-Keeps false m n k l = l

  deny-Keeps : (r : Reason) → Keeps (deny a r)
  unfolding deny
  deny-Keeps r s = refl

  load_policies-Keeps : (roles : List String) → Keeps (load_policies a roles)
  unfolding load_policies
  load_policies-Keeps roles =
      Keeps-bind (on_world a (a.policies_of roles)) _ (λ s. refl)
        (λ ps.
          Keeps-bind (get_enforcer a) _ get_enforcer-Keeps
            (λ e. Keeps-bind (on_world a (a.clear_policy e)) _ (λ s. refl) (λ x s. refl)))

  role_allowed-Keeps : (c : Claims) (req : Request) → Keeps (role_allowed a c req)
  unfolding role_allowed
  role_allowed-Keeps c req =
      Keeps-bind (load_policies a (roles_of c)) _ (load_policies-Keeps (roles_of c)) (λ x.
        Keeps-bind (get_enforcer a) _ get_enforcer-Keeps (λ e.
          Keeps-bind (on_world a (for_each (a.add_grouping e c.sub) (roles_of c))) _ (λ s. refl)
            (λ y s. refl)))

  refuse-Keeps : (c : Claims) (req : Request) (r : Reason) → Keeps (refuse a c req r)
  unfolding refuse remember
  refuse-Keeps c req r =
      Keeps-bind (on_world a (a.redis_set_ex (cache_key a c req) "deny" 60)) _ (λ s. refl)
        (λ x. deny-Keeps r)

  attributes-Keeps : (c : Claims) (req : Request) → Keeps (attributes a c req)
  unfolding attributes admit remember
  attributes-Keeps c req =
      Keeps-bind (on_world a (check_abac_rules a (attrs_of c))) _ (λ s. refl)
        (λ passed.
          if-Keeps passed (admit a c req) (refuse a c req abac)
            (Keeps-bind (on_world a (a.redis_set_ex (cache_key a c req) "allow" 60)) _ (λ s. refl)
              (λ x s. refl))
            (refuse-Keeps c req abac))

  evaluate-Keeps : (c : Claims) (req : Request) → Keeps (evaluate a c req)
  unfolding evaluate decide remember
  evaluate-Keeps c req =
      Keeps-try_catch (decide a c req) _
        (Keeps-bind (role_allowed a c req) _ (role_allowed-Keeps c req) (λ allowed.
          if-Keeps allowed (attributes a c req) (refuse a c req rbac) (attributes-Keeps c req)
            (refuse-Keeps c req rbac)))
        (λ x.
          Keeps-bind (swallow (remember a c req "deny")) (λ _. deny a rbac) (λ s. refl)
            (λ y. deny-Keeps rbac))

  answer-Keeps : (c : Claims) (req : Request) (o : Option String) → Keeps (answer a c req o)
  unfolding answer
  answer-Keeps c req none = evaluate-Keeps c req
  answer-Keeps c req (some v) =
      if-Keeps (is_truthy v) (if str_eq v "allow" then pure next else deny a cache)
        (evaluate a c req)
        (if-Keeps (str_eq v "allow") (pure next) (deny a cache) (λ s. refl) (deny-Keeps cache))
        (evaluate-Keeps c req)

  with_user-user : (c : Claims) (req : Request) (s : S) → (with_user a c req s).1.user ≡ some c
  unfolding with_user from_cache
  with_user-user c req s =
      Keeps-bind (from_cache a c req) (answer a c req)
        (Keeps-try_catch (on_world a (a.redis_get (cache_key a c req))) _ (λ t. refl) (λ x t. refl))
        (answer-Keeps c req) (record s { user = some c })

  authorize-user :
      (req : Request) (o : Option String) (s t : S)
      → authorize a o req s ≡ (ok next, t)
      → (auth : String) × (c : Claims) × (w : W) × (o ≡ some auth)
        × (starts_with auth "Bearer " ≡ true)
        × (a.verify (slice_from 7 auth) s.world ≡ (ok c, w))
        × (t.user ≡ some c)
  unfolding authorize authenticate proceed deny
  authorize-user req none s t h = absurd (cc)
  authorize-user req (some auth) s t h = elim (Bool-cases (starts_with auth "Bearer ")) [
    | inr other ↦ absurd (ground arith)
    | inl bearer ↦ elim (Run-cases (a.verify (slice_from 7 auth) s.world)) [
      | inr (x, w, b) ↦ absurd (ground arith)
      | inl (c, w, b) ↦
          let run : with_user a c req (record s { world = w }) ≡ (ok next, t) =
            rw (bearer, b) at h in
          (
            auth,
            c,
            w,
            refl,
            bearer,
            b,
            sym (ap (λ r. r.1.user) run) ∙ with_user-user c req (record s { world = w }),
          )
    ]
  ]

  -- A request that goes on, other than to `/healthz`, carries a bearer token that verifies, and leaves
  -- its claims as the request's user.
  pub authz_middleware-user :
      (req : Request) (s t : S)
      → str_eq req.path "/healthz" ≡ false
      → authz_middleware a req s ≡ (ok next, t)
      → (auth : String) × (c : Claims) × (w : W) × (req.authorization ≡ some auth)
        × (starts_with auth "Bearer " ≡ true)
        × (a.verify (slice_from 7 auth) s.world ≡ (ok c, w))
        × (t.user ≡ some c)
  unfolding authz_middleware
  authz_middleware-user req s t other h = authorize-user req req.authorization s t (rw other at h)
