-- ===== src/Iam/Authz/Decisions.antt =====
-- The middleware's two outcomes, and the counter of denials.
use walmart_assignment.Base.{
  ◌≡◌, refl, ap, ◌∙◌, ◌⊎◌, inl, inr, String, true, false, Option, none, some, List, ◌∷◌, arith,
  Bool-cases,
}
use walmart_assignment.Base.Text.{is_truthy, starts_with, slice_from, str_eq}
use walmart_assignment.Base.Http.{next, respond, refusal}
use walmart_assignment.Base.Js.{◌>>◌, Outcome, Ends, Returns, Run-cases, Ends-try_catch, swallow}
use walmart_assignment.Iam.Jwt.{Claims}
use walmart_assignment.Iam.Authz.{
  Request, AuthzServices, Reason, reason_text, Authz, Answer, deny, check_abac_rules, get_enforcer,
  load_policies, attrs_of, cache_key, role_allowed, remember, refuse, admit, attributes, decide,
  evaluate, from_cache, answer, with_user, authenticate, proceed, authorize, authz_middleware,
}

module _ {Enforcer Rule W : Type 0} (a : AuthzServices Enforcer Rule W) where
  -- A decision: the request goes on and the counter stays, or it is refused with status 403 and a
  -- reason that is counted once.
  abbrev pub Decided : List Reason → Answer → Authz Enforcer W → Type 0
  Decided before reply t =
      ((reply ≡ next) × (t.denied ≡ before))
      ⊎ ((r : Reason) × (reply ≡ respond 403 (refusal "Forbidden" (reason_text r)))
          × (t.denied ≡ r ∷ before))

  -- Neither outcome of a call changes the counter.
  abbrev Quiet : {A : Type 0} → List Reason → Outcome A × Authz Enforcer W → Type 0
  Quiet before r = r.1.denied ≡ before

  get_enforcer-Quiet : (s : Authz Enforcer W) → Quiet s.denied (get_enforcer a s)
  unfolding get_enforcer
  get_enforcer-Quiet s = ground arith

  load_policies-Quiet :
      (roles : List String) (s : Authz Enforcer W) → Quiet s.denied (load_policies a roles s)
  unfolding load_policies
  load_policies-Quiet roles s = grind (arith, get_enforcer-Quiet)

  role_allowed-Quiet :
      (c : Claims) (req : Request) (s : Authz Enforcer W) → Quiet s.denied (role_allowed a c req s)
  unfolding role_allowed
  role_allowed-Quiet c req s = grind (arith, get_enforcer-Quiet, load_policies-Quiet)

  -- The goals below, from a state whose counter stands at `before`.
  abbrev Settles : List Reason → Outcome Answer × Authz Enforcer W → Type 0
  Settles before = Ends (Decided before) (λ _ t. t.denied ≡ before)

  deny-Settles :
      (before : List Reason) (r : Reason) (s : Authz Enforcer W)
      → s.denied ≡ before
      → Decided before (respond 403 (refusal "Forbidden" (reason_text r))) (deny a r s).1
  unfolding deny
  deny-Settles before r s e = inr (r, refl, ap (λ d. r ∷ d) e)

  refuse-Settles :
      (c : Claims) (req : Request) (r : Reason) (before : List Reason) (s : Authz Enforcer W)
      → s.denied ≡ before
      → Settles before (refuse a c req r s)
  unfolding refuse remember deny
  refuse-Settles c req r before s e =
      elim (Run-cases (a.redis_set_ex (cache_key a c req) "deny" 60 s.world)) [
        | inl (_, w, b) ↦ rw b (inr (r, refl, ap (λ d. r ∷ d) e))
        | inr (x, w, b) ↦ rw b e
      ]

  attributes-Settles :
      (c : Claims) (req : Request) (before : List Reason) (s : Authz Enforcer W)
      → s.denied ≡ before
      → Settles before (attributes a c req s)
  unfolding attributes admit remember
  attributes-Settles c req before s e = elim (Run-cases (check_abac_rules a (attrs_of c) s.world)) [
    | inr (x, w, b) ↦ rw b e
    | inl (false, w, b) ↦ rw b (refuse-Settles c req Reason.abac before (record s { world = w }) e)
    | inl (true, w, b) ↦ elim (Run-cases (a.redis_set_ex (cache_key a c req) "allow" 60 w)) [
      | inl (_, u, d) ↦ rw (b, d) (inl (refl, e))
      | inr (x, u, d) ↦ rw (b, d) e
    ]
  ]

  decide-Settles :
      (c : Claims) (req : Request) (before : List Reason) (s : Authz Enforcer W)
      → s.denied ≡ before
      → Settles before (decide a c req s)
  unfolding decide
  decide-Settles c req before s e =
      let quiet = role_allowed-Quiet c req s in
      elim (Run-cases (role_allowed a c req s)) [
        | inr (x, t, b) ↦ rw b ((rw b at quiet) ∙ e)
        | inl (false, t, b) ↦ rw b (refuse-Settles c req Reason.rbac before t ((rw b at quiet) ∙ e))
        | inl (true, t, b) ↦ rw b (attributes-Settles c req before t ((rw b at quiet) ∙ e))
      ]

  evaluate-Decided :
      (c : Claims) (req : Request) (before : List Reason) (s : Authz Enforcer W)
      → s.denied ≡ before
      → Returns (Decided before) (evaluate a c req s)
  unfolding evaluate remember deny
  evaluate-Decided c req before s e =
      Ends-try_catch (Decided before) (λ _ t. t.denied ≡ before) (λ _ _. ⊥) (decide a c req)
        (λ x. do swallow (remember a c req "deny"); deny a Reason.rbac) s
        (decide-Settles c req before s e)
        (λ x t same. inr (Reason.rbac, refl, ap (λ d. Reason.rbac ∷ d) same))

  answer-Decided :
      (c : Claims) (req : Request) (o : Option String) (before : List Reason) (s : Authz Enforcer W)
      → s.denied ≡ before
      → Returns (Decided before) (answer a c req o s)
  unfolding answer deny
  answer-Decided c req none before s e = evaluate-Decided c req before s e
  answer-Decided c req (some v) before s e = elim (Bool-cases (is_truthy v)) [
    | inr empty ↦ rw empty (evaluate-Decided c req before s e)
    | inl given ↦ elim (Bool-cases (str_eq v "allow")) [
      | inl allow ↦ rw (given, allow) (inl (refl, e))
      | inr other ↦ rw (given, other) (inr (Reason.cache, refl, ap (λ d. Reason.cache ∷ d) e))
    ]
  ]

  with_user-Decided :
      (c : Claims) (req : Request) (before : List Reason) (s : Authz Enforcer W)
      → s.denied ≡ before
      → Returns (Decided before) (with_user a c req s)
  unfolding with_user from_cache
  with_user-Decided c req before s e = elim (Run-cases (a.redis_get (cache_key a c req) s.world)) [
    | inl (o, w, b) ↦ rw b (answer-Decided c req o before (record s { user = some c; world = w }) e)
    | inr (x, w, b) ↦
        rw b (answer-Decided c req none before (record s { user = some c; world = w }) e)
  ]

  authenticate-Decided :
      (auth : String) (req : Request) (s : Authz Enforcer W)
      → Returns (Decided s.denied) (authenticate a auth req s)
  unfolding authenticate proceed deny
  authenticate-Decided auth req s = elim (Run-cases (a.verify (slice_from 7 auth) s.world)) [
    | inl (c, w, b) ↦ rw b (with_user-Decided c req s.denied (record s { world = w }) refl)
    | inr (x, w, b) ↦ rw b (inr (Reason.jwt_invalid, refl, refl))
  ]

  authorize-Decided :
      (o : Option String) (req : Request) (s : Authz Enforcer W)
      → Returns (Decided s.denied) (authorize a o req s)
  unfolding authorize deny
  authorize-Decided none req s = inr (Reason.jwt_missing, refl, refl)
  authorize-Decided (some auth) req s = elim (Bool-cases (starts_with auth "Bearer ")) [
    | inl bearer ↦ rw bearer (authenticate-Decided auth req s)
    | inr other ↦ rw other (inr (Reason.jwt_missing, refl, refl))
  ]

  -- Whatever the services do, failures included, the middleware never throws: the request goes on
  -- and the counter of denials stays, or it is refused with status 403 and a reason, which is
  -- counted once.
  pub authz_middleware-Decided :
      (req : Request) (s : Authz Enforcer W) → Returns (Decided s.denied) (authz_middleware a req s)
  unfolding authz_middleware
  authz_middleware-Decided req s = elim (Bool-cases (str_eq req.path "/healthz")) [
    | inl health ↦ rw health (inl (refl, refl))
    | inr other ↦ rw other (authorize-Decided req.authorization req s)
  ]
