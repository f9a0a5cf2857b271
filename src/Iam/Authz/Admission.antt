-- ===== src/Iam/Authz/Admission.antt =====
-- When a request goes on to its handler.
use walmart_assignment.Base.{
  ◌≡◌, refl, ap, ◌∙◌, ◌⊎◌, inl, inr, String, true, false, Option, none, some, List, [], ◌∷◌, arith,
  Bool-cases, All,
}
use walmart_assignment.Base.Text.{◌&◌, is_truthy, starts_with, slice_from, str_eq, eq_iff}
use walmart_assignment.Base.Http.{next, respond}
use walmart_assignment.Base.Js.{ok, for_each, ◌>>=◌, ◌>>◌, Run-cases, Outcome-cases}
use walmart_assignment.Iam.Jwt.{Claims}
use walmart_assignment.Iam.Authz.{
  Request, AuthzServices, Authz, deny, all_apply, check_abac_rules, attrs_of, cache_key, on_world,
  get_enforcer, load_policies, roles_of, Policy, role_allowed, remember, refuse, attributes, decide,
  evaluate, from_cache, answer, with_user, authenticate, proceed, authorize, authz_middleware,
}

module _ {Enforcer Rule W : Type 0} (a : AuthzServices Enforcer Rule W) where
  -- Rules all of which json-logic passes.
  all_apply-All :
      (rs : List Rule) (attrs : List (String × String)) (w w' : W)
      → all_apply a rs attrs w ≡ (ok true, w')
      → All (λ r. a.apply r attrs ≡ ok true) rs
  unfolding all_apply
  all_apply-All [] attrs w w' h = tt
  all_apply-All (r ∷ rs) attrs w w' h = elim (Outcome-cases (a.apply r attrs)) [
    | inr (e, b) ↦ absurd (ground arith)
    | inl (passed, b) ↦ elim (Bool-cases passed) [
      | inr no_pass ↦ absurd (ground arith)
      | inl pass ↦ (rw (b, pass), all_apply-All rs attrs w w' (rw (b, pass) at h))
    ]
  ]

  -- The enforcer, which is made where there is none yet.
  abbrev pub Chosen : Option Enforcer → Enforcer → W → W → Type 0
  Chosen (some kept) e w u = (e ≡ kept) × (u ≡ w)
  Chosen none e w u = a.new_enforcer w ≡ (ok e, u)

  -- The enforcer, cleared and given these policies and the roles of the token, allows the token's
  -- subject the path and the method.
  abbrev pub Permits : Claims → Request → Enforcer → List Policy → W → W → Type 0
  Permits c req e policies w t =
      (w₁ : W) × (w₂ : W) × (w₃ : W) × (a.clear_policy e w ≡ (ok tt, w₁))
      × (for_each (a.add_policy e) policies w₁ ≡ (ok tt, w₂))
      × (for_each (a.add_grouping e c.sub) (roles_of c) w₂ ≡ (ok tt, w₃))
      × (a.enforce e c.sub req.path (a.to_lower_case req.method) w₃ ≡ (ok true, t))

  -- The policies of the token's roles are read, and the enforcer allows the request under them.
  abbrev pub Enforced : Claims → Request → Option Enforcer → W → W → Type 0
  Enforced c req o w t =
      (policies : List Policy) × (e : Enforcer) × (w₁ : W) × (w₂ : W) × (a.policies_of (roles_of c)
          w
        ≡ (ok policies, w₁))
      × Chosen o e w₁ w₂
      × Permits c req e policies w₂ t

  -- The evaluation that lets a request through: the enforcer allows it, and then every rule passes on
  -- its attributes.
  abbrev pub Evaluated : Claims → Request → Authz Enforcer W → Type 0
  Evaluated c req s =
      (t : W) × (rs : List Rule) × (w : W) × Enforced c req s.enforcer s.world t
      × (a.rules t ≡ (ok rs, w))
      × All (λ r. a.apply r (attrs_of c) ≡ ok true) rs

  -- The identifier of a token in the keys of the cache.
  abbrev pub IsIdentifier : Option String → String → Type 0
  IsIdentifier none jti = jti ≡ "undefined"
  IsIdentifier (some j) jti = jti ≡ j

  named : (o : Option String) → IsIdentifier o (elim o [ none ↦ "undefined" | some j ↦ j ])
  named none = refl
  named (some j) = refl

  -- Why a request with these claims goes on: its decision is cached, or it is evaluated, from where
  -- the look at the cache left the world.
  abbrev pub Allowed : Claims → Request → Authz Enforcer W → Type 0
  Allowed c req s =
      ((jti : String) × (w : W) × IsIdentifier c.jti jti
        × (a.redis_get ("authz:" & jti & ":" & a.to_lower_case req.method & ":" & req.path) s.world
            ≡ (ok (some "allow"), w)))
      ⊎ Evaluated c req (record s { world = (a.redis_get (cache_key a c req) s.world).1 })

  -- Why the middleware lets a request through.
  abbrev pub Admitted : Request → Authz Enforcer W → Type 0
  Admitted req s =
      (req.path ≡ "/healthz")
      ⊎ ((auth : String) × (c : Claims) × (w : W) × (req.authorization ≡ some auth)
          × (starts_with auth "Bearer " ≡ true)
          × (a.verify (slice_from 7 auth) s.world ≡ (ok c, w))
          × Allowed c req (record s { user = some c; world = w }))

  permitted :
      (c : Claims) (req : Request) (e : Enforcer) (policies : List Policy) (s t : Authz Enforcer W)
      → s.enforcer ≡ some e
      → ((do on_world a (a.clear_policy e); on_world a (for_each (a.add_policy e) policies)) >> (do
        x ← get_enforcer a
        on_world a (for_each (a.add_grouping x c.sub) (roles_of c))
        on_world a (a.enforce x c.sub req.path (a.to_lower_case req.method))))
          s
        ≡ (ok true, t)
      → Permits c req e policies s.world t.world
  unfolding get_enforcer
  permitted c req e policies s t kept h = elim (Run-cases (a.clear_policy e s.world)) [
    | inr (x, w, b) ↦ absurd (ground arith)
    | inl (_, w, b) ↦ elim (Run-cases (for_each (a.add_policy e) policies w)) [
      | inr (x, u, d) ↦ absurd (ground arith)
      | inl (_, u, d) ↦ elim (Run-cases (for_each (a.add_grouping e c.sub) (roles_of c) u)) [
        | inr (x, v, f) ↦ absurd (let z = rw (b, d, kept, f) at h in cc)
        | inl (_, v, f) ↦
            elim (Run-cases (a.enforce e c.sub req.path (a.to_lower_case req.method) v)) [
              | inr (x, y, g) ↦ absurd (let z = rw (b, d, kept, f, g) at h in cc)
              | inl (allowed, y, g) ↦
                  let z = rw (b, d, kept, f, g) at h in
                  let same : ok allowed ≡ ok true = ap (λ r. r.0) z in
                  let after : y ≡ t.world = ap (λ r. r.1.world) z in (w, u, v, b, d, f, g ∙ cc)
            ]
      ]
    ]
  ]

  role_allowed-Enforced :
      (c : Claims) (req : Request) (o : Option Enforcer) (s t : Authz Enforcer W)
      → s.enforcer ≡ o
      → role_allowed a c req s ≡ (ok true, t)
      → Enforced c req o s.world t.world
  unfolding role_allowed load_policies get_enforcer
  role_allowed-Enforced c req o s t at_first h =
      elim (Run-cases (a.policies_of (roles_of c) s.world)) [
        | inr (x, w, b) ↦ absurd (let z = rw b at h in cc)
        | inl (policies, w, b) ↦ go o at_first policies w b
      ]
    where
      go :
          (o' : Option Enforcer)
          → s.enforcer ≡ o'
          → (policies : List Policy) (w : W) → a.policies_of (roles_of c) s.world ≡ (ok policies, w)
          → Enforced c req o' s.world t.world
      go (some e) kept policies w b = (
        policies,
        e,
        w,
        w,
        b,
        (refl, refl),
        permitted c req e policies (record s { world = w }) t kept (rw (b, kept) at h),
      )
      go none kept policies w b = elim (Run-cases (a.new_enforcer w)) [
        | inr (x, u, d) ↦ absurd (let z = rw (b, kept, d) at h in cc)
        | inl (e, u, d) ↦ (
          policies,
          e,
          w,
          u,
          b,
          d,
          permitted c req e policies (record s { enforcer = some e; world = u }) t refl
              (rw (b, kept, d) at h),
        )
      ]

  attributes-next :
      (c : Claims) (req : Request) (s t : Authz Enforcer W)
      → attributes a c req s ≡ (ok next, t)
      → (rs : List Rule) × (w : W) × (a.rules s.world ≡ (ok rs, w))
        × All (λ r. a.apply r (attrs_of c) ≡ ok true) rs
  unfolding attributes refuse remember deny check_abac_rules
  attributes-next c req s t h = elim (Run-cases (a.rules s.world)) [
    | inr (x, w, b) ↦ absurd (ground arith)
    | inl (rs, w, b) ↦ elim (Run-cases (all_apply a rs (attrs_of c) w)) [
      | inr (x, u, d) ↦ absurd (ground arith)
      | inl (false, u, d) ↦ absurd (ground arith)
      | inl (true, u, d) ↦ (rs, w, b, all_apply-All rs (attrs_of c) w u d)
    ]
  ]

  evaluate-next :
      (c : Claims) (req : Request) (s t : Authz Enforcer W)
      → evaluate a c req s ≡ (ok next, t)
      → Evaluated c req s
  unfolding evaluate decide refuse remember deny
  evaluate-next c req s t h = elim (Run-cases (role_allowed a c req s)) [
    | inr (x, u, b) ↦ absurd (ground arith)
    | inl (false, u, b) ↦ absurd (ground arith)
    | inl (true, u, b) ↦ elim (Run-cases (attributes a c req u)) [
      | inr (x, v, d) ↦ absurd (ground arith)
      | inl (respond n body, v, d) ↦ absurd (ground arith)
      | inl (next, v, d) ↦
          let (rs, w, listed, pass) = attributes-next c req u v d in
          (u.world, rs, w, role_allowed-Enforced c req s.enforcer s u refl b, listed, pass)
    ]
  ]

  answer-next :
      (c : Claims) (req : Request) (o : Option String) (s t : Authz Enforcer W)
      → answer a c req o s ≡ (ok next, t)
      → (o ≡ some "allow") ⊎ Evaluated c req s
  unfolding answer deny
  answer-next c req none s t h = inr (evaluate-next c req s t h)
  answer-next c req (some v) s t h = elim (Bool-cases (is_truthy v)) [
    | inr empty ↦ inr (evaluate-next c req s t (rw empty at h))
    | inl given ↦ elim (Bool-cases (str_eq v "allow")) [
      | inl allow ↦ inl (ap some ((eq_iff v "allow").0 allow))
      | inr other ↦ absurd (ground arith)
    ]
  ]

  with_user-next :
      (c : Claims) (req : Request) (s t : Authz Enforcer W)
      → with_user a c req s ≡ (ok next, t)
      → Allowed c req (record s { user = some c })
  unfolding with_user from_cache
  with_user-next c req s t h = elim (Run-cases (a.redis_get (cache_key a c req) s.world)) [
    | inr (x, w, b) ↦
        elim (answer-next c req none (record s { user = some c; world = w }) t (rw b at h)) [
          | inl miss ↦ absurd (cc)
          | inr now ↦ inr (rw b now)
        ]
    | inl (o, w, b) ↦
        elim (answer-next c req o (record s { user = some c; world = w }) t (rw b at h)) [
          | inl hit ↦ inl (_, w, named c.jti, rw hit at b)
          | inr now ↦ inr (rw b now)
        ]
  ]

  authorize-next :
      (req : Request) (o : Option String) (s t : Authz Enforcer W)
      → req.authorization ≡ o
      → authorize a o req s ≡ (ok next, t)
      → Admitted req s
  unfolding authorize authenticate proceed deny
  authorize-next req none s t given h = absurd (cc)
  authorize-next req (some auth) s t given h = elim (Bool-cases (starts_with auth "Bearer ")) [
    | inr other ↦ absurd (ground arith)
    | inl bearer ↦ elim (Run-cases (a.verify (slice_from 7 auth) s.world)) [
      | inr (x, w, b) ↦ absurd (ground arith)
      | inl (c, w, b) ↦ inr (
        auth,
        c,
        w,
        given,
        bearer,
        b,
        with_user-next c req (record s { world = w }) t (rw (bearer, b) at h),
      )
    ]
  ]

  -- A request goes on only if its path is `/healthz`, or it carries a bearer token that verifies and
  -- either the decision cached for the token's identifier, the method and the path is `allow`, or,
  -- under the policies of the token's roles, the enforcer allows its subject the path and the method,
  -- and then every attribute rule passes on its attributes.
  pub authz_middleware-Admitted :
      (req : Request) (s t : Authz Enforcer W)
      → authz_middleware a req s ≡ (ok next, t)
      → Admitted req s
  unfolding authz_middleware
  authz_middleware-Admitted req s t h = elim (Bool-cases (str_eq req.path "/healthz")) [
    | inl health ↦ inl ((eq_iff req.path "/healthz").0 health)
    | inr other ↦ authorize-next req req.authorization s t refl (rw other at h)
  ]
