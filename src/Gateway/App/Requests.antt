-- ===== src/Gateway/App/Requests.antt =====
-- Which requests reach a service.
use walmart_assignment.Base.{
  ◌≡◌, refl, ◌⊎◌, inl, inr, String, ℕ, true, Option, none, some, List, [], ◌∷◌, Bool-cases, arith,
}
use walmart_assignment.Base.Text.{starts_with, slice_from}
use walmart_assignment.Base.Http.{Reply, next, respond, Body, failure}
use walmart_assignment.Base.Js.{Outcome, ok, thrown, Returns, Run-cases, and_then-eq-ok}
use walmart_assignment.Gateway.Auth.{
  JwtPayload, Authenticated, jwt_auth, Authentication, entered, missing, other_scheme, not_verified,
  malformed, jwt_auth-Authentication, secret_of,
}
use walmart_assignment.Gateway.Usage.{openai_usage}
use walmart_assignment.Gateway.Proxy.{Result, proxy}
use walmart_assignment.Gateway.App.{
  ServiceName, mount_of, routers, AppServices, AppRequest, App, answered, get_service_url, on_world,
  auth, go_on, track, track_inside, forward, router, route_through, handle,
}

module _ {Decoded Num V W : Type 0} (v : AppServices Decoded Num V W) where
  -- The header carries a bearer token that verifies under the configured secret.
  abbrev pub Verified : Option String → W → Type 0
  Verified header w =
      (h : String) × (d : Decoded) × (p : JwtPayload) × (u : W) × (header ≡ some h)
      × (starts_with h "Bearer " ≡ true)
      × (v.auth.jwt_verify (slice_from 7 h) (secret_of (v.env "JWT_SECRET")) 30 w ≡ (ok d, u))
      × (v.auth.safe_parse d ≡ some p)

  -- The two ends of the authentication; the listeners stay as they were.
  abbrev pub AuthEnds : Option String → App W → Type 0
  AuthEnds header s =
      ((u : App W) × (auth v header s ≡ (ok next, u))
        × (u.listeners ≡ s.listeners)
        × Verified header s.world)
      ⊎ ((n : ℕ) × (b : Body (Unit {0})) × (u : App W) × (auth v header s ≡ (ok (respond n b), u))
          × (u.listeners ≡ s.listeners))

  abbrev session_of : App W → Authenticated W
  session_of s = record { user = s.user; world = s.world }

  pub auth-AuthEnds : (header : Option String) (s : App W) → AuthEnds header s
  unfolding auth
  auth-AuthEnds header s =
      ends
        (jwt_auth v.auth (record { clock_skew = none }) (v.env "JWT_SECRET") header (session_of s))
        refl
        (jwt_auth-Authentication v.auth (record { clock_skew = none }) (v.env "JWT_SECRET") header
          (session_of s))
    where
      ends :
          (r : Outcome (Reply (Body (Unit {0}))) × Authenticated W)
          → jwt_auth v.auth
              (record { clock_skew = none })
              (v.env "JWT_SECRET")
              header
              (session_of s)
            ≡ r
          → Returns
              (Authentication v.auth
                (record { clock_skew = none })
                (v.env "JWT_SECRET")
                header
                (session_of s))
              r
          → AuthEnds header s
      ends (ok _, _) e (entered h d p w here bearer verified parsed) = inl (
        record s { user = some p; world = w },
        rw e refl,
        refl,
        (h, d, p, w, here, bearer, verified, parsed),
      )
      ends (ok _, _) e (missing m) = inr (401, failure "Unauthorized", s, rw e refl, refl)
      ends (ok _, _) e (other_scheme h m b) = inr (401, failure "Unauthorized", s, rw e refl, refl)
      ends (ok _, _) e (not_verified h x w m b r) =
          inr (401, failure "Unauthorized", record s { world = w }, rw e refl, refl)
      ends (ok _, _) e (malformed h d w m b r q) =
          inr (401, failure "Unauthorized", record s { world = w }, rw e refl, refl)
      ends (thrown x, t) e h = absurd h

  -- What a service's answer rests on: its router is mounted on the path of the request, and its
  -- proxy gave the answer.
  abbrev pub Forwarded : AppRequest → ServiceName → Result V → Type 0
  Forwarded req name r =
      (v.mounted (mount_of name) req.proxied.original_url ≡ true)
      × ((w : W) × (w' : W) × (proxy (v.upstream name) (get_service_url v name) req.proxied w
            ≡ (ok r, w')))

  router-answered :
      (req : AppRequest) (at name : ServiceName) (r : Result V) (s t : App W)
      → v.mounted (mount_of at) req.proxied.original_url ≡ true
      → router v req at s ≡ (ok (answered name r), t)
      → Forwarded req name r
  unfolding router go_on forward
  router-answered req at name r s t here h =
      let (_, u, _, h₁) = and_then-eq-ok (track_inside v at s) _ h in
      elim (auth-AuthEnds req.proxied.authorization u) [
        | inr (n, b, x, e, _) ↦ absurd (ground arith)
        | inl (x, e, _, _) ↦
            elim (Run-cases (proxy (v.upstream at) (get_service_url v at) req.proxied x.world)) [
              | inr (err, w, d) ↦ absurd (ground arith)
              | inl (out, w, d) ↦
                  let one : at ≡ name = ground arith in
                  let same : out ≡ r = ground arith in rw (← one, ← same) (here, (x.world, w, d))
            ]
      ]

  route_through-answered :
      (names : List ServiceName) (req : AppRequest) (name : ServiceName) (r : Result V)
      (s t : App W)
      → route_through v names req s ≡ (ok (answered name r), t)
      → Forwarded req name r
  unfolding route_through track
  route_through-answered [] req name r s t h = absurd (cc)
  route_through-answered (at ∷ rest) req name r s t h =
      elim (Bool-cases (v.mounted (mount_of at) req.proxied.original_url)) [
        | inl here ↦ router-answered req at name r _ t here (rw here at h)
        | inr other ↦ route_through-answered rest req name r _ t (rw other at h)
      ]

  -- A service answers a request only if the request carries a bearer token that verifies under the
  -- configured secret, with thirty seconds of clock tolerance, and a payload of the schema's shape;
  -- the service's router is mounted on the path; and the answer is that of the proxy to its address.
  pub handle-answered :
      (req : AppRequest) (name : ServiceName) (r : Result V) (s t : App W)
      → handle v req s ≡ (ok (answered name r), t)
      → Verified req.proxied.authorization s.world × Forwarded req name r
  unfolding handle go_on
  handle-answered req name r s t h = elim (auth-AuthEnds req.proxied.authorization s) [
    | inr (n, b, u, e, _) ↦ absurd (ground arith)
    | inl (u, e, _, verified) ↦
        let (_, u₁, _, h₁) =
          and_then-eq-ok (on_world v (openai_usage v.usage req.usage_header) u)
            (λ _. route_through v routers req) (rw e at h) in
        (verified, route_through-answered routers req name r u₁ t h₁)
  ]
