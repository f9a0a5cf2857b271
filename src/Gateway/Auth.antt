-- ===== src/Gateway/Auth.antt =====
-- api-gateway/src/middleware/auth.ts: the authentication of a request by its bearer token.
-- jsonwebtoken and zod are parameters.
use walmart_assignment.Base.{
  ◌≡◌, refl, String, ℕ, Option, none, some, List, if◌then◌else◌, Bool-cases, Option-cases, true,
  false, inl, inr,
}
use walmart_assignment.Base.Text.{starts_with, slice_from}
use walmart_assignment.Base.Http.{Reply, next, respond, Body, failure}
use walmart_assignment.Base.Js.{
  Exn, ok, thrown, error, Action, pure, ◌>>=◌, try_catch, or_throw, Run-cases, Returns,
}

-- `JwtPayload`; the numbers that the code does not read are left out.
pub record JwtPayload : Type 0 where
  pub id : String
  pub roles : List String
  pub tenant_id : String

-- `jwt_verify token secret clockTolerance` is `jwt.verify` with HS256, `safe_parse` the schema.
pub record AuthServices (Decoded W : Type 0) : Type 0 where
  pub jwt_verify : String → String → ℕ → Action W Decoded
  pub safe_parse : Decoded → Option JwtPayload

pub record AuthOptions : Type 0 where
  pub clock_skew : Option ℕ

-- `req.user`, and the world.
pub record Authenticated (W : Type 0) : Type 0 where
  pub user : Option JwtPayload
  pub world : W

abbrev pub Answer : Type 0
Answer = Reply (Body (Unit {0}))

abbrev pub unauthorized : Answer
unauthorized = respond 401 (failure "Unauthorized")

-- `options.clockSkew ?? 30` and `secret ?? ''`.
abbrev pub skew_of : AuthOptions → ℕ
skew_of o = elim o.clock_skew [ none ↦ 30 | some n ↦ n ]

abbrev pub secret_of : Option String → String
secret_of o = elim o [ none ↦ "" | some s ↦ s ]

module _ {Decoded W : Type 0} (a : AuthServices Decoded W) (options : AuthOptions)
    (jwt_secret : Option String) where
  abbrev pub on_world : {A : Type 0} → Action W A → Action (Authenticated W) A
  on_world m s = let (r, w) = m s.world in (r, record s { world = w })

  -- `req.user = {...}; return next()`.
  enter : JwtPayload → Action (Authenticated W) Answer
  enter p s = (ok next, record s { user = some p })

  -- The `try` block.
  check_token : String → Action (Authenticated W) Answer
  unfolding enter
  check_token token = do
    decoded ← on_world (a.jwt_verify token (secret_of jwt_secret) (skew_of options))
    parsed ← or_throw (a.safe_parse decoded) (error "invalid payload")
    enter parsed

  authenticate : Option String → Action (Authenticated W) Answer
  unfolding check_token
  authenticate none = pure unauthorized
  authenticate (some header) =
      if starts_with header "Bearer "
      then try_catch (check_token (slice_from 7 header)) (λ e. pure unauthorized)
      else pure unauthorized

  unfoldable pub jwt_auth : Option String → Action (Authenticated W) Answer
  unfolding authenticate
  jwt_auth header = authenticate header

  -- The answers to a header.
  pub data Authentication (header : Option String) (s : Authenticated W)
      : Answer → Authenticated W → Type 0 where
    entered :
        (h : String) (d : Decoded) (p : JwtPayload) (w : W)
        → header ≡ some h
        → starts_with h "Bearer " ≡ true
        → a.jwt_verify (slice_from 7 h) (secret_of jwt_secret) (skew_of options) s.world ≡ (ok d, w)
        → a.safe_parse d ≡ some p
        → Authentication header s next (record { user = some p; world = w })
    missing : header ≡ none → Authentication header s (respond 401 (failure "Unauthorized")) s
    other_scheme :
        (h : String)
        → header ≡ some h
        → starts_with h "Bearer " ≡ false
        → Authentication header s (respond 401 (failure "Unauthorized")) s
    not_verified :
        (h : String) (e : Exn) (w : W)
        → header ≡ some h
        → starts_with h "Bearer " ≡ true
        → a.jwt_verify (slice_from 7 h) (secret_of jwt_secret) (skew_of options) s.world
          ≡ (thrown e, w)
        → Authentication header s
            (respond 401 (failure "Unauthorized"))
            (record { user = s.user; world = w })
    malformed :
        (h : String) (d : Decoded) (w : W)
        → header ≡ some h
        → starts_with h "Bearer " ≡ true
        → a.jwt_verify (slice_from 7 h) (secret_of jwt_secret) (skew_of options) s.world ≡ (ok d, w)
        → a.safe_parse d ≡ none
        → Authentication header s
            (respond 401 (failure "Unauthorized"))
            (record { user = s.user; world = w })

  authenticate-Authentication :
      (header : Option String) (s : Authenticated W)
      → Returns (Authentication header s) (authenticate header s)
  unfolding authenticate
  authenticate-Authentication none s = missing refl
  authenticate-Authentication (some h) s = elim (Bool-cases (starts_with h "Bearer ")) [
    | inr other ↦ rw other (other_scheme h refl other)
    | inl bearer ↦
        elim (Run-cases
          (a.jwt_verify (slice_from 7 h) (secret_of jwt_secret) (skew_of options) s.world)) [
            | inr (e, w, b) ↦ rw (bearer, b) (not_verified h e w refl bearer b)
            | inl (d, w, b) ↦ elim (Option-cases (a.safe_parse d)) [
              | inl bad ↦ rw (bearer, b, bad) (malformed h d w refl bearer b bad)
              | inr (p, good) ↦ rw (bearer, b, good) (entered h d p w refl bearer b good)
            ]
          ]
  ]

  -- The middleware never throws. A request goes on exactly with a bearer token that verifies under
  -- the configured secret and clock skew and whose payload has the schema's shape, and then the
  -- request's user is that payload. It is answered 401, and the user stays as it was, where the header
  -- is missing or has another scheme, the token does not verify, or its payload has another shape.
  pub jwt_auth-Authentication :
      (header : Option String) (s : Authenticated W)
      → Returns (Authentication header s) (jwt_auth header s)
  unfolding jwt_auth
  jwt_auth-Authentication header s = authenticate-Authentication header s
