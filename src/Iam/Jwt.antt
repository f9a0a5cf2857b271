-- ===== src/Iam/Jwt.antt =====
-- iam-service/src/lib/jwt.ts: tokens, their validation and revocation, and the rotation of keys.
-- jose, Prisma, Redis, KMS, Kafka, the clock and the random identifiers are parameters.
pub mod Signing
pub mod Verdicts
pub mod Revocation
pub mod Coherence
pub mod Issued
mod Tests
use walmart_assignment.Base.{
  String, ℕ, ◌+◌, ◌*◌, ◌/◌, Bool, true, false, not, Option, none, some, List, [], ◌∷◌, ltb, ◌==◌,
  if◌then◌else◌,
}
use walmart_assignment.Base.Text.{◌&◌, str_eq, is_truthy, starts_with, slice_from}
use walmart_assignment.Base.Http.{Reply, next, respond, Body, failure}
use walmart_assignment.Base.Js.{
  Exn, error, Outcome, ok, thrown, Action, pure, throw, ◌>>=◌, ◌>>◌, call, gets, modify, try_catch,
  or_throw,
}
pub use walmart_assignment.Iam.Jwt.Signing.{
  Claims, KeyRow, CachedKey, ActiveKey, Keys, JwtServices, on_world, cache_get, cache_set, key_ttl,
  now_ms, fetch_from, active_from,
}
unfoldable pub use walmart_assignment.Iam.Jwt.Signing.{
  decrypt_secret, load_key, fetch_key, load_active, fetch_active_key,
}

pub data Validation : Type 0 where
  valid : Claims → Validation
  invalid : String → Validation

pub record TokenPair : Type 0 where
  pub access : String
  pub refresh : String

abbrev pub blacklist_key : String → String
blacklist_key jti = "jwt:blacklist:" & jti

-- `if (blacklisted)`: a value that redis returned and that is not empty.
abbrev pub is_marked : Option String → Bool
is_marked none = false
is_marked (some v) = is_truthy v

-- The end of `validateJwt`, from the answer of the blacklist on.
pub verdict : Claims → Option String → Validation
verdict payload mark = if is_marked mark then invalid "revoked" else valid payload

module _ {W : Type 0} (j : JwtServices W) where
  -- `payload.jti ?? ...`: a claim of the payload overrides the default.
  abbrev pub or_default : {A : Type 0} → Option A → A → Option A
  or_default none d = some d
  or_default (some a) d = some a

  unfoldable pub sign : Claims → Action (Keys W) String
  sign payload = do
    key ← fetch_active_key j
    t ← now_ms j
    jti ← on_world (call j.random_uuid)
    on_world (
        j.sign_jwt
          (record payload {
            iat = or_default payload.iat (t / 1000);
            jti = or_default payload.jti jti;
          })
          key.id key.secret)

  unfoldable pub issue_jwt :
      String → List String → List (String × String) → String → Action (Keys W) TokenPair
  issue_jwt user roles attrs tenant = do
    key ← fetch_active_key j
    t ← now_ms j
    let now = t / 1000
    id₁ ← on_world (call j.random_uuid)
    let base : Claims = record {
      sub = some user;
      jti = some id₁;
      roles = some roles;
      attrs = some attrs;
      tenant_id = some tenant;
      iat = some now;
      exp = some (now + 15 * 60);
    }
    access ← on_world (j.sign_jwt base key.id key.secret)
    id₂ ← on_world (call j.random_uuid)
    refresh ← on_world (
        j.sign_jwt (record base { jti = some id₂; exp = some (now + 30 * 24 * 60 * 60) }) key.id
          key.secret)
    pure (record { access = access; refresh = refresh })

  pub check_jti : Claims → Option String → Action (Keys W) Validation
  check_jti payload none = pure (invalid "jti_missing")
  check_jti payload (some jti) =
      if is_truthy jti
      then (do mark ← on_world (j.redis_get (blacklist_key jti)); pure (verdict payload mark))
      else pure (invalid "jti_missing")

  pub check_kid : String → Option String → Action (Keys W) Validation
  check_kid token none = pure (invalid "kid_missing")
  check_kid token (some kid) =
      if is_truthy kid
      then (do
        secret ← fetch_key j kid
        payload ← on_world (j.jwt_verify token secret)
        check_jti payload payload.jti)
      else pure (invalid "kid_missing")

  unfoldable pub validate_jwt : String → Action (Keys W) Validation
  validate_jwt token =
      try_catch (do kid ← (λ s. (j.decode_kid token, s)); check_kid token kid)
        (λ e. pure (invalid "invalid"))

  unfoldable pub verify : String → Action (Keys W) Claims
  verify token = do
    res ← validate_jwt token
    elim res [ valid payload ↦ pure payload | invalid e ↦ throw (error e) ]

  -- The middleware of `attachJwt`: `user` is set on the request that goes on.
  unfoldable pub attach_jwt :
      Option String → Action (Keys W) (Option Claims × Reply (Body (Unit {0})))
  attach_jwt none = pure (none, respond 401 (failure "unauthorized"))
  attach_jwt (some auth) =
      if starts_with auth "Bearer "
      then (do
        result ← validate_jwt (slice_from 7 auth)
        pure (elim result [
          | valid payload ↦ (some payload, next)
          | invalid e ↦ (none, respond 401 (failure "unauthorized"))
        ]))
      else pure (none, respond 401 (failure "unauthorized"))

  unfoldable pub rotate_keys : Action (Keys W) (Unit {0})
  rotate_keys = do
    old ← on_world j.find_active
    secret ← on_world (call j.random_uuid)
    new_key ← on_world (j.create_key secret)
    elim old [ none ↦ pure tt | some r ↦ on_world (j.deactivate_key r.id) ]
    modify (λ s. record s { active_key = none })
    t ← now_ms j
    cache_set new_key.id (record { secret = secret; expires = t + key_ttl })
    on_world (j.publish "jwt_key_rotated" new_key.id)

  unfoldable pub revoke_token : String → ℕ → Action (Keys W) (Unit {0})
  revoke_token jti ttl =
      if ttl == 0 then pure tt else on_world (j.redis_set_ex (blacklist_key jti) "1" ttl)
