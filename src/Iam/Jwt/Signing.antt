-- ===== src/Iam/Jwt/Signing.antt =====
-- iam-service/src/lib/jwt.ts: the state of the module, what it takes from the outside, and the signing
-- keys with their cache (fetchKey and fetchActiveKey).
use walmart_assignment.Base.{
  String, ℕ, ◌+◌, ◌*◌, Option, none, some, List, [], ◌∷◌, ltb, if◌then◌else◌,
}
use walmart_assignment.Base.Text.{str_eq, starts_with, slice_from}
use walmart_assignment.Base.Js.{error, Outcome, Action, pure, ◌>>=◌, ◌>>◌, call, modify, or_throw}

-- The claims that the code reads or writes; a missing one is `undefined`.
pub record Claims : Type 0 where
  pub sub : Option String
  pub jti : Option String
  pub roles : Option (List String)
  pub attrs : Option (List (String × String))
  pub tenant_id : Option String
  pub iat : Option ℕ
  pub exp : Option ℕ

-- A row of `jwt_keys`.
pub record KeyRow : Type 0 where
  pub id : String
  pub secret : String

pub record CachedKey : Type 0 where
  pub secret : String
  pub expires : ℕ

pub record ActiveKey : Type 0 where
  pub id : String
  pub secret : String
  pub expires : ℕ

-- The module's `keyCache` and `activeKey`, and the world.
pub record Keys (W : Type 0) : Type 0 where
  pub key_cache : List (String × CachedKey)
  pub active_key : Option ActiveKey
  pub world : W

-- The services. Times are milliseconds; `decode_kid` is the `kid` of `decodeProtectedHeader` if it
-- is a string; a secret is the text whose UTF-8 encoding is the key.
pub record JwtServices (W : Type 0) : Type 0 where
  pub now : W → ℕ × W
  pub random_uuid : W → String × W
  pub kms_decrypt : String → Action W String
  pub find_key : String → Action W (Option KeyRow)
  pub find_active : Action W (Option KeyRow)
  pub create_key : String → Action W KeyRow
  pub deactivate_key : String → Action W (Unit {0})
  pub decode_kid : String → Outcome (Option String)
  pub jwt_verify : String → String → Action W Claims
  pub sign_jwt : Claims → String → String → Action W String
  pub redis_get : String → Action W (Option String)
  pub redis_set_ex : String → String → ℕ → Action W (Unit {0})
  pub publish : String → String → Action W (Unit {0})

-- A call on the world alone.
abbrev pub on_world : {W A : Type 0} → Action W A → Action (Keys W) A
on_world m s = let (r, w) = m s.world in (r, record s { world = w })

-- `keyCache.get(id)` and `keyCache.set(id, key)`.
abbrev pub cache_get : String → List (String × CachedKey) → Option CachedKey
cache_get id [] = none
cache_get id ((k, x) ∷ rest) = if str_eq k id then some x else cache_get id rest

abbrev pub cache_set : {W : Type 0} → String → CachedKey → Action (Keys W) (Unit {0})
cache_set id x = modify (λ s. record s { key_cache = (id, x) ∷ s.key_cache })

-- `5 * 60_000`.
abbrev pub key_ttl : ℕ
key_ttl = 5 * 60000

module _ {W : Type 0} (j : JwtServices W) where
  abbrev pub now_ms : Action (Keys W) ℕ
  now_ms = on_world (call j.now)

  unfoldable pub decrypt_secret : String → Action W String
  decrypt_secret secret =
      if starts_with secret "enc:" then j.kms_decrypt (slice_from 4 secret) else pure secret

  -- The rest of `fetchKey`, where the cache has no live entry.
  unfoldable pub load_key : String → Action (Keys W) String
  load_key id = do
    row ← on_world (j.find_key id)
    r ← or_throw row (error "key_not_found")
    secret ← on_world (decrypt_secret r.secret)
    t ← now_ms
    cache_set id (record { secret = secret; expires = t + key_ttl })
    pure secret

  -- `fetchKey` from the cache's entry.
  abbrev pub fetch_from : String → Option CachedKey → Action (Keys W) String
  fetch_from id none = load_key id
  fetch_from id (some c) = do t ← now_ms; (if ltb t c.expires then pure c.secret else load_key id)

  unfoldable pub fetch_key : String → Action (Keys W) String
  fetch_key id s = fetch_from id (cache_get id s.key_cache) s

  -- The rest of `fetchActiveKey`.
  unfoldable pub load_active : Action (Keys W) ActiveKey
  load_active = do
    row ← on_world j.find_active
    r ← or_throw row (error "no_active_key")
    secret ← on_world (decrypt_secret r.secret)
    t ← now_ms
    let key : ActiveKey = record { id = r.id; secret = secret; expires = t + key_ttl }
    modify (λ s. record s { active_key = some key })
    u ← now_ms
    cache_set r.id (record { secret = secret; expires = u + key_ttl })
    pure key

  -- `fetchActiveKey` from the key that is kept.
  abbrev pub active_from : Option ActiveKey → Action (Keys W) ActiveKey
  active_from none = load_active
  active_from (some a) = do t ← now_ms; (if ltb t a.expires then pure a else load_active)

  unfoldable pub fetch_active_key : Action (Keys W) ActiveKey
  fetch_active_key s = active_from s.active_key s
