-- ===== src/Iam/Jwt/Tests.antt =====
-- Tokens under one key, with the marks of the blacklist as the world.
use walmart_assignment.Base.{
  ℕ, false, ◌||◌, ◌≡◌, ◌≢◌, refl, String, true, Option, none, some, List, [], ◌∷◌, arith,
  if◌then◌else◌,
}
use walmart_assignment.Base.Text.{includes, eq_refl}
use walmart_assignment.Base.Js.{ok, Returns}
use walmart_assignment.Iam.Jwt.{
  Claims, KeyRow, Keys, JwtServices, valid, validate_jwt, revoke_token, fetch_key, load_key,
  decrypt_secret, check_kid, check_jti, verdict, blacklist_key,
}
use walmart_assignment.Iam.Jwt.Verdicts.{Vouched, validate_jwt_total, validate_jwt-Vouched}
use walmart_assignment.Base.Http.{respond, nothing}
use walmart_assignment.Iam.Access.{Caller, is_admin}
use walmart_assignment.Iam.Sessions.{
  Session, same_text, SessionServices, Sessions, delete_session, delete_session_revokes,
}
use walmart_assignment.Iam.Sessions.Revoked.{IsShared, delete_session-validate_jwt}
use walmart_assignment.Iam.Jwt.Revocation.{Remembers}

abbrev claims : Claims
claims = record {
  sub = some "ann";
  jti = some "t2";
  roles = none;
  attrs = none;
  tenant_id = none;
  iat = none;
  exp = none;
}

abbrev row : KeyRow
row = record { id = "k1"; secret = "hush" }

abbrev mark_of : String → List String → Option String
mark_of key marks = if includes key marks then some "1" else none

abbrev services : JwtServices (List String)
services = record {
  now = λ w. (5, w);
  random_uuid = λ w. ("u", w);
  kms_decrypt = λ s w. (ok s, w);
  find_key = λ id w. (ok (some row), w);
  find_active = λ w. (ok (some row), w);
  create_key = λ s w. (ok row, w);
  deactivate_key = λ id w. (ok tt, w);
  decode_kid = λ token. ok (some "k1");
  jwt_verify = λ token secret w. (ok claims, w);
  sign_jwt = λ c id secret w. (ok "token", w);
  redis_get = λ key w. (ok (mark_of key w), w);
  redis_set_ex = λ key v ttl w. (ok tt, key ∷ w);
  publish = λ topic m w. (ok tt, w);
}

abbrev fresh : Keys (List String)
fresh = record { key_cache = []; active_key = none; world = [] }

abbrev revoked : Keys (List String)
revoked = record { key_cache = []; active_key = none; world = "jwt:blacklist:t1" ∷ [] }

abbrev ended : List String → Keys (List String)
ended w = record {
  key_cache = ("k1", record { secret = "hush"; expires = 300005 }) ∷ [];
  active_key = none;
  world = w;
}

accepts : validate_jwt services "token" fresh ≡ (ok (valid claims), ended [])
unfolding validate_jwt check_kid check_jti verdict fetch_key load_key decrypt_secret
accepts = refl

validate_jwt-Vouched_example : Vouched services "token" claims fresh
validate_jwt-Vouched_example = validate_jwt-Vouched services "token" claims fresh (ended []) accepts

validate_jwt_total_example : Returns (λ _ _. Unit) (validate_jwt services "token" fresh)
validate_jwt_total_example = validate_jwt_total services "token" fresh

-- The blacklist holds the mark of an identifier.
Marked : String → List String → Type 0
Marked jti w = includes (blacklist_key jti) w ≡ true

services-Remembers : Remembers services "t1" (Marked "t1")
unfolding Marked
services-Remembers = record {
  set = λ v ttl w w' given h. ground (arith, eq_refl (blacklist_key "t1"));
  find = λ o w w' r h. ground arith;
  keep_now = λ w r. r;
  keep_row = λ id w r. r;
  keep_kms = λ s w r. r;
  keep_verify = λ t s w r. r;
}

revokes : revoke_token services "t1" 900 fresh ≡ (ok tt, revoked)
unfolding revoke_token
revokes = refl

accepts_other :
    validate_jwt services "token" revoked ≡ (ok (valid claims), ended ("jwt:blacklist:t1" ∷ []))
unfolding validate_jwt check_kid check_jti verdict fetch_key load_key decrypt_secret
accepts_other = refl

abbrev session : Session
session = record {
  jti = "t1";
  user_id = "ann";
  ip = "";
  ua = "";
  created_at = "noon";
  last_seen = none;
  revoked = false;
}

-- The routes of the sessions on the same Redis.
abbrev routes : SessionServices (Unit {0}) (Unit {0}) (List String)
routes = record {
  parse_query = λ q. none;
  parse_date = λ d. none;
  find_many = λ user before n w. (ok [], w);
  find_unique = λ jti w. (ok (some session), w);
  redis_setex = λ key ttl v w. (ok tt, key ∷ w);
  mark_revoked = λ jti w. (ok tt, w);
}

routes-IsShared : IsShared services routes "t1" (Marked "t1")
routes-IsShared = record {
  remembers = services-Remembers;
  one_redis = λ key v ttl w. refl;
  keep_mark = λ w r. r;
}

abbrev owner : Caller
owner = record { sub = some "ann"; roles = none; permissions = none }

abbrev counted : ℕ → List String → Sessions (List String)
counted n w = record { revoked_total = n; world = w }

owner_may : (is_admin owner || same_text owner.sub (some "ann")) ≡ true
unfolding is_admin
owner_may = refl

deletes :
    delete_session routes "t1" owner (counted 0 [])
    ≡ (ok (respond 204 nothing), counted 1 ("jwt:blacklist:t1" ∷ []))
deletes =
    delete_session_revokes routes "t1" owner session (counted 0 []) [] ("jwt:blacklist:t1" ∷ [])
      ("jwt:blacklist:t1" ∷ []) refl refl owner_may refl refl

delete_session-validate_jwt_example : claims.jti ≢ some "t1"
delete_session-validate_jwt_example =
    delete_session-validate_jwt services routes routes-IsShared "token" owner session claims
      (counted 0 []) (counted 1 ("jwt:blacklist:t1" ∷ [])) [] revoked
      (ended ("jwt:blacklist:t1" ∷ [])) refl refl deletes refl accepts_other
