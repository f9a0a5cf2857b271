-- ===== src/Iam/Jwt/Issued/Tests.antt =====
-- One key, and a signature that keeps the claims in the world.
use walmart_assignment.Base.{◌≡◌, refl, sym, ap, subst, String, none, some, [], ◌∷◌}
use walmart_assignment.Base.Js.{ok, Outcome}
use walmart_assignment.Iam.Jwt.{
  Claims, KeyRow, ActiveKey, Keys, JwtServices, TokenPair, valid, fetch_key, load_key,
  fetch_active_key, load_active, decrypt_secret, issue_jwt, validate_jwt,
}
use walmart_assignment.Iam.Jwt.Coherence.{IsStored, IsTable, IsCoherent}
use walmart_assignment.Iam.Jwt.Issued.{IsSigner, issued, validate_jwt-issue_jwt}

abbrev row : KeyRow
row = record { id = "k1"; secret = "s" }

abbrev services : JwtServices Claims
services = record {
  now = λ w. (5000, w);
  random_uuid = λ w. ("t1", w);
  kms_decrypt = λ c w. (ok c, w);
  find_key = λ id w. (ok (some (record { id = id; secret = "s" })), w);
  find_active = λ w. (ok (some row), w);
  create_key = λ secret w. (ok row, w);
  deactivate_key = λ id w. (ok tt, w);
  decode_kid = λ token. ok (some token);
  jwt_verify = λ token secret w. (ok w, w);
  sign_jwt = λ c kid secret w. (ok kid, c);
  redis_get = λ key w. (ok none, w);
  redis_set_ex = λ key v ttl w. (ok tt, w);
  publish = λ topic m w. (ok tt, w);
}

abbrev IsHeld : Claims → Claims → Type 0
IsHeld c w = w ≡ c

abbrev secret_of : String → String
secret_of id = "s"

stored : (id : String) → IsStored services secret_of (record { id = id; secret = "s" })
unfolding decrypt_secret
stored id x u t h = let given : Outcome.ok "s" ≡ ok x = ap (λ r. r.0) h in cc

abbrev Found : String → KeyRow → Type 0
Found id r = (r.id ≡ id) × IsStored services secret_of r

row-IsTable : IsTable services secret_of
row-IsTable = record {
  by_id = λ id r w u h.
      (let given : Outcome.ok (some (record { id = id; secret = "s" })) ≡ ok (some r) =
          ap (λ x. x.0) h in
        let same : record { id = id; secret = "s" } ≡ r = cc in
        subst (Found id) same (refl, stored id));
  active = λ r w u h.
      (let given : Outcome.ok (some row) ≡ ok (some r) = ap (λ x. x.0) h in
        let same : row ≡ r = cc in subst (IsStored services secret_of) same (stored "k1"));
}

services-IsSigner : IsSigner services IsHeld
services-IsSigner = record {
  names = λ c kid secret token w u h.
      (let given : Outcome.ok kid ≡ ok token = ap (λ x. x.0) h in
        let same : kid ≡ token = cc in ap (λ x. Outcome.ok (some x)) (sym same));
  verifies = λ c kid secret token w u v h live. (v, ap (λ y. (Outcome.ok y, v)) live);
}

abbrev nobody : Claims
nobody = record {
  sub = none;
  jti = none;
  roles = none;
  attrs = none;
  tenant_id = none;
  iat = none;
  exp = none;
}

abbrev claims : Claims
claims = issued services IsHeld "ann" ("soc" ∷ []) [] "acme" nobody

abbrev keys : Claims → Keys Claims
keys w = record { key_cache = []; active_key = none; world = w }

abbrev cached : Claims → Keys Claims
cached w = record {
  key_cache = ("k1", record { secret = "s"; expires = 305000 }) ∷ [];
  active_key = none;
  world = w;
}

abbrev active : ActiveKey
active = record { id = "k1"; secret = "s"; expires = 305000 }

abbrev pair : TokenPair
pair = record { access = "k1"; refresh = "k1" }

keys-IsCoherent : (w : Claims) → IsCoherent services secret_of (keys w)
keys-IsCoherent w = ((λ id c h. absurd (cc)), (λ a h. absurd (cc)))

fetches_active :
    fetch_active_key services (keys nobody)
    ≡ (ok active, record (cached nobody) { active_key = some active })
unfolding fetch_active_key load_active decrypt_secret
fetches_active = refl

issues :
    (t : Keys Claims) × (issue_jwt services "ann" ("soc" ∷ []) [] "acme" (keys nobody)
      ≡ (ok pair, t))
unfolding issue_jwt fetch_active_key load_active decrypt_secret
issues = (_, refl)

fetches : fetch_key services "k1" (keys claims) ≡ (ok "s", cached claims)
unfolding fetch_key load_key decrypt_secret
fetches = refl

validate_jwt-issue_jwt_example : (validate_jwt services "k1" (keys claims)).0 ≡ ok (valid claims)
validate_jwt-issue_jwt_example =
    validate_jwt-issue_jwt services IsHeld secret_of row-IsTable services-IsSigner "ann"
      ("soc" ∷ []) [] "acme" active pair (keys nobody)
      (record (cached nobody) { active_key = some active }) issues.0 (keys claims) (cached claims)
      "s" (keys-IsCoherent nobody) fetches_active issues.1 (keys-IsCoherent claims) fetches refl
      refl refl (λ v. (v, refl))
