-- ===== src/Iam/Jwt/Verdicts.antt =====
-- When a token is accepted: its key, its signature, its identifier and the blacklist.
use walmart_assignment.Base.{
  ◌≡◌, refl, ap, subst, String, true, false, Option, none, some, arith, Bool-cases, inl, inr,
}
use walmart_assignment.Base.Text.{is_truthy}
use walmart_assignment.Base.Js.{◌>>=◌, ok, Returns, Run-cases, Outcome-cases, and_then-eq-ok}
use walmart_assignment.Iam.Jwt.{
  Claims, Keys, JwtServices, valid, fetch_key, check_jti, verdict, is_marked, check_kid,
  validate_jwt, blacklist_key, on_world,
}

module _ {W : Type 0} (j : JwtServices W) where
  -- Why a token with these claims was accepted in a state.
  pub record Vouched (token : String) (c : Claims) (s : Keys W) : Type 0 where
    pub kid : String
    pub secret : String
    pub jti : String
    pub after_key : Keys W
    pub after_verify : W
    pub after_redis : W
    pub mark : Option String
    pub kid_read : j.decode_kid token ≡ ok (some kid)
    pub kid_given : is_truthy kid ≡ true
    pub key_found : fetch_key j kid s ≡ (ok secret, after_key)
    pub verified : j.jwt_verify token secret after_key.world ≡ (ok c, after_verify)
    pub has_jti : c.jti ≡ some jti
    pub jti_given : is_truthy jti ≡ true
    pub looked_up : j.redis_get (blacklist_key jti) after_verify ≡ (ok mark, after_redis)
    pub not_revoked : is_marked mark ≡ false

  -- Validation never throws: whatever the token and the services do, it ends in a verdict.
  pub validate_jwt_total :
      (token : String) (s : Keys W) → Returns (λ _ _. Unit) (validate_jwt j token s)
  unfolding validate_jwt
  validate_jwt_total token s = ground arith

  check_jti-valid :
      (p c : Claims) (o : Option String) (s t : Keys W)
      → check_jti j p o s ≡ (ok (valid c), t)
      → (p ≡ c)
        × (jti : String) × (mark : Option String) × (w : W) × (o ≡ some jti)
        × (is_truthy jti ≡ true)
        × (j.redis_get (blacklist_key jti) s.world ≡ (ok mark, w))
        × (is_marked mark ≡ false)
  unfolding check_jti verdict
  check_jti-valid p c none s t h = absurd (cc)
  check_jti-valid p c (some jti) s t h =
      elim (Run-cases (j.redis_get (blacklist_key jti) s.world)) [
        | inr (e, w, b) ↦ absurd (ground arith)
        | inl (mark, w, b) ↦ (ground arith, jti, mark, w, refl, ground arith, b, ground arith)
      ]

  vouch :
      (token kid secret : String) (p c : Claims) (s s₁ s₂ t : Keys W)
      → j.decode_kid token ≡ ok (some kid)
      → is_truthy kid ≡ true
      → fetch_key j kid s ≡ (ok secret, s₁)
      → j.jwt_verify token secret s₁.world ≡ (ok p, s₂.world)
      → check_jti j p p.jti s₂ ≡ (ok (valid c), t)
      → Vouched token c s
  vouch token kid secret p c s s₁ s₂ t d given found verified h =
      let (same, jti, mark, w, has_jti, jti_given, looked_up, not_revoked) =
        check_jti-valid p c p.jti s₂ t h in
      record {
        kid = kid;
        secret = secret;
        jti = jti;
        after_key = s₁;
        after_verify = s₂.world;
        after_redis = w;
        mark = mark;
        kid_read = d;
        kid_given = given;
        key_found = found;
        verified = subst (λ x. j.jwt_verify token secret s₁.world ≡ (ok x, s₂.world)) same verified;
        has_jti = subst (λ x. x.jti ≡ some jti) same has_jti;
        jti_given = jti_given;
        looked_up = looked_up;
        not_revoked = not_revoked;
      }

  check_kid-valid :
      (token : String) (o : Option String) (c : Claims) (s t : Keys W)
      → j.decode_kid token ≡ ok o
      → check_kid j token o s ≡ (ok (valid c), t)
      → Vouched token c s
  unfolding check_kid
  check_kid-valid token none c s t d h = absurd (cc)
  check_kid-valid token (some kid) c s t d h = elim (Bool-cases (is_truthy kid)) [
    | inr empty ↦ absurd (ground arith)
    | inl given ↦
        let (secret, s₁, found, h₁) =
          and_then-eq-ok (fetch_key j kid s)
            (λ secret. do
              payload ← on_world (j.jwt_verify token secret)
              check_jti j payload payload.jti)
            (rw given at h) in
        let (payload, s₂, verified, h₂) =
          and_then-eq-ok (on_world (j.jwt_verify token secret) s₁)
            (λ payload. check_jti j payload payload.jti) h₁ in
        vouch token kid secret payload c s s₁ s₂ t d given found
          (ap (λ r. (r.0, r.1.world)) verified) h₂
  ]

  -- A token is accepted only if its header names a key, that key is found and verifies it, it
  -- carries an identifier, and the blacklist holds no mark for that identifier; the payload is the
  -- verified one.
  pub validate_jwt-Vouched :
      (token : String) (c : Claims) (s t : Keys W)
      → validate_jwt j token s ≡ (ok (valid c), t)
      → Vouched token c s
  unfolding validate_jwt
  validate_jwt-Vouched token c s t h = elim (Outcome-cases (j.decode_kid token)) [
    | inr (e, b) ↦ absurd (ground arith)
    | inl (o, b) ↦ elim (Run-cases (check_kid j token o s)) [
      | inr (e, u, r) ↦ absurd (ground arith)
      | inl (v, u, r) ↦ check_kid-valid token o c s t b (ground arith)
    ]
  ]
