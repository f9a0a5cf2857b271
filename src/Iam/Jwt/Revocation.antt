-- ===== src/Iam/Jwt/Revocation.antt =====
-- A revoked identifier: no token that carries it is accepted while the blacklist remembers it.
use walmart_assignment.Base.{
  ◌≡◌, refl, ◌≢◌, ap, sym, ◌∙◌, false, ◌==◌, String, ℕ, ◌<◌, true, some, arith, Option-cases,
  Bool-cases, inl, inr,
}
use walmart_assignment.Base.Text.{starts_with, is_truthy}
use walmart_assignment.Base.Js.{ok, Run-cases}
use walmart_assignment.Iam.Jwt.{
  Claims, Keys, JwtServices, valid, fetch_key, load_key, decrypt_secret, validate_jwt, revoke_token,
  blacklist_key, is_marked,
}
use walmart_assignment.Iam.Jwt.Verdicts.{Vouched, validate_jwt-Vouched}

module _ {W : Type 0} (j : JwtServices W) where
  -- What is relied on of the services about one identifier: `R` says that the blacklist holds its
  -- mark (which redis drops when the time to live is over). Setting it to a text that is not empty
  -- establishes `R`, under
  -- `R` a reading that succeeds finds it, and the other calls of a validation keep `R`.
  pub record Remembers (jti : String) (R : W → Type 0) : Type 0 where
    pub set :
        (v : String) (ttl : ℕ) (w w' : W)
        → is_truthy v ≡ true
        → j.redis_set_ex (blacklist_key jti) v ttl w ≡ (ok tt, w')
        → R w'
    pub find :
        (o : _) (w w' : W)
        → R w
        → j.redis_get (blacklist_key jti) w ≡ (ok o, w')
        → is_marked o ≡ true
    pub keep_now : (w : W) → R w → R (j.now w).1
    pub keep_row : (id : String) (w : W) → R w → R (j.find_key id w).1
    pub keep_kms : (secret : String) (w : W) → R w → R (j.kms_decrypt secret w).1
    pub keep_verify : (token secret : String) (w : W) → R w → R (j.jwt_verify token secret w).1

  module _ {jti : String} {R : W → Type 0} (law : Remembers jti R) where
    decrypt_secret-keeps : (secret : String) (w : W) → R w → R (decrypt_secret j secret w).1
    unfolding decrypt_secret
    decrypt_secret-keeps secret w r = elim (Bool-cases (starts_with secret "enc:")) [
      | inl cipher ↦ rw cipher (law.keep_kms _ w r)
      | inr plain ↦ rw plain r
    ]

    load_key-keeps : (id : String) (s : Keys W) → R s.world → R (load_key j id s).1.world
    unfolding load_key
    load_key-keeps id s r =
        let kept : R (j.find_key id s.world).1 = law.keep_row id s.world r in
        elim (Run-cases (j.find_key id s.world)) [
          | inr (e, w, b) ↦ rw b (rw b at kept)
          | inl (o, w, b) ↦ elim (Option-cases o) [
            | inl missing ↦ rw (b, missing) (rw b at kept)
            | inr (row, found) ↦
                let decrypted = decrypt_secret-keeps row.secret w (rw b at kept) in
                elim (Run-cases (decrypt_secret j row.secret w)) [
                  | inr (e, u, d) ↦ rw (b, found, d) (rw d at decrypted)
                  | inl (secret, u, d) ↦ rw (b, found, d) (law.keep_now u (rw d at decrypted))
                ]
          ]
        ]

    fetch_key-keeps : (id : String) (s : Keys W) → R s.world → R (fetch_key j id s).1.world
    unfolding fetch_key
    fetch_key-keeps id s r = ground (
      arith,
      law.keep_now s.world r,
      load_key-keeps id s r,
      load_key-keeps id (record s { world = (j.now s.world).1 }) (law.keep_now s.world r),
    )

    pub Vouched-ne :
        (token : String) (c : Claims) (s : Keys W)
        → R s.world
        → Vouched j token c s
        → c.jti ≢ some jti
    Vouched-ne token c s r v same =
        let here : v.jti ≡ jti = cc (v.has_jti) in
        let kept : R v.after_key.world = rw v.key_found at (fetch_key-keeps v.kid s r) in
        let checked : R v.after_verify =
          rw v.verified at (law.keep_verify token v.secret v.after_key.world kept) in
        let looked_up : j.redis_get (blacklist_key jti) v.after_verify
            ≡ (ok v.mark, v.after_redis) =
          rw here at v.looked_up in
        let found : is_marked v.mark ≡ true =
          law.find v.mark v.after_verify v.after_redis checked looked_up in
        cc (sym found ∙ v.not_revoked)

  -- After an identifier has been revoked with a time to live above zero, no token that carries it
  -- is accepted, as long as the blacklist remembers the identifier.
  pub revoke_token-validate_jwt :
      (jti token : String) (R : W → Type 0) (ttl : ℕ) (c : Claims) (s s' t : Keys W)
      → Remembers jti R
      → 0 < ttl
      → revoke_token j jti ttl s ≡ (ok tt, s')
      → validate_jwt j token s' ≡ (ok (valid c), t)
      → c.jti ≢ some jti
  unfolding revoke_token
  revoke_token-validate_jwt jti token R ttl c s s' t law positive revoked h =
      let off : (ttl == 0) ≡ false = ground arith in
      Vouched-ne law token c s'
        (law.set "1" ttl s.world s'.world refl (ap (λ r. (r.0, r.1.world)) (rw off at revoked)))
        (validate_jwt-Vouched j token c s' t h)
