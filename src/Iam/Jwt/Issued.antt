-- ===== src/Iam/Jwt/Issued.antt =====
-- A token that was issued is accepted.
mod Tests
use walmart_assignment.Base.{
  ◌≡◌, refl, sym, ap, subst, ◌∙◌, String, ℕ, ◌+◌, ◌*◌, ◌/◌, true, false, none, some, List, inl, inr,
  arith,
}
use walmart_assignment.Base.Text.{is_truthy}
use walmart_assignment.Base.Js.{ok, thrown, Outcome, Run-cases}
use walmart_assignment.Iam.Jwt.{
  Claims, ActiveKey, Keys, JwtServices, TokenPair, Validation, valid, fetch_key, fetch_active_key,
  issue_jwt, validate_jwt, check_kid, check_jti, verdict, blacklist_key,
}
use walmart_assignment.Iam.Jwt.Coherence.{
  IsTable, IsCoherent, fetch_key-IsCoherent, fetch_active_key-IsCoherent,
}

module _ {W : Type 0} (j : JwtServices W) (IsLive : Claims → W → Type 0) where
  -- What is relied on of jose: a signed token names its key, and while its claims are live it is
  -- verified by the secret that signed it, to the claims that were signed.
  pub record IsSigner : Type 0 where
    pub names :
        (c : Claims) (kid secret token : String) (w u : W)
        → j.sign_jwt c kid secret w ≡ (ok token, u)
        → j.decode_kid token ≡ ok (some kid)
    pub verifies :
        (c : Claims) (kid secret token : String) (w u v : W)
        → j.sign_jwt c kid secret w ≡ (ok token, u)
        → IsLive c v
        → (x : W) × (j.jwt_verify token secret v ≡ (ok c, x))

  -- The claims of the access token that is issued when the active key has been fetched.
  abbrev pub issued : String → List String → List (String × String) → String → W → Claims
  issued user roles attrs tenant w =
      let (t, u) = j.now w in
      record {
        sub = some user;
        jti = some (j.random_uuid u).0;
        roles = some roles;
        attrs = some attrs;
        tenant_id = some tenant;
        iat = some (t / 1000);
        exp = some (t / 1000 + 15 * 60);
      }

  issue_jwt-access :
      (user : String) (roles : List String) (attrs : List (String × String)) (tenant : String)
      (key : ActiveKey) (pair : TokenPair) (s s₁ t : Keys W)
      → fetch_active_key j s ≡ (ok key, s₁)
      → issue_jwt j user roles attrs tenant s ≡ (ok pair, t)
      → (w u : W) × (j.sign_jwt (issued user roles attrs tenant s₁.world) key.id key.secret w
          ≡ (ok pair.access, u))
  unfolding issue_jwt
  issue_jwt-access user roles attrs tenant key pair s s₁ t fetched h =
      let c = issued user roles attrs tenant s₁.world in
      let (now, w) = j.now s₁.world in
      let (id₁, w₁) = j.random_uuid w in
      elim (Run-cases (j.sign_jwt c key.id key.secret w₁)) [
        | inr (e, u, b) ↦ absurd (ground arith)
        | inl (access, u, b) ↦
            let (id₂, w₂) = j.random_uuid u in
            elim (Run-cases (
              j.sign_jwt (record c { jti = some id₂; exp = some (now / 1000 + 30 * 24 * 60 * 60) })
                key.id key.secret w₂)) [
                  | inr (e, v, d) ↦ absurd (ground arith)
                  | inl (refresh, v, d) ↦
                      let out = rw (fetched, b, d) at h in
                      let given : Outcome.ok (record { access = access; refresh = refresh })
                          ≡ ok pair =
                        ap (λ r. r.0) out in
                      let same : record { access = access; refresh = refresh } ≡ pair = cc in
                      (w₁, u, b ∙ ap (λ p. (ok p.access, u)) same)
                ]
      ]

  -- The caches hold the secrets of the table, at the issue and at the validation, whatever happened in
  -- between. An access token that was issued is accepted, with the claims it was issued with, as long
  -- as its claims are live, its key can still be fetched, and the blacklist has no mark of its
  -- identifier; the key's and the token's identifiers are not empty.
  pub validate_jwt-issue_jwt :
      (secret_of : String → String)
      → IsTable j secret_of
      → IsSigner
      → (user : String) (roles : List String) (attrs : List (String × String)) (tenant : String)
        (key : ActiveKey) (pair : TokenPair) (s s₁ t k k₁ : Keys W) (x : String)
      → IsCoherent j secret_of s
      → fetch_active_key j s ≡ (ok key, s₁)
      → issue_jwt j user roles attrs tenant s ≡ (ok pair, t)
      → IsCoherent j secret_of k
      → fetch_key j key.id k ≡ (ok x, k₁)
      → IsLive (issued user roles attrs tenant s₁.world) k₁.world
      → is_truthy key.id ≡ true
      → is_truthy (j.random_uuid (j.now s₁.world).1).0 ≡ true
      → ((v : W)
          → (w : W) × (j.redis_get (blacklist_key (j.random_uuid (j.now s₁.world).1).0) v
              ≡ (ok none, w)))
      → (validate_jwt j pair.access k).0 ≡ ok (valid (issued user roles attrs tenant s₁.world))
  unfolding validate_jwt check_kid check_jti verdict
  validate_jwt-issue_jwt secret_of table signer user roles attrs tenant key pair s s₁ t k k₁ x
        coherent fetched made later again live named identified unmarked =
      let (u, v, signed) = issue_jwt-access user roles attrs tenant key pair s s₁ t fetched made in
      let c = issued user roles attrs tenant s₁.world in
      let kid = signer.names c key.id key.secret pair.access u v signed in
      let (y, verified) =
        signer.verifies c key.id key.secret pair.access u v k₁.world signed live in
      let same : x ≡ key.secret =
        (fetch_key-IsCoherent j secret_of table key.id x k k₁ later again).0
        ∙ sym (fetch_active_key-IsCoherent j secret_of table key s s₁ coherent fetched).0 in
      let (z, mark) = unmarked y in rw (kid, named, again, same, verified, identified, mark) refl
