-- ===== src/Iam/Sessions/Revoked.antt =====
-- A session that was revoked, and the validation of tokens: the two meet in the blacklist.
use walmart_assignment.Base.{
  ◌≡◌, ◌≢◌, refl, String, ℕ, ◌||◌, false, some, arith, Bool-cases, inl, inr,
}
use walmart_assignment.Base.Text.{is_truthy}
use walmart_assignment.Base.Http.{respond, nothing}
use walmart_assignment.Base.Js.{ok, Run-cases}
use walmart_assignment.Iam.Access.{Caller, is_admin}
use walmart_assignment.Iam.Jwt.{Claims, Keys, JwtServices, valid, validate_jwt, blacklist_key}
use walmart_assignment.Iam.Jwt.Verdicts.{validate_jwt-Vouched}
use walmart_assignment.Iam.Jwt.Revocation.{Remembers, Vouched-ne}
use walmart_assignment.Iam.Sessions.{
  Session, SessionServices, Sessions, same_text, revoke, count_revoked, delete_found,
  delete_session,
}

module _ {Query Date W : Type 0} (j : JwtServices W) (v : SessionServices Query Date W) where
  -- What is relied on of the services of the two: they have one Redis, which remembers the mark of
  -- the identifier, also while the row of the session is marked.
  pub record IsShared (jti : String) (R : W → Type 0) : Type 0 where
    pub remembers : Remembers j jti R
    pub one_redis :
        (key value : String) (ttl : ℕ) (w : W)
        → v.redis_setex key ttl value w ≡ j.redis_set_ex key value ttl w
    pub keep_mark : (w : W) → R w → R (v.mark_revoked jti w).1

  module _ {jti : String} {R : W → Type 0} (law : IsShared jti R) where
    revoke-R : (s : Sessions W) (u : Sessions W) → revoke v jti s ≡ (ok tt, u) → R u.world
    unfolding revoke count_revoked
    revoke-R s u h = elim (Run-cases (v.redis_setex (blacklist_key jti) 900 "revoked" s.world)) [
      | inr (e, w, b) ↦ absurd (ground arith)
      | inl (_, w, b) ↦
          let marked : R w =
            law.remembers.set "revoked" 900 s.world w refl
              (rw (law.one_redis (blacklist_key jti) "revoked" 900 s.world) at b) in
          let kept : R (v.mark_revoked jti w).1 = law.keep_mark w marked in
          elim (Run-cases (v.mark_revoked jti w)) [
            | inr (e, x, d) ↦ absurd (ground arith)
            | inl (_, x, d) ↦ let same : x ≡ u.world = ground arith in rw same at (rw d at kept)
          ]
    ]

    delete_found-R :
        (auth : Caller) (row : Session) (s u : Sessions W)
        → row.revoked ≡ false
        → delete_found v jti auth (some row) s ≡ (ok (respond 204 nothing), u)
        → R u.world
    unfolding delete_found
    delete_found-R auth row s u live h =
        elim (Bool-cases (is_admin auth || same_text auth.sub (some row.user_id))) [
          | inr foreign ↦ absurd (ground arith)
          | inl allowed ↦ elim (Run-cases (revoke v jti s)) [
            | inr (e, x, b) ↦ absurd (ground arith)
            | inl (_, x, b) ↦ let same : x ≡ u = ground arith in revoke-R s u (rw same at b)
          ]
        ]

    -- Once the session routes have answered 204 to the revocation of a live session, no token that
    -- carries the session's identifier is accepted, as long as the shared Redis remembers the mark.
    pub delete_session-validate_jwt :
        (token : String) (auth : Caller) (row : Session) (c : Claims) (s u : Sessions W) (w : W)
        (k k' : Keys W)
        → v.find_unique jti s.world ≡ (ok (some row), w)
        → row.revoked ≡ false
        → delete_session v jti auth s ≡ (ok (respond 204 nothing), u)
        → k.world ≡ u.world
        → validate_jwt j token k ≡ (ok (valid c), k')
        → c.jti ≢ some jti
    unfolding delete_session
    delete_session-validate_jwt token auth row c s u w k k' found live deleted same h =
        elim (Bool-cases (is_truthy jti)) [
          | inr empty ↦ absurd (ground arith)
          | inl named ↦
              let r : R u.world =
                delete_found-R auth row (record s { world = w }) u live
                  (rw (named, found) at deleted) in
              Vouched-ne j law.remembers token c k (rw same r)
                (validate_jwt-Vouched j token c k k' h)
        ]
