-- ===== src/Iam/Mfa/Interleaved/Used.antt =====
-- The row of one challenge, which the requests share: once it is used, it stays so.
use walmart_assignment.Base.{◌≡◌, String, ℕ, true, Bool, Option, none, some, List, arith, inl, inr}
use walmart_assignment.Base.Text.{◌&◌}
use walmart_assignment.Base.Http.{respond, value}
use walmart_assignment.Base.Js.{ok, Run-cases, Action, ◌>>=◌, pure}
use walmart_assignment.Iam.Mfa.{Challenge, MfaServices, Mfa, token, refuse, on_world}
use walmart_assignment.Iam.Mfa.Interleaved.{
  Pc, arrived, marked, accepted, updated, deleted, with_roles, replied, resume, advance, test_found,
}

-- What the row of one challenge does: once `verified_at` is written it is read back, and no call that
-- the handler makes takes it away.
pub record Row {Score W : Type 0} (v : MfaServices Score W) (id : String) (used : W → Bool)
    : Type 0 where
  pub read_used :
      (w u : W) (c : Challenge)
      → used w ≡ true
      → v.find_challenge id w ≡ (ok (some c), u)
      → (at : ℕ) × (c.verified_at ≡ some at)
  pub mark_used : (at : ℕ) (w u : W) → v.mark_verified id at w ≡ (ok tt, u) → used u ≡ true
  pub mark_keeps : (at : ℕ) (w : W) → used w ≡ true → used (v.mark_verified id at w).1 ≡ true
  pub get_keeps : (key : String) (w : W) → used w ≡ true → used (v.redis_get key w).1 ≡ true
  pub find_keeps : (w : W) → used w ≡ true → used (v.find_challenge id w).1 ≡ true
  pub now_keeps : (w : W) → used w ≡ true → used (v.now w).1 ≡ true
  pub totp_keeps :
      (secret code : String) (w : W) → used w ≡ true → used (v.verify_totp secret code w).1 ≡ true
  pub del_keeps : (key : String) (w : W) → used w ≡ true → used (v.redis_del key w).1 ≡ true
  pub roles_keep : (user : String) (w : W) → used w ≡ true → used (v.role_names user w).1 ≡ true
  pub uuid_keeps : (w : W) → used w ≡ true → used (v.random_uuid w).1 ≡ true
  pub sign_keeps :
      (sub : String) (roles : List String) (jti : String) (w : W)
      → used w ≡ true
      → used (v.sign_token sub roles jti w).1 ≡ true

module _ {Score W : Type 0} (v : MfaServices Score W) (id : String) (used : W → Bool)
    (row : Row v id used) where
  -- A call that keeps the row, in front of code that keeps it.
  used-bind :
      {A B : Type 0} (m : Action W A) (f : A → Action (Mfa W) B) (s : Mfa W)
      → ((w : W) → used w ≡ true → used (m w).1 ≡ true)
      → ((a : A) (t : Mfa W) → used t.world ≡ true → used (f a t).1.world ≡ true)
      → used s.world ≡ true
      → used ((on_world v m >>= f) s).1.world ≡ true
  used-bind m f s keeps rest h =
      let kept = keeps s.world h in
      elim (Run-cases (m s.world)) [
        | inr (e, w, k) ↦ rw k (rw k at kept)
        | inl (a, w, k) ↦ rw k (rest a (record s { world = w }) (rw k at kept))
      ]

  pub used-test_found :
      (code : String) (mark : Option String) (o : Option Challenge) (m : Mfa W)
      → used m.world ≡ true
      → used (test_found v code mark o m).1.world ≡ true
  unfolding refuse
  used-test_found code mark none m h = h
  used-test_found code mark (some c) m h =
      let a = row.now_keeps m.world h in
      let b = row.totp_keeps c.secret code (v.now m.world).1 a in ground arith

  pub used-advance :
      (p : Pc) (m : Mfa W) → used m.world ≡ true → used (advance v id p m).1.world ≡ true
  unfolding resume
  used-advance (arrived code) m h =
      used-bind (v.redis_get ("mfa:" & id)) _ m (row.get_keeps ("mfa:" & id)) (λ a t k. k) h
  used-advance (marked code mark) m h =
      used-bind (v.find_challenge id) _ m row.find_keeps (used-test_found code mark) h
  used-advance (accepted c) m h =
      used-bind (v.mark_verified id (v.now m.world).0) (λ _. pure (updated c))
        (record m { world = (v.now m.world).1 }) (row.mark_keeps (v.now m.world).0) (λ a t k. k)
        (row.now_keeps m.world h)
  used-advance (updated c) m h =
      used-bind (v.redis_del ("mfa:" & id)) _ m (row.del_keeps ("mfa:" & id)) (λ a t k. k) h
  used-advance (deleted c) m h =
      used-bind (v.role_names c.user_id) _ m (row.roles_keep c.user_id) (λ a t k. k) h
  used-advance (with_roles c roles) m h =
      used-bind (v.sign_token c.user_id roles (v.random_uuid m.world).0)
        (λ t. pure (replied (ok (respond 200 (value (token t))))))
        (record m { world = (v.random_uuid m.world).1 })
        (row.sign_keeps c.user_id roles (v.random_uuid m.world).0) (λ a t k. k)
        (row.uuid_keeps m.world h)
  used-advance (replied r) m h = h
