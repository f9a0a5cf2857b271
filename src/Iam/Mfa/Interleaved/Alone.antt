-- ===== src/Iam/Mfa/Interleaved/Alone.antt =====
-- A request that nothing interrupts, against the handler.
use walmart_assignment.Base.{
  ◌≡◌, refl, String, ℕ, zero, suc, Option, none, some, ltb, Bool-cases, Option-cases, inl, inr,
}
use walmart_assignment.Base.Text.{◌&◌}
use walmart_assignment.Base.Js.{Outcome, Run-cases}
use walmart_assignment.Iam.Mfa.{
  Challenge, MfaServices, Mfa, Answer, given, refuse, issue, check_code, check_open, check_found,
  verify_given,
}
use walmart_assignment.Iam.Mfa.Interleaved.{
  Pc, arrived, accepted, replied, resume, finish, settle, test_code, test_open, test_found,
}

module _ {Score W : Type 0} (v : MfaServices Score W) where
  abbrev pub answered : Outcome Answer × Mfa W → Pc × Mfa W
  answered (r, m) = (replied r, m)

  finish-replied :
      (id : String) (n : ℕ) (r : Outcome Answer) (m : Mfa W)
      → finish v id n (replied r) m ≡ (replied r, m)
  unfolding finish resume
  finish-replied id zero r m = refl
  finish-replied id (suc n) r m = finish-replied id n r m

  finish-accepted :
      (id : String) (c : Challenge) (m : Mfa W)
      → finish v id 4 (accepted c) m ≡ answered (issue v id c m)
  unfolding finish resume issue
  finish-accepted id c m =
      elim (Run-cases (v.mark_verified id (v.now m.world).0 (v.now m.world).1)) [
        | inr (e, w, h) ↦ rw h refl
        | inl (a, w, h) ↦ elim (Run-cases (v.redis_del ("mfa:" & id) w)) [
          | inr (e, x, k) ↦ rw (h, k) refl
          | inl (b, x, k) ↦ elim (Run-cases (v.role_names c.user_id x)) [
            | inr (e, y, l) ↦ rw (h, k, l) refl
            | inl (roles, y, l) ↦
                elim (Run-cases
                  (v.sign_token c.user_id roles (v.random_uuid y).0 (v.random_uuid y).1)) [
                    | inr (e, z, q) ↦ rw (h, k, l, q) refl
                    | inl (t, z, q) ↦ rw (h, k, l, q) refl
                  ]
          ]
        ]
      ]

  finish-test_code :
      (id code : String) (c : Challenge) (m : Mfa W)
      → (let (r, t) = test_code v code c m in finish v id 4 (settle r) t)
        ≡ answered (check_code v id code c m)
  unfolding refuse check_code
  finish-test_code id code c m = elim (Bool-cases (v.verify_totp c.secret code m.world).0) [
    | inl right ↦
        rw (right)
          (finish-accepted id c (record m { world = (v.verify_totp c.secret code m.world).1 }))
    | inr wrong ↦ rw (wrong) (finish-replied id 4 _ _)
  ]

  finish-test_open :
      (id code : String) (c : Challenge) (m : Mfa W)
      → (let (r, t) = test_open v code c m in finish v id 4 (settle r) t)
        ≡ answered (check_open v id code c m)
  unfolding refuse check_open
  finish-test_open id code c m = elim (Bool-cases (ltb c.expires_at (v.now m.world).0)) [
    | inl late ↦ rw late (finish-replied id 4 _ _)
    | inr early ↦ elim (Option-cases c.verified_at) [
      | inl fresh ↦
          rw (early, fresh) (finish-test_code id code c (record m { world = (v.now m.world).1 }))
      | inr (at, used) ↦ rw (early, used) (finish-replied id 4 _ _)
    ]
  ]

  finish-test_found :
      (id code : String) (mark : Option String) (o : Option Challenge) (m : Mfa W)
      → (let (r, t) = test_found v code mark o m in finish v id 4 (settle r) t)
        ≡ answered (check_found v id code mark o m)
  unfolding refuse check_found
  finish-test_found id code mark none m = finish-replied id 4 _ _
  finish-test_found id code mark (some c) m = elim (Bool-cases (given mark)) [
    | inl pending ↦ rw pending (finish-test_open id code c m)
    | inr gone ↦ rw gone (finish-replied id 4 _ _)
  ]

  -- A request that nothing interrupts takes six turns, and ends with just the answer, the counters and
  -- the world that the handler ends with.
  pub finish-verify_given :
      (id code : String) (m : Mfa W)
      → finish v id 6 (arrived code) m ≡ answered (verify_given v id code m)
  unfolding finish resume verify_given
  finish-verify_given id code m = elim (Run-cases (v.redis_get ("mfa:" & id) m.world)) [
    | inr (e, w, h) ↦ rw h refl
    | inl (mark, w, h) ↦ elim (Run-cases (v.find_challenge id w)) [
      | inr (e, x, k) ↦ rw (h, k) refl
      | inl (o, x, k) ↦ rw (h, k) (finish-test_found id code mark o (record m { world = x }))
    ]
  ]
