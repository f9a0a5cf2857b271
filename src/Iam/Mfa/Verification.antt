-- ===== src/Iam/Mfa/Verification.antt =====
-- When a second factor is asked for, and when its verification gives out a token.

use walmart_assignment.Base.{
  ◌≡◌, refl, String, ℕ, ◌≤◌, true, Option, none, some, arith, ltb, ltb_false→le, Bool-cases, inl,
  inr, ◌∷◌,
}
use walmart_assignment.Base.Text.{◌&◌}
use walmart_assignment.Base.Http.{respond, value}
use walmart_assignment.Base.Js.{ok, Run-cases}
use walmart_assignment.Iam.Mfa.{
  Challenge, MfaServices, Mfa, invalid_code, expired, VerifyBody, token, given, refuse, check_code,
  check_open, check_found, verify_given, verify_fields, verify,
}

module _ {Score W : Type 0} (v : MfaServices Score W) where
  -- A challenge that is open, and a code that is right for it.
  pub record Passed (code : String) (c : Challenge) (w : W) : Type 0 where
    pub in_time : (v.now w).0 ≤ c.expires_at
    pub not_used : c.verified_at ≡ none
    pub right : (v.verify_totp c.secret code (v.now w).1).0 ≡ true

  check_open-Passed :
      (id code t : String) (c : Challenge) (s u : Mfa W)
      → check_open v id code c s ≡ (ok (respond 200 (value (token t))), u)
      → Passed code c s.world
  unfolding check_open check_code refuse
  check_open-Passed id code t c s u h = elim (Bool-cases (ltb c.expires_at (v.now s.world).0)) [
    | inl late ↦ absurd (ground arith)
    | inr early ↦ elim (Bool-cases (v.verify_totp c.secret code (v.now s.world).1).0) [
      | inr wrong ↦ absurd (ground arith)
      | inl right ↦ record {
        in_time = ltb_false→le _ _ early;
        not_used = ground arith;
        right = right;
      }
    ]
  ]

  -- What a token that was given out rests on.
  abbrev pub Issued : VerifyBody → Mfa W → Type 0
  Issued body s =
      (id : String) × (code : String) × (mark : Option String) × (c : Challenge) × (w₁ : W)
      × (w₂ : W) × (body.challenge_uuid ≡ some id)
      × (body.code ≡ some code)
      × (v.redis_get ("mfa:" & id) s.world ≡ (ok mark, w₁))
      × (given mark ≡ true)
      × (v.find_challenge id w₁ ≡ (ok (some c), w₂))
      × Passed code c w₂

  verify_fields-Issued :
      (o p : Option String) (body : VerifyBody) (t : String) (s u : Mfa W)
      → body.challenge_uuid ≡ o
      → body.code ≡ p
      → verify_fields v o p s ≡ (ok (respond 200 (value (token t))), u)
      → Issued body s
  unfolding verify_fields verify_given check_found refuse
  verify_fields-Issued none p body t s u b d h = absurd (cc)
  verify_fields-Issued (some id) none body t s u b d h = absurd (cc)
  verify_fields-Issued (some id) (some code) body t s u b d h =
      elim (Run-cases (v.redis_get ("mfa:" & id) s.world)) [
        | inr (e, w, r) ↦ absurd (ground arith)
        | inl (mark, w₁, r) ↦ elim (Run-cases (v.find_challenge id w₁)) [
          | inr (e, w, f) ↦ absurd (ground arith)
          | inl (none, w₂, f) ↦ absurd (ground arith)
          | inl (some c, w₂, f) ↦ elim (Bool-cases (given mark)) [
            | inr gone ↦ absurd (ground arith)
            | inl marked ↦ (
              id,
              code,
              mark,
              c,
              w₁,
              w₂,
              b,
              d,
              r,
              marked,
              f,
              check_open-Passed id code t c (record s { world = w₂ }) u (rw (r, f, marked) at h),
            )
          ]
        ]
      ]

  -- A token is given out only for a challenge that Redis still holds as pending and that the table
  -- has, not yet expired and not yet verified, and for a code that the challenge's secret accepts.
  pub verify-Issued :
      (body : VerifyBody) (t : String) (s u : Mfa W)
      → verify v body s ≡ (ok (respond 200 (value (token t))), u)
      → Issued body s
  unfolding verify
  verify-Issued body t s u h =
      verify_fields-Issued body.challenge_uuid body.code body t s u refl refl h

  -- Once a challenge is verified, no code is accepted for it: whatever code comes with it, the answer
  -- is 403, and the failure is counted as `expired`.
  pub verify_once :
      (id code : String) (c : Challenge) (mark : Option String) (at : ℕ) (s : Mfa W) (w₁ w₂ : W)
      → v.redis_get ("mfa:" & id) s.world ≡ (ok mark, w₁)
      → v.find_challenge id w₁ ≡ (ok (some c), w₂)
      → c.verified_at ≡ some at
      → (t : Mfa W) × (verify v (record { challenge_uuid = some id; code = some code }) s
          ≡ (ok invalid_code, t))
        × (t.failures ≡ expired ∷ s.failures)
  unfolding verify verify_fields verify_given check_found check_open refuse
  verify_once id code c mark at s w₁ w₂ r f used = elim (Bool-cases (given mark)) [
    | inr gone ↦ (record s { failures = expired ∷ s.failures; world = w₂ }, rw (r, f, gone), refl)
    | inl marked ↦
        (record s { failures = expired ∷ s.failures; world = (v.now w₂).1 }, ground arith, refl)
  ]
