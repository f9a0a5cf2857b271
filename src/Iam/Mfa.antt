-- ===== src/Iam/Mfa.antt =====
-- iam-service/src/routes/mfa.ts: second factors, their challenges and their verification.
-- Prisma, Redis, speakeasy, the mail and SMS services, secrets, tokens and the clock are parameters.
pub mod Verification
pub mod Interleaved
mod Tests
use walmart_assignment.Base.{
  ◌≡◌, refl, ◌⊎◌, inl, inr, String, ℕ, ◌+◌, ◌*◌, Bool, true, false, not, Option, none, some, List,
  [], ◌∷◌, ltb, if◌then◌else◌, arith, Bool-cases, Option-cases,
}
use walmart_assignment.Base.Text.{◌&◌, str_eq, is_truthy, includes}
use walmart_assignment.Base.Http.{Reply, respond, Body, failure, value}
use walmart_assignment.Base.Js.{
  Outcome, ok, thrown, Exn, error, Action, pure, throw, ◌>>=◌, ◌>>◌, call, Run-cases,
}

-- A row of `mfa_challenges`; times are milliseconds.
pub record Challenge : Type 0 where
  pub uuid : String
  pub user_id : String
  pub secret : String
  pub expires_at : ℕ
  pub verified_at : Option ℕ

pub record User : Type 0 where
  pub preferred_mfa : Option String
  pub phone : String
  pub email : String

-- `at_least` is `>=` of a risk score, a JavaScript number. `post_email key to code` and `post_sms sid
-- token from to code` are the two requests.
pub record MfaServices (Score W : Type 0) : Type 0 where
  pub at_least : Score → ℕ → Bool
  pub user_devices : String → Action W (List String)
  pub random_uuid : W → String × W
  pub now : W → ℕ × W
  pub iso : ℕ → String
  pub generate_secret : W → String × W
  pub create_challenge : Challenge → Action W (Unit {0})
  pub redis_set_ex : String → String → ℕ → Action W (Unit {0})
  pub find_user : String → Action W (Option User)
  pub totp : String → W → String × W
  pub secret_string : String → Action W (Option String)
  pub post_email : String → String → String → Action W (Unit {0})
  pub post_sms : String → String → String → String → String → Action W (Unit {0})
  pub redis_get : String → Action W (Option String)
  pub find_challenge : String → Action W (Option Challenge)
  pub verify_totp : String → String → W → Bool × W
  pub mark_verified : String → ℕ → Action W (Unit {0})
  pub redis_del : String → Action W (Unit {0})
  pub role_names : String → Action W (List String)
  pub sign_token : String → List String → String → Action W String

-- The labels of the two counters.
pub data Channel : Type 0 where
  sms email : Channel

pub data Reason : Type 0 where
  expired wrong_code : Reason

-- The increments of the counters, and the world.
pub record Mfa (W : Type 0) : Type 0 where
  pub challenges : List Channel
  pub failures : List Reason
  pub world : W

-- The bodies of the requests; a field of another type than the handler asks for is `none`.
pub record EvaluateBody (Score : Type 0) : Type 0 where
  pub jti : Option String
  pub user_id : Option String
  pub risk_score : Option Score
  pub device_id : Option String

pub record VerifyBody : Type 0 where
  pub challenge_uuid : Option String
  pub code : Option String

pub data View : Type 0 where
  not_required : View
  challenged : String → String → View
  token : String → View

abbrev pub Answer : Type 0
Answer = Reply (Body View)

abbrev invalid_request : Answer
invalid_request = respond 400 (failure "Invalid request")

abbrev pub invalid_code : Answer
invalid_code = respond 403 (failure "Invalid code")

-- A text that is missing or empty.
abbrev pub given : Option String → Bool
given none = false
given (some t) = is_truthy t

module _ {Score W : Type 0} (v : MfaServices Score W) where
  abbrev pub on_world : {A : Type 0} → Action W A → Action (Mfa W) A
  on_world m s = let (r, w) = m s.world in (r, record s { world = w })

  pub needs_mfa : Score → String → List String → Bool
  needs_mfa risk_score device_id known_devices =
      if v.at_least risk_score 60 then true else not (includes device_id known_devices)

  get_secret : String → Action W String
  get_secret name = do out ← v.secret_string name; pure (elim out [ none ↦ "" | some t ↦ t ])

  send_email : String → String → Action W (Unit {0})
  unfolding get_secret
  send_email to code = do key ← get_secret "SENDGRID_API_KEY"; v.post_email key to code

  send_sms : String → String → Action W (Unit {0})
  unfolding get_secret
  send_sms to code = do
    sid ← get_secret "TWILIO_ACCOUNT_SID"
    auth_token ← get_secret "TWILIO_AUTH_TOKEN"
    from ← get_secret "TWILIO_FROM"
    v.post_sms sid auth_token from to code

  count_challenge : Channel → Action (Mfa W) (Unit {0})
  count_challenge c s = (ok tt, record s { challenges = c ∷ s.challenges })

  -- `user?.preferred_mfa === 'sms'`.
  abbrev prefers_sms : User → Bool
  prefers_sms u = elim u.preferred_mfa [ none ↦ false | some p ↦ str_eq p "sms" ]

  -- The code goes out on the user's channel; without a user, reading `user.email` throws.
  pub send_code : Option User → String → Action (Mfa W) (Unit {0})
  unfolding send_email send_sms count_challenge
  send_code none code = throw (error "Cannot read properties of null (reading 'email')")
  send_code (some u) code =
      if prefers_sms u
      then (do on_world (send_sms u.phone code); count_challenge sms)
      else (do on_world (send_email u.email code); count_challenge email)

  pub challenge : String → Action (Mfa W) Answer
  challenge user_id = do
    uuid ← on_world (call v.random_uuid)
    now ← on_world (call v.now)
    let expires_at = now + 5 * 60 * 1000
    secret ← on_world (call v.generate_secret)
    on_world (
        v.create_challenge (record {
          uuid = uuid;
          user_id = user_id;
          secret = secret;
          expires_at = expires_at;
          verified_at = none;
        }))
    on_world (v.redis_set_ex ("mfa:" & uuid) "pending" 300)
    user ← on_world (v.find_user user_id)
    code ← on_world (call (v.totp secret))
    send_code user code
    pure (respond 200 (value (challenged uuid (v.iso expires_at))))

  pub evaluate_known : String → Score → String → List String → Action (Mfa W) Answer
  evaluate_known user_id risk_score device_id known =
      if not (needs_mfa risk_score device_id known)
      then pure (respond 200 (value not_required))
      else challenge user_id

  pub evaluate_fields :
      Option String → Option String → Option Score → Option String → Action (Mfa W) Answer
  evaluate_fields (some jti) (some user_id) (some risk_score) (some device_id) = do
    known ← on_world (v.user_devices user_id)
    evaluate_known user_id risk_score device_id known
  evaluate_fields _ _ _ _ = pure invalid_request

  pub evaluate : EvaluateBody Score → Action (Mfa W) Answer
  evaluate body = evaluate_fields body.jti body.user_id body.risk_score body.device_id

  pub refuse : Reason → Action (Mfa W) Answer
  refuse r s = (ok invalid_code, record s { failures = r ∷ s.failures })

  -- What follows a code that is right.
  pub issue : String → Challenge → Action (Mfa W) Answer
  issue challenge_uuid c = do
    at ← on_world (call v.now)
    on_world (v.mark_verified challenge_uuid at)
    on_world (v.redis_del ("mfa:" & challenge_uuid))
    roles ← on_world (v.role_names c.user_id)
    jti ← on_world (call v.random_uuid)
    t ← on_world (v.sign_token c.user_id roles jti)
    pure (respond 200 (value (token t)))

  pub check_code : String → String → Challenge → Action (Mfa W) Answer
  check_code challenge_uuid code c = do
    valid ← on_world (call (v.verify_totp c.secret code))
    (if valid then issue challenge_uuid c else refuse wrong_code)

  -- `challenge.expires_at < new Date() || challenge.verified_at`.
  pub check_open : String → String → Challenge → Action (Mfa W) Answer
  check_open challenge_uuid code c = do
    now ← on_world (call v.now)
    (if ltb c.expires_at now then refuse expired else elim c.verified_at [
      | some _ ↦ refuse expired
      | none ↦ check_code challenge_uuid code c
    ])

  pub check_found : String → String → Option String → Option Challenge → Action (Mfa W) Answer
  check_found challenge_uuid code cached none = refuse expired
  check_found challenge_uuid code cached (some c) =
      if given cached then check_open challenge_uuid code c else refuse expired

  pub verify_given : String → String → Action (Mfa W) Answer
  verify_given challenge_uuid code = do
    cached ← on_world (v.redis_get ("mfa:" & challenge_uuid))
    found ← on_world (v.find_challenge challenge_uuid)
    check_found challenge_uuid code cached found

  pub verify_fields : Option String → Option String → Action (Mfa W) Answer
  verify_fields (some challenge_uuid) (some code) = verify_given challenge_uuid code
  verify_fields _ _ = pure invalid_request

  pub verify : VerifyBody → Action (Mfa W) Answer
  verify body = verify_fields body.challenge_uuid body.code
