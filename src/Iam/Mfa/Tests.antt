-- ===== src/Iam/Mfa/Tests.antt =====
-- A pending challenge and the code that answers it.
use walmart_assignment.Base.{◌≡◌, refl, ℕ, ◌+◌, true, none, some, [], ◌∷◌, leb}
use walmart_assignment.Base.Text.{str_eq}
use walmart_assignment.Base.Http.{respond, value}
use walmart_assignment.Base.Js.{ok}
use walmart_assignment.Iam.Mfa.{
  Challenge, User, MfaServices, Mfa, VerifyBody, token, verify, verify_fields, verify_given,
  check_found, check_open, check_code, issue,
}
use walmart_assignment.Iam.Mfa.Verification.{Issued, verify-Issued}

abbrev open_challenge : Challenge
open_challenge = record {
  uuid = "c-1";
  user_id = "ann";
  secret = "base32";
  expires_at = 300;
  verified_at = none;
}

abbrev user : User
user = record { preferred_mfa = none; phone = ""; email = "ann@example.com" }

-- Under the identifier `used` stands a challenge that was verified.
abbrev services : MfaServices ℕ ℕ
services = record {
  at_least = λ a b. leb b a;
  user_devices = λ u w. (ok [], w);
  random_uuid = λ w. ("u", w);
  now = λ w. (w, w + 1);
  iso = λ t. "noon";
  generate_secret = λ w. ("base32", w);
  create_challenge = λ c w. (ok tt, w);
  redis_set_ex = λ k v ttl w. (ok tt, w);
  find_user = λ u w. (ok (some user), w);
  totp = λ secret w. ("123456", w);
  secret_string = λ name w. (ok none, w);
  post_email = λ key to code w. (ok tt, w);
  post_sms = λ sid auth_token from to code w. (ok tt, w);
  redis_get = λ key w. (ok (some "pending"), w);
  find_challenge = λ id w. (
    ok (
        some (record open_challenge {
          verified_at = elim (str_eq id "used") [ true ↦ some 5 | _ ↦ none ];
        })),
    w,
  );
  verify_totp = λ secret code w. (str_eq code "123456", w);
  mark_verified = λ id at w. (ok tt, w);
  redis_del = λ key w. (ok tt, w);
  role_names = λ u w. (ok ("soc" ∷ []), w);
  sign_token = λ sub roles jti w. (ok "token", w);
}

abbrev fresh : Mfa ℕ
fresh = record { challenges = []; failures = []; world = 0 }

abbrev body : VerifyBody
body = record { challenge_uuid = some "c-1"; code = some "123456" }

issues :
    verify services body fresh
    ≡ (ok (respond 200 (value (token "token"))), record fresh { world = 2 })
unfolding verify verify_fields verify_given check_found check_open check_code issue
issues = refl

verify-Issued_example : Issued services body fresh
verify-Issued_example =
    verify-Issued services body "token" fresh (record fresh { world = 2 }) issues
