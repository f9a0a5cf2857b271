-- ===== src/Iam/Mfa/Interleaved/Tests.antt =====
-- Two requests with the right code for one challenge.
use walmart_assignment.Base.{
  ◌≡◌, refl, sym, ap, ◌∙◌, Option-cases, inl, inr, arith, String, ℕ, ◌+◌, Bool, true, false, Option,
  none, some, List, [], ◌∷◌, leb,
}
use walmart_assignment.Base.Text.{str_eq}
use walmart_assignment.Base.Http.{respond, value}
use walmart_assignment.Base.Js.{Outcome, ok}
use walmart_assignment.Iam.Mfa.{Answer, Challenge, MfaServices, token, invalid_code, refuse}
use walmart_assignment.Iam.Mfa.Interleaved.{
  arrived, replied, System, Run, here, later, pick, resume, turn, schedule,
}
use walmart_assignment.Iam.Mfa.Interleaved.Used.{Row}
use walmart_assignment.Iam.Mfa.Interleaved.Late.{Late, Run-Late}

-- The row's `verified_at`, the mark in Redis, and the clock.
record World : Type 0 where
  verified_at : Option ℕ
  mark : Option String
  clock : ℕ

abbrev services : MfaServices ℕ World
services = record {
  at_least = λ a b. leb b a;
  user_devices = λ u w. (ok [], w);
  random_uuid = λ w. ("u", w);
  now = λ w. (w.clock, record w { clock = w.clock + 1 });
  iso = λ t. "noon";
  generate_secret = λ w. ("base32", w);
  create_challenge = λ c w. (ok tt, w);
  redis_set_ex = λ k v ttl w. (ok tt, w);
  find_user = λ u w. (ok none, w);
  totp = λ secret w. ("123456", w);
  secret_string = λ name w. (ok none, w);
  post_email = λ key to code w. (ok tt, w);
  post_sms = λ sid auth_token from to code w. (ok tt, w);
  redis_get = λ key w. (ok w.mark, w);
  find_challenge = λ id w. (
    ok (
        some (record {
          uuid = id;
          user_id = "ann";
          secret = "base32";
          expires_at = 300;
          verified_at = w.verified_at;
        })),
    w,
  );
  verify_totp = λ secret code w. (str_eq code "123456", w);
  mark_verified = λ id at w. (ok tt, record w { verified_at = some at });
  redis_del = λ key w. (ok tt, record w { mark = none });
  role_names = λ u w. (ok ("soc" ∷ []), w);
  sign_token = λ sub roles jti w. (ok "token", w);
}

abbrev used : World → Bool
used w = elim w.verified_at [ none ↦ false | some _ ↦ true ]

-- `verified_at` of the row that a read found.
abbrev read_at : Outcome (Option Challenge) × World → Option ℕ
read_at (ok (some c), w) = c.verified_at
read_at _ = none

row : Row services "c-1" used
row = record {
  read_used = λ w u c h e. elim (Option-cases w.verified_at) [
    | inl fresh ↦ absurd (ground arith)
    | inr (at, q) ↦ (at, sym (ap read_at e) ∙ q)
  ];
  mark_used = λ at w u e. sym (ap (λ r. used r.1) e);
  mark_keeps = λ at w h. refl;
  get_keeps = λ key w h. h;
  find_keeps = λ w h. h;
  now_keeps = λ w h. h;
  totp_keeps = λ secret code w h. h;
  del_keeps = λ key w h. h;
  roles_keep = λ user w h. h;
  uuid_keeps = λ w h. h;
  sign_keeps = λ sub roles jti w h. h;
}

abbrev begin : System World
begin = record {
  shared = record {
    challenges = [];
    failures = [];
    world = record { verified_at = none; mark = some "pending"; clock = 0 };
  };
  pc = λ i. arrived "123456";
}

abbrev granted : Outcome Answer
granted = ok (respond 200 (value (token "token")))

-- One after the other, the second is refused.
in_turn :
    (schedule services "c-1" (0 ∷ 0 ∷ 0 ∷ 0 ∷ 0 ∷ 0 ∷ 1 ∷ 1 ∷ []) begin).pc 1
    ≡ replied (ok invalid_code)
unfolding schedule turn resume refuse
in_turn = refl

-- Both read the row before either updates it: both get a token for the one challenge.
abbrev race : System World
race = schedule services "c-1" (0 ∷ 0 ∷ 1 ∷ 1 ∷ 0 ∷ 1 ∷ 0 ∷ 1 ∷ 0 ∷ 1 ∷ 0 ∷ 1 ∷ []) begin

both_granted : (race.pc 0 ≡ replied granted) × (race.pc 1 ≡ replied granted)
unfolding schedule turn resume
both_granted = (refl, refl)

abbrev first_turns : System World
first_turns = schedule services "c-1" (0 ∷ 0 ∷ 0 ∷ 1 ∷ []) begin

abbrev both_turns : System World
both_turns = schedule services "c-1" (1 ∷ []) first_turns

taken :
    (is : List ℕ) {s t : System World}
    → Run services "c-1" s t
    → Run services "c-1" s (schedule services "c-1" is t)
unfolding schedule
taken [] r = r
taken (i ∷ is) r = taken is (later r (pick i))

Run-Late_example : Late (both_turns.pc 1)
unfolding schedule turn resume
Run-Late_example =
    Run-Late services "c-1" used row {s = begin} 0 1 (λ k. tt) (taken (0 ∷ 0 ∷ 0 ∷ 1 ∷ []) here) tt
      tt (taken (1 ∷ []) here)
