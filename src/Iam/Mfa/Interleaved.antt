-- ===== src/Iam/Mfa/Interleaved.antt =====
-- iam-service/src/routes/mfa.ts: verifications of one challenge that run at the same time. Node changes
-- between requests where the handler awaits, so a request moves from one `await` to the next at once.
pub mod Alone
pub mod Used
pub mod Late
mod Tests
use walmart_assignment.Base.{
  String, ℕ, zero, suc, ◌==◌, ltb, Option, none, some, List, [], ◌∷◌, if◌then◌else◌,
}
use walmart_assignment.Base.Text.{◌&◌}
use walmart_assignment.Base.Http.{respond, value}
use walmart_assignment.Base.Js.{Outcome, ok, thrown, Action, pure, ◌>>=◌, ◌>>◌, call}
use walmart_assignment.Iam.Mfa.{
  Challenge, MfaServices, Mfa, Answer, Reason, expired, wrong_code, token, given, on_world, refuse,
}

-- Where a request stands, with what it has read so far: the code it came with, what Redis held, and
-- the row of its challenge. `accepted` is past all tests, and `replied` holds the answer.
pub data Pc : Type 0 where
  arrived : String → Pc
  marked : String → Option String → Pc
  accepted updated deleted : Challenge → Pc
  with_roles : Challenge → List String → Pc
  replied : Outcome Answer → Pc

-- The end of an `await` or of the handler, by how it ended.
abbrev pub settle : Outcome Pc → Pc
settle (ok p) = p
settle (thrown e) = replied (thrown e)

-- The requests by their number, over the shared tables, Redis and clock.
pub record System (W : Type 0) : Type 0 where
  pub shared : Mfa W
  pub pc : ℕ → Pc

abbrev pub set_pc : ℕ → Pc → (ℕ → Pc) → ℕ → Pc
set_pc i p f j = if j == i then p else f j

module _ {Score W : Type 0} (v : MfaServices Score W) where
  abbrev pub reject : Reason → Action (Mfa W) Pc
  reject r = do a ← refuse v r; pure (replied (ok a))

  abbrev pub test_code : String → Challenge → Action (Mfa W) Pc
  test_code code c = do
    valid ← on_world v (call (v.verify_totp c.secret code))
    (if valid then pure (accepted c) else reject wrong_code)

  abbrev pub test_open : String → Challenge → Action (Mfa W) Pc
  test_open code c = do
    now ← on_world v (call v.now)
    (if ltb c.expires_at now
        then reject expired
        else elim c.verified_at [ some _ ↦ reject expired | none ↦ test_code code c ])

  -- The tests on what was read, which no other request interrupts.
  abbrev pub test_found : String → Option String → Option Challenge → Action (Mfa W) Pc
  test_found code mark none = reject expired
  test_found code mark (some c) = if given mark then test_open code c else reject expired

  -- To the next `await`.
  unfoldable pub resume : String → Pc → Action (Mfa W) Pc
  resume id (arrived code) = do
    mark ← on_world v (v.redis_get ("mfa:" & id))
    pure (marked code mark)
  resume id (marked code mark) = do
    found ← on_world v (v.find_challenge id)
    test_found code mark found
  resume id (accepted c) = do
    at ← on_world v (call v.now)
    on_world v (v.mark_verified id at)
    pure (updated c)
  resume id (updated c) = do on_world v (v.redis_del ("mfa:" & id)); pure (deleted c)
  resume id (deleted c) = do roles ← on_world v (v.role_names c.user_id); pure (with_roles c roles)
  resume id (with_roles c roles) = do
    jti ← on_world v (call v.random_uuid)
    t ← on_world v (v.sign_token c.user_id roles jti)
    pure (replied (ok (respond 200 (value (token t)))))
  resume id (replied r) = pure (replied r)

  abbrev pub advance : String → Pc → Mfa W → Pc × Mfa W
  advance id p m = let (r, m') = resume id p m in (settle r, m')

  -- Request `i` goes on.
  unfoldable pub turn : String → ℕ → System W → System W
  turn id i s =
      let (p, m) = advance id (s.pc i) s.shared in record { shared = m; pc = set_pc i p s.pc }

  -- One more step in any order, and the states that are reached that way.
  pub data Step (id : String) (s : System W) : System W → Type 0 where
    pick : (i : ℕ) → Step id s (turn id i s)

  pub data Run (id : String) (s : System W) : System W → Type 0 where
    here : Run id s s
    later : {t u : System W} → Run id s t → Step id t u → Run id s u

  -- A given order.
  unfoldable pub schedule : String → List ℕ → System W → System W
  schedule id [] s = s
  schedule id (i ∷ is) s = schedule id is (turn id i s)

  -- One request that nothing interrupts.
  unfoldable pub finish : String → ℕ → Pc → Mfa W → Pc × Mfa W
  finish id zero p m = (p, m)
  finish id (suc n) p m = let (q, m') = advance id p m in finish id n q m'
