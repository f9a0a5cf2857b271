-- ===== src/Ledger/Client.antt =====
-- ledger-service/src/fabricClient.ts: the gateway, the retries, and the calls of the contract.
-- Fabric's gateway and contract, zod and the timer are parameters. The signal handlers that
-- disconnect the gateway are left out.
use walmart_assignment.Base.{
  refl, ◌≡◌, ◌≤◌, ◌<◌, ◌+◌, ◌-◌, ◌*◌, ℕ, zero, suc, String, Bool, true, false, ◌&&◌, ◌||◌, Option,
  none, some, if◌then◌else◌, ltb, ltb→lt, ltb_false→le, ◌==◌, arith, Bool-cases, inl, inr,
}
use walmart_assignment.Base.Js.{
  call, Exn, error, Outcome, ok, thrown, Action, pure, ◌>>=◌, ◌>>◌, Run-cases,
}

-- `AlertActionSchema`.
pub record AlertAction : Type 0 where
  pub id : String
  pub run_id : String
  pub playbook_id : String
  pub step_id : String
  pub action : String
  pub status : String
  pub timestamp : String

pub record VerifyResult : Type 0 where
  pub valid : Bool
  pub ledger_hash : String
  pub provided_hash : String

-- `unavailable` is the test `/unavailable/i` on a message; `read_config` reads the
-- connection profile and the wallet, and `connect` connects a gateway with them.
pub record FabricServices (Gateway Contract Tx W : Type 0) : Type 0 where
  pub unavailable : String → Bool
  pub sleep : ℕ → W → Unit {0} × W
  pub read_config : Action W (Unit {0})
  pub new_gateway : W → Gateway × W
  pub connect : Gateway → Action W (Unit {0})
  pub contract_of : Gateway → Action W Contract
  pub create_transaction : Contract → Action W Tx
  pub transaction_id : Tx → String
  pub submit : Tx → String → Action W (Unit {0})
  pub evaluate_verify : Contract → String → String → Action W String
  pub evaluate_export : Contract → Action W String
  pub parse_event : AlertAction → Outcome AlertAction
  pub stringify : AlertAction → String
  pub parse_result : String → Outcome VerifyResult

-- The module's `gateway`, and the world.
pub record Client (Gateway W : Type 0) : Type 0 where
  pub gateway : Option Gateway
  pub world : W

module _ {Gateway Contract Tx W : Type 0} (f : FabricServices Gateway Contract Tx W) where
  -- `err?.code === 14 || /unavailable/i.test(err?.message || '')`.
  pub is_transient : Exn → Bool
  is_transient e = (elim e.code [ none ↦ false | some n ↦ n == 14 ]) || f.unavailable e.message

  module _ {A : Type 0} (fn : Action W A) (retries : ℕ) where
    -- The body of `while (true)` after `attempt` retries; `retry` runs the loop on.
    settle : ℕ → (W → Outcome A × W) → Outcome A × W → Outcome A × W
    settle attempt again (ok a, s) = (ok a, s)
    settle attempt again (thrown e, s) =
        let more = again (f.sleep (50 * suc attempt) s).1 in
        if is_transient e && ltb attempt (retries - 1) then more else (thrown e, s)

    -- `while (true)`, on fuel: `retry` never reaches the first clause.
    loop : ℕ → ℕ → Action W A
    unfolding settle
    loop zero attempt s = (thrown (error "out of fuel"), s)
    loop (suc fuel) attempt s = settle attempt (λ u. loop fuel (suc attempt) u) (fn s)

    unfoldable pub retry : Action W A
    unfolding loop
    retry = loop (suc retries) 0

    -- What the loop may do after `k` retries.
    pub data Retried (out : Outcome A × W) : ℕ → W → Type 0 where
      done :
          {k : ℕ} {s : W} (a : A) (s' : W) → fn s ≡ (ok a, s') → out ≡ (ok a, s') → Retried out k s
      permanent :
          {k : ℕ} {s : W} (e : Exn) (s' : W)
          → fn s ≡ (thrown e, s')
          → is_transient e ≡ false
          → out ≡ (thrown e, s')
          → Retried out k s
      exhausted :
          {k : ℕ} {s : W} (e : Exn) (s' : W)
          → fn s ≡ (thrown e, s')
          → retries ≤ suc k
          → out ≡ (thrown e, s')
          → Retried out k s
      again :
          {k : ℕ} {s : W} (e : Exn) (s' : W)
          → fn s ≡ (thrown e, s')
          → is_transient e ≡ true
          → suc k < retries
          → Retried out (suc k) (f.sleep (50 * suc k) s').1
          → Retried out k s

    -- The calls of `fn` on the way.
    abbrev pub tries : {out : Outcome A × W} {k : ℕ} {s : W} → Retried out k s → ℕ
    tries (done a s' e o) = 1
    tries (permanent x s' e p o) = 1
    tries (exhausted x s' e p o) = 1
    tries (again x s' e p q rest) = suc (tries rest)

    loop_again :
        (fuel k : ℕ) (s s' : W) (x : Exn)
        → fn s ≡ (thrown x, s')
        → (is_transient x && ltb k (retries - 1)) ≡ true
        → loop (suc fuel) k s ≡ loop fuel (suc k) (f.sleep (50 * suc k) s').1
    unfolding loop
    loop_again fuel k s s' x e more = rw (e, more)

    loop_stops :
        (fuel k : ℕ) (s s' : W) (x : Exn)
        → fn s ≡ (thrown x, s')
        → (is_transient x && ltb k (retries - 1)) ≡ false
        → loop (suc fuel) k s ≡ (thrown x, s')
    unfolding loop
    loop_stops fuel k s s' x e stop = rw (e, stop)

    loop-Retried :
        (fuel k : ℕ) (s : W) → retries < fuel + k → k ≤ retries → Retried (loop fuel k s) k s
    loop-Retried zero k s h below = absurd (omega arith)
    loop-Retried (suc fuel) k s h below = elim (Run-cases (fn s)) [
      | inl (a, s', e) ↦ done a s' e (unfold loop in rw e)
      | inr (x, s', e) ↦ elim (Bool-cases (is_transient x)) [
        | inr no_use ↦ permanent x s' e no_use (loop_stops fuel k s s' x e (rw no_use))
        | inl transient ↦ elim (Bool-cases (ltb k (retries - 1))) [
          | inr last ↦
              exhausted x s' e (omega (arith, ltb_false→le _ _ last))
                (loop_stops fuel k s s' x e (rw (transient, last)))
          | inl left ↦
              let in_range : suc k < retries = omega (arith, ltb→lt _ _ left) in
              again x s' e transient in_range (
                rw (loop_again fuel k s s' x e (rw (transient, left))) (
                  loop-Retried fuel (suc k) (f.sleep (50 * suc k) s').1 (omega arith)
                    (omega arith)))
        ]
      ]
    ]

    tries-le :
        {out : Outcome A × W} {k : ℕ} {s : W} (tr : Retried out k s)
        → k < retries
        → k + tries tr ≤ retries
    tries-le (done a s' e o) h = omega arith
    tries-le (permanent x s' e p o) h = omega arith
    tries-le (exhausted x s' e p o) h = omega arith
    tries-le (again x s' e p q rest) h = omega (arith, tries-le rest q)

  abbrev pub on_world : {A : Type 0} → Action W A → Action (Client Gateway W) A
  on_world m s = let (r, w) = m s.world in (r, record s { world = w })

  set_gateway : Gateway → Action (Client Gateway W) (Unit {0})
  set_gateway g s = (ok tt, record s { gateway = some g })

  -- The module's `gateway` is set before it is connected.
  open_gateway : Action (Client Gateway W) Gateway
  unfolding set_gateway
  open_gateway = do
    on_world f.read_config
    g ← on_world (call f.new_gateway)
    set_gateway g
    on_world (f.connect g)
    pure g

  pub init_gateway : Action (Client Gateway W) Gateway
  unfolding open_gateway
  init_gateway s = elim s.gateway [ some g ↦ (ok g, s) | none ↦ open_gateway s ]

  pub get_contract : Action (Client Gateway W) Contract
  unfolding init_gateway
  get_contract = do g ← init_gateway; on_world (f.contract_of g)

  pub log_event : AlertAction → Action (Client Gateway W) String
  unfolding get_contract
  log_event event = do
    valid ← (λ s. (f.parse_event event, s))
    contract ← get_contract
    tx ← on_world (f.create_transaction contract)
    on_world (retry (f.submit tx (f.stringify valid)) 3)
    pure (f.transaction_id tx)

  pub verify_integrity : String → String → Action (Client Gateway W) VerifyResult
  unfolding get_contract
  verify_integrity key expected = do
    contract ← get_contract
    buf ← on_world (retry (f.evaluate_verify contract key expected) 3)
    (λ s. (f.parse_result buf, s))

  pub export_csv : Action (Client Gateway W) String
  unfolding get_contract
  export_csv = do contract ← get_contract; on_world (retry (f.evaluate_export contract) 3)

-- However `fn` behaves, the retry loop ends: it returns the value of the first call that succeeds,
-- throws the error of the first call that fails permanently, or of the last try; only transient
-- errors are tried again, each after its wait. With a positive limit there are at most `retries` calls.
pub retry-Retried :
    {Gateway Contract Tx W A : Type 0} (f : FabricServices Gateway Contract Tx W) (fn : Action W A)
    (retries : ℕ) (s : W)
    → 0 < retries
    → (tr : Retried f fn retries (retry f fn retries s) 0 s) × (tries f fn retries tr ≤ retries)
unfolding retry
retry-Retried f fn retries s positive =
    let tr = loop-Retried f fn retries (suc retries) 0 s (omega arith) (omega arith) in
    (tr, omega (arith, tries-le f fn retries tr positive))

module _ {Gateway Contract Tx W : Type 0} (f : FabricServices Gateway Contract Tx W) where
  -- A gateway whose connection failed is kept: the call that made it throws, and every later call
  -- returns that gateway, unconnected, with no further effect.
  pub init_gateway_failed :
      (s : Client Gateway W) (w₁ w₂ w₃ : W) (g : Gateway) (e : Exn)
      → s.gateway ≡ none
      → f.read_config s.world ≡ (ok tt, w₁)
      → f.new_gateway w₁ ≡ (g, w₂)
      → f.connect g w₂ ≡ (thrown e, w₃)
      → (t : Client Gateway W) × (init_gateway f s ≡ (thrown e, t)) × (init_gateway f t ≡ (ok g, t))
  unfolding init_gateway open_gateway set_gateway
  init_gateway_failed s w₁ w₂ w₃ g e fresh read made failed =
      (record { gateway = some g; world = w₃ }, rw (fresh, read, made, failed), refl)
