-- ===== src/Soar/Backoff.antt =====
-- soar-service/src/utils/backoff.ts: retries with exponential backoff.
-- `scaled base factor k` stands for `Math.round(base * Math.pow(factor, k))` on floats, and `sleep d`
-- for awaiting a timer of `d` milliseconds.
use walmart_assignment.Base.{
  ℕ, zero, suc, ◌+◌, ◌-◌, ◌≤◌, ◌<◌, min, ◌≡◌, arith, Bool-cases, ltb, ltb→lt, ltb_false→le,
  if◌then◌else◌, false, inl, inr,
}
use walmart_assignment.Base.Js.{Exn, error, Outcome, ok, thrown, Action, Run-cases}

pub record BackoffOpts (F : Type 0) : Type 0 where
  pub retries : ℕ
  pub base : ℕ
  pub factor : F
  pub max : ℕ

-- What the loop takes from its runtime.
pub record Timers (F W : Type 0) : Type 0 where
  pub scaled : ℕ → F → ℕ → ℕ
  pub sleep : ℕ → W → Unit {0} × W

module _ {F W A : Type 0} (t : Timers F W) (fn : Action W A) (opts : BackoffOpts F) where
  -- The wait before the attempt that follows `attempt` failures.
  abbrev pub delay : ℕ → ℕ
  delay attempt = min opts.max (t.scaled opts.base opts.factor (attempt - 1))

  -- The body of `while (true)` after `attempt` failures, from what `fn` did; `retry` runs the loop on.
  settle : ℕ → (W → Outcome A × W) → Outcome A × W → Outcome A × W
  settle attempt retry (ok a, s) = (ok a, s)
  settle attempt retry (thrown e, s) =
      let again = retry (t.sleep (delay (suc attempt)) s).1 in
      if ltb opts.retries (suc attempt) then (thrown e, s) else again

  -- `while (true)`, on fuel: `exponential_backoff` never reaches the first clause.
  loop : ℕ → ℕ → Action W A
  unfolding settle
  loop zero attempt s = (thrown (error "out of fuel"), s)
  loop (suc fuel) attempt s = settle attempt (λ u. loop fuel (suc attempt) u) (fn s)

  unfoldable pub exponential_backoff : Action W A
  unfolding loop
  exponential_backoff = loop (suc opts.retries) 0

  -- What the loop may do from `k` failures on: stop at the first success, stop with the error of
  -- the failure that exceeds the retries, or wait and try again.
  pub data Tried (out : Outcome A × W) : ℕ → W → Type 0 where
    done : {k : ℕ} {s : W} (a : A) (s' : W) → fn s ≡ (ok a, s') → out ≡ (ok a, s') → Tried out k s
    gave_up :
        {k : ℕ} {s : W} (e : Exn) (s' : W)
        → fn s ≡ (thrown e, s')
        → opts.retries ≤ k
        → out ≡ (thrown e, s')
        → Tried out k s
    again :
        {k : ℕ} {s : W} (e : Exn) (s' : W)
        → fn s ≡ (thrown e, s')
        → k < opts.retries
        → Tried out (suc k) (t.sleep (delay (suc k)) s').1
        → Tried out k s

  -- The calls of `fn` on the way.
  abbrev pub calls : {out : Outcome A × W} {k : ℕ} {s : W} → Tried out k s → ℕ
  calls (done a s' e o) = 1
  calls (gave_up x s' e h o) = 1
  calls (again x s' e h rest) = suc (calls rest)

  loop_again :
      (fuel k : ℕ) (s s' : W) (x : Exn)
      → fn s ≡ (thrown x, s')
      → ltb opts.retries (suc k) ≡ false
      → loop (suc fuel) k s ≡ loop fuel (suc k) (t.sleep (delay (suc k)) s').1
  unfolding loop
  loop_again fuel k s s' x e left = rw (e, left)

  loop-Tried :
      (fuel k : ℕ) (s : W) → k ≤ opts.retries → opts.retries < fuel + k → Tried (loop fuel k s) k s
  loop-Tried zero k s below h = absurd (omega arith)
  loop-Tried (suc fuel) k s below h = elim (Run-cases (fn s)) [
    | inl (a, s', e) ↦ done a s' e (unfold loop in rw e)
    | inr (x, s', e) ↦ elim (Bool-cases (ltb opts.retries (suc k))) [
      | inl over ↦ gave_up x s' e (omega (arith, ltb→lt _ _ over)) (unfold loop in rw (e, over))
      | inr left ↦
          let next = (t.sleep (delay (suc k)) s').1 in
          let in_range : suc k ≤ opts.retries = ltb_false→le _ _ left in
          again x s' e in_range (
            rw (loop_again fuel k s s' x e left)
              (loop-Tried fuel (suc k) next in_range (omega arith)))
    ]
  ]

  calls-le :
      {out : Outcome A × W} {k : ℕ} {s : W} (tr : Tried out k s)
      → k ≤ opts.retries
      → k + calls tr ≤ opts.retries + 1
  calls-le (done a s' e o) h = omega arith
  calls-le (gave_up x s' e h' o) h = omega arith
  calls-le (again x s' e h' rest) h = omega (arith, calls-le rest h')

-- However `fn` behaves, the retry loop ends, and its outcome is that of a run of attempts from the
-- first: each failure within the limit is followed by the wait of that attempt, at most `max`
-- milliseconds, and a new attempt; the run stops at the first success, whose value is returned, or
-- at the failure that exceeds `retries`, whose error is thrown. There are at most `retries + 1`
-- calls of `fn`.
pub exponential_backoff-Tried :
    {F W A : Type 0} (t : Timers F W) (fn : Action W A) (opts : BackoffOpts F) (s : W)
    → (tr : Tried t fn opts (exponential_backoff t fn opts s) 0 s) × (calls t fn opts tr
        ≤ opts.retries + 1)
      × ((k : ℕ) → delay t fn opts k ≤ opts.max)
unfolding exponential_backoff
exponential_backoff-Tried t fn opts s =
    let tr = loop-Tried t fn opts (suc opts.retries) 0 s (omega arith) (omega arith) in
    (tr, omega (arith, calls-le t fn opts tr (omega arith)), λ k. omega arith)
