-- ===== src/Soar/Tests.antt =====
-- The retries and the audit events on a producer whose first transaction fails.
use walmart_assignment.Base.{◌≡◌, refl, ℕ, ◌+◌, ◌*◌, ◌≤◌, none, some, ltb, if◌then◌else◌}
use walmart_assignment.Base.Text.{◌&◌}
use walmart_assignment.Base.Js.{Outcome, ok, thrown, Action, error}
use walmart_assignment.Soar.Playbook.{success}
use walmart_assignment.Soar.Backoff.{
  BackoffOpts, Timers, Tried, calls, delay, exponential_backoff, exponential_backoff-Tried,
}
use walmart_assignment.Soar.Emitter.{
  Kafka, Emitter, SoarActionEvent, ensure_connected, with_audit, emit_action,
}
use walmart_assignment.Soar.Emitter.Audit.{
  Audited, Emission, tries, with_audit-Audited, emit_action-Tried,
}

abbrev timers : Timers ℕ ℕ
timers = record { scaled = λ b f k. b + f * k; sleep = λ d w. (tt, w + d) }

abbrev opts : BackoffOpts ℕ
opts = record { retries = 2; base = 100; factor = 2; max = 150 }

-- It fails until the clock has reached 150.
abbrev flaky : Action ℕ ℕ
flaky w = if ltb w 150 then (thrown (error "not yet"), w + 1) else (ok w, w)

exponential_backoff-Tried_example :
    (tr : Tried timers flaky opts (exponential_backoff timers flaky opts 0) 0 0) × (calls timers
        flaky opts tr
      ≤ opts.retries + 1)
    × ((k : ℕ) → delay timers flaky opts k ≤ opts.max)
exponential_backoff-Tried_example = exponential_backoff-Tried timers flaky opts 0

abbrev kafka : Kafka (Unit {0}) ℕ ℕ ℕ
kafka = record {
  connect = λ w. (ok tt, w + 1);
  disconnect = λ w. (ok tt, w + 1);
  transaction = λ w. (ok w, w + 1);
  send =
      λ txn topic key value w. if ltb w 5 then (thrown (error "broker"), w + 1) else (ok tt, w + 1);
  commit = λ txn w. (ok tt, w + 1);
  abort = λ txn w. (ok tt, w + 1);
  sha256_hex = λ s. s;
  stringify = λ e. e.action;
  topic_date = λ s. ok s;
  now_iso = λ w. ("2024-01-01", w);
  timers = timers;
  factor = 2;
}

abbrev event : SoarActionEvent (Unit {0})
event = record {
  run_id = "r";
  playbook_id = "p";
  step_id = "s";
  action = "notify";
  status = success;
  details = none;
  timestamp = "2024-01-01";
}

abbrev fresh : Emitter ℕ
fresh = record { connected = none; world = 0 }

abbrev act : Action (Emitter ℕ) ℕ
act s = (ok 7, record s { world = s.world + 1 })

opened : ensure_connected kafka fresh ≡ (ok tt, record { connected = some (ok tt); world = 1 })
unfolding ensure_connected
opened = refl

emit_action-Tried_example :
    (out : Outcome (Unit {0}) × ℕ) × (emit_action kafka event fresh
      ≡ (out.0, record { connected = some (ok tt); world = out.1 }))
    × (x : Emission kafka "soar_action_2024-01-01"
        (event.run_id & "|" & event.step_id & "|" & event.timestamp)
        event.action
        out
        0
        1)
    × (tries kafka x ≤ 6)
emit_action-Tried_example =
    emit_action-Tried kafka event fresh (record { connected = some (ok tt); world = 1 })
      "2024-01-01" opened refl

with_audit-Audited_example : Audited kafka event act fresh (with_audit kafka event act fresh)
with_audit-Audited_example = with_audit-Audited kafka event act fresh
