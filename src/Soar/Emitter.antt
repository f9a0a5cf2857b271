-- ===== src/Soar/Emitter.antt =====
-- soar-service/src/emitters/kafkaEmitter.ts: audit events in Kafka transactions.
-- The producer, the clock, the hash and the serialiser are parameters; the log lines are left out.
pub mod Audit
use walmart_assignment.Base.{String, ℕ, Option, none, some, List}
use walmart_assignment.Base.Text.{◌&◌}
use walmart_assignment.Base.Js.{
  Exn, Outcome, ok, thrown, Action, pure, throw, ◌>>=◌, ◌>>◌, call, gets, try_catch, swallow,
}
use walmart_assignment.Soar.Playbook.{Status, success, failed}
use walmart_assignment.Soar.Backoff.{BackoffOpts, Timers, exponential_backoff}

pub record SoarActionEvent (D : Type 0) : Type 0 where
  pub run_id : String
  pub playbook_id : String
  pub step_id : String
  pub action : String
  pub status : Status
  pub details : Option D
  pub timestamp : String

-- kafkajs, node's crypto and the runtime. `factor` is the literal 1.8.
pub record Kafka (D F Txn W : Type 0) : Type 0 where
  pub connect : Action W (Unit {0})
  pub disconnect : Action W (Unit {0})
  pub transaction : Action W Txn
  pub send : Txn → String → String → String → Action W (Unit {0})
  pub commit : Txn → Action W (Unit {0})
  pub abort : Txn → Action W (Unit {0})
  pub sha256_hex : String → String
  pub stringify : SoarActionEvent D → String
  pub topic_date : String → Outcome String
  pub now_iso : W → String × W
  pub timers : Timers F W
  pub factor : F

-- The module's `connected`, which holds the promise of the first `connect`, and the world.
pub record Emitter (W : Type 0) : Type 0 where
  pub connected : Option (Outcome (Unit {0}))
  pub world : W

-- A call on the world alone.
abbrev pub lift : {W A : Type 0} → Action W A → Action (Emitter W) A
lift m s = let (r, w) = m s.world in (r, record s { world = w })

-- The options that `emitAction` passes.
abbrev pub emit_opts : {F : Type 0} → F → BackoffOpts F
emit_opts f = record { retries = 5; base = 200; factor = f; max = 10000 }

module _ {D F Txn W : Type 0} (k : Kafka D F Txn W) where
  unfoldable pub ensure_connected : Action (Emitter W) (Unit {0})
  ensure_connected s = elim s.connected [
    | some r ↦ (r, s)
    | none ↦ let (r, w) = k.connect s.world in (r, record { connected = some r; world = w })
  ]

  unfoldable pub compute_key : SoarActionEvent D → String
  compute_key e = k.sha256_hex (e.run_id & "|" & e.step_id & "|" & e.timestamp)

  -- The callback that is retried: one transaction, aborted if sending or committing fails.
  unfoldable pub send_once : String → String → String → Action W (Unit {0})
  send_once topic key value = do
    txn ← k.transaction
    try_catch (do k.send txn topic key value; k.commit txn)
        (λ err. swallow (k.abort txn) >> throw err)

  unfoldable pub emit_action : SoarActionEvent D → Action (Emitter W) (Unit {0})
  unfolding compute_key
  emit_action e = do
    ensure_connected
    date ← (λ s. (k.topic_date e.timestamp, s))
    lift (
        exponential_backoff k.timers
          (send_once ("soar_action_" & date) (compute_key e) (k.stringify e)) (emit_opts k.factor))

  -- The event that `withAudit` emits: the details are dropped.
  abbrev pub stamped : SoarActionEvent D → Status → String → SoarActionEvent D
  stamped base st at = record base { status = st; details = none; timestamp = at }

  unfoldable pub emit_now : SoarActionEvent D → Status → Action (Emitter W) (Unit {0})
  emit_now base st = do
    at ← (λ s. let (x, w) = k.now_iso s.world in (ok x, record s { world = w }))
    emit_action (stamped base st at)

  -- `withAudit`, for a base event with all its ids.
  unfoldable pub with_audit :
      {A : Type 0} → SoarActionEvent D → Action (Emitter W) A → Action (Emitter W) A
  unfolding emit_now
  with_audit base fn =
      try_catch (do res ← fn; emit_now base success; pure res)
        (λ err. emit_now base failed >> throw err)

  unfoldable pub shutdown : Action (Emitter W) (Unit {0})
  shutdown s = elim s.connected [
    | none ↦ (ok tt, s)
    | some _ ↦ (do lift k.disconnect; (λ t. (ok tt, record t { connected = none }))) s
  ]
