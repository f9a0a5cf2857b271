-- ===== src/Soar/Emitter/Audit.antt =====
-- What the emitter ensures: one connection, transactions that end, and which audit events go out.
use walmart_assignment.Base.{
  ◌≡◌, refl, ◌⊎◌, inl, inr, ◌≤◌, ◌<◌, ◌+◌, ◌-◌, ℕ, suc, min, none, String, arith,
}
use walmart_assignment.Base.Text.{◌&◌}
use walmart_assignment.Base.Js.{Exn, Outcome, ok, thrown, Action, throw, ◌>>◌, Run-cases, Ends}
use walmart_assignment.Soar.Playbook.{Status, success, failed}
use walmart_assignment.Soar.Backoff.{Tried, exponential_backoff, exponential_backoff-Tried}
use walmart_assignment.Soar.Emitter.{
  Kafka, Emitter, SoarActionEvent, ensure_connected, compute_key, send_once, emit_opts, emit_action,
  emit_now, with_audit,
}

module _ {D F Txn W : Type 0} (k : Kafka D F Txn W) where
  -- The producer is connected once: after a first call, successful or not, another call changes
  -- nothing and has the same outcome. So a connection that failed is not tried again.
  pub ensure_connected_once :
      (s : Emitter W) → ensure_connected k (ensure_connected k s).1 ≡ ensure_connected k s
  unfolding ensure_connected
  ensure_connected_once s = ground arith

  -- A try that succeeds: its transaction is begun, the message is sent in it, and it is committed.
  abbrev pub Committed : String → String → String → W → W → Type 0
  Committed topic key value s v =
      (txn : Txn) × (t : W) × (u : W) × (k.transaction s ≡ (ok txn, t))
      × (k.send txn topic key value t ≡ (ok tt, u))
      × (k.commit txn u ≡ (ok tt, v))

  -- A try that fails: there is no transaction, or sending or committing throws and it is aborted.
  abbrev pub Aborted : String → String → String → W → Exn → W → Type 0
  Aborted topic key value s e v =
      (k.transaction s ≡ (thrown e, v))
      ⊎ ((txn : Txn) × (t : W) × (u : W) × (k.transaction s ≡ (ok txn, t))
          × ((k.send txn topic key value t ≡ (thrown e, u))
              ⊎ ((x : W) × (k.send txn topic key value t ≡ (ok tt, x))
                  × (k.commit txn x ≡ (thrown e, u))))
          × (v ≡ (k.abort txn u).1))

  -- Each try runs one transaction to an end: it is committed exactly if the try succeeds, and a
  -- transaction whose sending or committing failed is aborted before the error is thrown.
  pub send_once-Ends :
      (topic key value : String) (s : W)
      → Ends
          (λ _ v. Committed topic key value s v)
          (λ e v. Aborted topic key value s e v)
          (send_once k topic key value s)
  unfolding send_once
  send_once-Ends topic key value s = elim (Run-cases (k.transaction s)) [
    | inr (e, t, b) ↦ rw b (inl refl)
    | inl (txn, t, b) ↦ elim (Run-cases (k.send txn topic key value t)) [
      | inr (e, u, b₁) ↦ rw (b, b₁) (inr (txn, t, u, refl, inl b₁, refl))
      | inl (_, u, b₁) ↦ elim (Run-cases (k.commit txn u)) [
        | inr (e, v, b₂) ↦ rw (b, b₁, b₂) (inr (txn, t, v, refl, inr (u, b₁, b₂), refl))
        | inl (_, v, b₂) ↦ rw (b, b₁, b₂) (txn, t, u, refl, b₁, b₂)
      ]
    ]
  ]

  -- An emission after `n` failed tries: it ends with a try that is committed, or with the error of a
  -- sixth that is not, and after each failure before that it waits for at most ten seconds.
  pub data Emission (topic key value : String) (out : Outcome (Unit {0}) × W) : ℕ → W → Type 0 where
    sent :
        {n : ℕ} {s : W} (v : W)
        → Committed topic key value s v
        → out ≡ (ok tt, v)
        → Emission topic key value out n s
    gave_up :
        {n : ℕ} {s : W} (e : Exn) (v : W)
        → Aborted topic key value s e v
        → 5 ≤ n
        → out ≡ (thrown e, v)
        → Emission topic key value out n s
    again :
        {n : ℕ} {s : W} (e : Exn) (v : W)
        → Aborted topic key value s e v
        → n < 5
        → Emission topic key value out
            (suc n)
            (k.timers.sleep (min 10000 (k.timers.scaled 200 k.factor n)) v).1
        → Emission topic key value out n s

  -- The tries on the way.
  abbrev pub tries :
      {topic key value : String} {out : Outcome (Unit {0}) × W} {n : ℕ} {s : W}
      → Emission topic key value out n s
      → ℕ
  tries (sent v c o) = 1
  tries (gave_up e v f h o) = 1
  tries (again e v f h rest) = suc (tries rest)

  tries-le :
      {topic key value : String} {out : Outcome (Unit {0}) × W} {n : ℕ} {s : W}
      (x : Emission topic key value out n s)
      → n ≤ 5
      → n + tries x ≤ 6
  tries-le (sent v c o) h = omega arith
  tries-le (gave_up e v f l o) h = omega arith
  tries-le (again e v f l rest) h = omega (arith, tries-le rest l)

  Tried-Emission :
      (topic key value : String) {out : Outcome (Unit {0}) × W} {n : ℕ} {s : W}
      → Tried k.timers (send_once k topic key value) (emit_opts k.factor) out n s
      → Emission topic key value out n s
  Tried-Emission topic key value {s} (Tried.done a v e o) =
      sent v (rw e at (send_once-Ends topic key value s)) o
  Tried-Emission topic key value {s} (Tried.gave_up x v e h o) =
      gave_up x v (rw e at (send_once-Ends topic key value s)) h o
  Tried-Emission topic key value {n} {s} (Tried.again x v e h rest) =
      let one : suc n - 1 ≡ n = omega arith in
      again x v (rw e at (send_once-Ends topic key value s)) h
        (rw one at (Tried-Emission topic key value rest))

  -- With a producer that is connected and a timestamp that is a date, an emission is at most six
  -- transactions, each of which sends the event on the topic of its day, under the hash of its run, its
  -- step and its timestamp: it ends after the first that commits, or throws the error of the sixth. A
  -- transaction in which something failed is aborted.
  pub emit_action-Tried :
      (e : SoarActionEvent D) (s t : Emitter W) (date : String)
      → ensure_connected k s ≡ (ok tt, t)
      → k.topic_date e.timestamp ≡ ok date
      → (out : Outcome (Unit {0}) × W) × (emit_action k e s ≡ (out.0, record t { world = out.1 }))
        × (x : Emission
            ("soar_action_" & date)
            (k.sha256_hex (e.run_id & "|" & e.step_id & "|" & e.timestamp))
            (k.stringify e)
            out
            0
            t.world)
        × (tries x ≤ 6)
  unfolding emit_action compute_key
  emit_action-Tried e s t date opened day =
      let key = compute_key k e in
      let job = send_once k ("soar_action_" & date) key (k.stringify e) in
      let (tr, _, _) = exponential_backoff-Tried k.timers job (emit_opts k.factor) t.world in
      let x = Tried-Emission ("soar_action_" & date) key (k.stringify e) tr in
      (
        exponential_backoff k.timers job (emit_opts k.factor) t.world,
        rw (opened, day),
        x,
        omega (arith, tries-le x (omega arith)),
      )

  -- An audit event with this status, at the time of its emission and without details, goes out to this
  -- end.
  abbrev pub Emitted :
      SoarActionEvent D → Status → Emitter W → Outcome (Unit {0}) → Emitter W → Type 0
  Emitted base status t r u =
      emit_action k
        (record {
          run_id = base.run_id;
          playbook_id = base.playbook_id;
          step_id = base.step_id;
          action = base.action;
          status = status;
          details = none;
          timestamp = (k.now_iso t.world).0;
        })
        (record t { world = (k.now_iso t.world).1 })
      ≡ (r, u)

  -- What is thrown after an error `e`: `e`, once a `failed` event went out, or what its emission throws.
  pub data Rethrown {A : Type 0} (base : SoarActionEvent D) (e : Exn) (t : Emitter W)
      : Outcome A × Emitter W → Type 0 where
    told : (u : Emitter W) → Emitted base failed t (ok tt) u → Rethrown base e t (thrown e, u)
    silent :
        (x : Exn) (u : Emitter W)
        → Emitted base failed t (thrown x) u
        → Rethrown base e t (thrown x, u)

  Rethrown-emit_now :
      {A : Type 0} (base : SoarActionEvent D) (e : Exn) (t : Emitter W)
      → Rethrown {A = A} base e t ((emit_now k base failed >> throw e) t)
  unfolding emit_now
  Rethrown-emit_now base e t = elim (Run-cases (emit_now k base failed t)) [
    | inl (_, u, b) ↦ rw b (told u b)
    | inr (x, u, b) ↦ rw b (silent x u b)
  ]

  -- How `withAudit` may end.
  pub data Audited {A : Type 0} (base : SoarActionEvent D) (fn : Action (Emitter W) A)
      (s : Emitter W) : Outcome A × Emitter W → Type 0 where
    reported :
        (a : A) (t u : Emitter W)
        → fn s ≡ (ok a, t)
        → Emitted base success t (ok tt) u
        → Audited base fn s (ok a, u)
    mislabelled :
        (a : A) (t : Emitter W) (e : Exn) (u : Emitter W) {r : Outcome A × Emitter W}
        → fn s ≡ (ok a, t)
        → Emitted base success t (thrown e) u
        → Rethrown base e u r
        → Audited base fn s r
    failing :
        (e : Exn) (t : Emitter W) {r : Outcome A × Emitter W}
        → fn s ≡ (thrown e, t)
        → Rethrown base e t r
        → Audited base fn s r

  -- An audited action returns its value exactly if it succeeded and its `success` event went out. If it
  -- threw, a `failed` event is emitted and the error thrown again; if it succeeded but emitting
  -- `success` threw, a `failed` event is emitted for it too and the error of that emission thrown. Where
  -- emitting `failed` throws as well, its error is thrown instead. The events have the ids of the base
  -- event and the time of their emission, and no details.
  pub with_audit-Audited :
      {A : Type 0} (base : SoarActionEvent D) (fn : Action (Emitter W) A) (s : Emitter W)
      → Audited base fn s (with_audit k base fn s)
  unfolding with_audit emit_now
  with_audit-Audited base fn s = elim (Run-cases (fn s)) [
    | inr (e, t, b) ↦ rw b (failing e t b (Rethrown-emit_now base e t))
    | inl (a, t, b) ↦ elim (Run-cases (emit_now k base success t)) [
      | inl (_, u, b₁) ↦ rw (b, b₁) (reported a t u b b₁)
      | inr (e, u, b₁) ↦ rw (b, b₁) (mislabelled a t e u b b₁ (Rethrown-emit_now base e u))
    ]
  ]
