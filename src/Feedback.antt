-- ===== src/Feedback.antt =====
-- ai-service/src/routes/feedback.ts: ingesting feedback on an alert.
-- Prisma, zod and the Kafka producer are parameters; the log lines are left out.
use walmart_assignment.Base.{◌≡◌, refl, inl, inr, String, Option, none, some}
use walmart_assignment.Base.Http.{Reply, respond, Body, failure, value}
use walmart_assignment.Base.Js.{
  Exn, ok, thrown, Action, pure, ◌>>=◌, ◌>>◌, try_catch, swallow, Returns, Run-cases,
}

-- `feedbackSchema`.
pub record FeedbackInput : Type 0 where
  pub alert_id : String
  pub reason : String

-- A stored row.
pub record Feedback : Type 0 where
  pub id : String
  pub alert_id : String
  pub reason : String

-- `Errors` is the error list of zod, `Alert` a row of the alerts; `send` emits `feedbackReceived`.
pub record FeedbackServices (Request Errors Alert W : Type 0) : Type 0 where
  pub parse : Request → Option FeedbackInput
  pub errors : Request → Errors
  pub find_alert : String → Action W (Option Alert)
  pub create : FeedbackInput → Action W Feedback
  pub send : String → FeedbackInput → Action W (Unit {0})

-- The bodies: the errors of the request, or the stored row.
pub data View (Errors : Type 0) : Type 0 where
  rejected : Errors → View Errors
  stored : Feedback → View Errors

abbrev pub Answer : Type 0 → Type 0
Answer E = Reply (Body (View E))

module _ {Request Errors Alert W : Type 0} (f : FeedbackServices Request Errors Alert W) where
  -- The row is created, and the event emitted; a failure to emit is only logged.
  store : FeedbackInput → Action W (Answer Errors)
  store input = do
    row ← f.create input
    swallow (f.send row.id input)
    pure (respond 201 (value (stored row)))

  ingest_found : FeedbackInput → Option Alert → Action W (Answer Errors)
  unfolding store
  ingest_found input none = pure (respond 404 (failure "Alert not found"))
  ingest_found input (some alert) = store input

  ingest : Request → Option FeedbackInput → Action W (Answer Errors)
  unfolding ingest_found
  ingest req none = pure (respond 400 (value (rejected (f.errors req))))
  ingest req (some input) =
      try_catch (do alert ← f.find_alert input.alert_id; ingest_found input alert)
        (λ e. pure (respond 500 (failure "Internal Server Error")))

  pub post_feedback : Request → Action W (Answer Errors)
  unfolding ingest
  post_feedback req = ingest req (f.parse req)

  -- What a request may come to, with the calls that were made.
  pub data Ingested (req : Request) (w : W) : Answer Errors → W → Type 0 where
    malformed :
        f.parse req ≡ none → Ingested req w (respond 400 (value (rejected (f.errors req)))) w
    unknown :
        (input : FeedbackInput) (u : W)
        → f.parse req ≡ some input
        → f.find_alert input.alert_id w ≡ (ok none, u)
        → Ingested req w (respond 404 (failure "Alert not found")) u
    unread :
        (input : FeedbackInput) (e : Exn) (u : W)
        → f.parse req ≡ some input
        → f.find_alert input.alert_id w ≡ (thrown e, u)
        → Ingested req w (respond 500 (failure "Internal Server Error")) u
    unstored :
        (input : FeedbackInput) (alert : Alert) (e : Exn) (u v : W)
        → f.parse req ≡ some input
        → f.find_alert input.alert_id w ≡ (ok (some alert), u)
        → f.create input u ≡ (thrown e, v)
        → Ingested req w (respond 500 (failure "Internal Server Error")) v
    accepted :
        (input : FeedbackInput) (alert : Alert) (row : Feedback) (u v : W)
        → f.parse req ≡ some input
        → f.find_alert input.alert_id w ≡ (ok (some alert), u)
        → f.create input u ≡ (ok row, v)
        → Ingested req w (respond 201 (value (stored row))) (f.send row.id input v).1

  ingest-Ingested :
      (req : Request) (o : Option FeedbackInput) (w : W)
      → f.parse req ≡ o
      → Returns (Ingested req w) (ingest req o w)
  unfolding ingest
  ingest-Ingested req none w p = malformed p
  ingest-Ingested req (some input) w p = elim (Run-cases (f.find_alert input.alert_id w)) [
    | inr (e, u, b) ↦ rw b (unread input e u p b)
    | inl (none, u, b) ↦ rw b (unknown input u p b)
    | inl (some alert, u, b) ↦ elim (Run-cases (f.create input u)) [
      | inr (e, v, d) ↦ rw (b, d) (unstored input alert e u v p b d)
      | inl (row, v, d) ↦ rw (b, d) (accepted input alert row u v p b d)
    ]
  ]

  -- The handler never throws. It answers 201 with the stored row exactly if the request parses, its
  -- alert exists and the row is created, whether or not the event could be emitted; otherwise 400,
  -- 404 or 500, and then nothing is stored and no event is emitted.
  pub post_feedback-Ingested :
      (req : Request) (w : W) → Returns (Ingested req w) (post_feedback req w)
  unfolding post_feedback
  post_feedback-Ingested req w = ingest-Ingested req (f.parse req) w refl
