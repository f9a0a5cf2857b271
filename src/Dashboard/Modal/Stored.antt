-- ===== src/Dashboard/Modal/Stored.antt =====
-- The form against the handler of the ai-service that its request is for.
use walmart_assignment.Base.{◌≡◌, refl, String, ℕ, ◌+◌, ◌==◌, true, false, some, if◌then◌else◌}
use walmart_assignment.Base.Http.{respond, Body, failure, value}
use walmart_assignment.Base.Js.{ok, Returns-value}
use walmart_assignment.Feedback.{
  FeedbackServices, View, Answer, rejected, stored, Ingested, malformed, unknown, unread, unstored,
  accepted, post_feedback, post_feedback-Ingested,
}
use walmart_assignment.Dashboard.Fetch.{success, error, answered, status_of}
use walmart_assignment.Dashboard.Modal.{
  Modal, on_success, on_error, is_valid, handle_submit, settle,
}

module _ {Request Errors Alert W : Type 0} (f : FeedbackServices Request Errors Alert W)
    (encode : String → String → Request) where
  -- The form's state tells what the handler did: closed and empty with a notice of success after a
  -- 201, open with the reason kept and a notice of failure after any other answer.
  abbrev pub Told : String → Modal → W → Modal × W → Type 0
  Told alert_id m w (n, u) =
      (status : ℕ) × (body : Body (View Errors)) × Ingested f (encode alert_id m.reason) w
        (respond status body) u
      × (n ≡ (
          if status == 201
          then record {
            is_open = false;
            reason = "";
            toast = some (record { variant = success; message = "Feedback submitted" });
            invalidated = m.invalidated + 1;
          }
          else record {
            is_open = m.is_open;
            reason = m.reason;
            toast = some (record { variant = error; message = "Failed to submit feedback" });
            invalidated = m.invalidated;
          }))

  told :
      (alert_id : String) (m : Modal) (w t : W) (reply : Answer Errors)
      → Ingested f (encode alert_id m.reason) w reply t
      → Told alert_id m w (settle (ok (status_of reply)) m, t)
  unfolding on_success on_error
  told alert_id m w t reply (malformed p) =
      (400, value (rejected (f.errors (encode alert_id m.reason))), malformed p, refl)
  told alert_id m w t reply (unknown i u p q) =
      (404, failure "Alert not found", unknown i u p q, refl)
  told alert_id m w t reply (unread i e u p q) =
      (500, failure "Internal Server Error", unread i e u p q, refl)
  told alert_id m w t reply (unstored i a e u v p q r) =
      (500, failure "Internal Server Error", unstored i a e u v p q r, refl)
  told alert_id m w t reply (accepted i a row u v p q r) =
      (201, value (stored row), accepted i a row u v p q r, refl)

  -- With a reason of at least one character the handler answers once, and the form tells what came of
  -- it: after a 201, for which the feedback was stored, it is closed and empty, has a notice of success
  -- and has the alerts loaded once more; after any other answer it stays as it was, with the reason
  -- kept, and has a notice of failure.
  pub handle_submit-Told :
      (alert_id : String) (m : Modal) (w : W)
      → is_valid m.reason ≡ true
      → Told alert_id m w
          (handle_submit (λ a r. answered (post_feedback f (encode a r))) alert_id m w)
  unfolding handle_submit
  handle_submit-Told alert_id m w valid =
      let (reply, u, e, i) =
        Returns-value (Ingested f (encode alert_id m.reason) w)
          (post_feedback f (encode alert_id m.reason) w)
          (post_feedback-Ingested f (encode alert_id m.reason) w) in
      rw (valid, e) (told alert_id m w u reply i)
