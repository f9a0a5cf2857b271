-- ===== src/Dashboard/Modal/Tests.antt =====
-- A reason for an alert that exists.
use walmart_assignment.Base.{refl, String, ℕ, ◌+◌, true, none, some}
use walmart_assignment.Base.Text.{◌&◌}
use walmart_assignment.Base.Js.{ok, thrown, error}
use walmart_assignment.Feedback.{FeedbackInput, FeedbackServices, post_feedback}
use walmart_assignment.Dashboard.Fetch.{answered}
use walmart_assignment.Dashboard.Modal.{Modal, handle_submit}
use walmart_assignment.Dashboard.Modal.Stored.{Told, handle_submit-Told}

abbrev input : FeedbackInput
input = record { alert_id = "a-1"; reason = "false positive" }

abbrev services : FeedbackServices String String String ℕ
services = record {
  parse = λ req. some input;
  errors = λ req. req;
  find_alert = λ id w. (ok (some id), w);
  create = λ i w. (ok (record { id = "f-1"; alert_id = i.alert_id; reason = i.reason }), w + 1);
  send = λ id i w. (thrown (error "broker"), w);
}

abbrev encode : String → String → String
encode alert_id reason = alert_id & " " & reason

abbrev form : Modal
form = record { is_open = true; reason = "false positive"; toast = none; invalidated = 0 }

handle_submit-Told_example :
    Told services encode "a-1" form 0
      (handle_submit (λ a r. answered (post_feedback services (encode a r))) "a-1" form 0)
handle_submit-Told_example = handle_submit-Told services encode "a-1" form 0 refl
