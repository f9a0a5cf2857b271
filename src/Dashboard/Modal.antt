-- ===== src/Dashboard/Modal.antt =====
-- ui-dashboard/src/components/FeedbackModal/FeedbackModal.tsx: the form that marks an alert as a false
-- positive. The request and the rendering are parameters or left out.
pub mod Stored
pub mod Render
mod Tests
use walmart_assignment.Base.{String, ℕ, ◌+◌, Bool, true, false, Option, none, some, if◌then◌else◌}
use walmart_assignment.Base.Text.{is_truthy}
use walmart_assignment.Base.Js.{Outcome, ok, thrown, Action}
use walmart_assignment.Dashboard.Fetch.{is_ok, success, error, Toast}

-- The state of the component, and how often it asked React Query to load the alerts again.
pub record Modal : Type 0 where
  pub is_open : Bool
  pub reason : String
  pub toast : Option Toast
  pub invalidated : ℕ

-- `onSuccess` and `onError`.
unfoldable pub on_success : Modal → Modal
on_success m = record {
  is_open = false;
  reason = "";
  toast = some (record { variant = success; message = "Feedback submitted" });
  invalidated = m.invalidated + 1;
}

unfoldable pub on_error : Modal → Modal
on_error m = record m {
  toast = some (record { variant = error; message = "Failed to submit feedback" });
}

abbrev pub settle : Outcome ℕ → Modal → Modal
settle (ok status) m = if is_ok status then on_success m else on_error m
settle (thrown e) m = on_error m

-- `feedbackSchema`: a reason of at least one character.
abbrev pub is_valid : String → Bool
is_valid reason = is_truthy reason

-- `fetch` gives the status of the answer to `{ alertId, reason }`.
unfoldable pub handle_submit :
    {W : Type 0} → (String → String → Action W ℕ) → String → Modal → W → Modal × W
handle_submit fetch alert_id m w =
    if is_valid m.reason
    then (let (r, u) = fetch alert_id m.reason w in (settle r m, u))
    else (m, w)
