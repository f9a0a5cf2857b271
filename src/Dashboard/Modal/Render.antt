-- ===== src/Dashboard/Modal/Render.antt =====
-- ui-dashboard/src/components/FeedbackModal/FeedbackModal.tsx: what the component renders.
use walmart_assignment.Base.{String, ℕ, Bool, true, false, not, ◌||◌, none, [], ◌∷◌, if◌then◌else◌}
use walmart_assignment.Base.Js.{Action}
use walmart_assignment.Dashboard.View.{
  Nodes, attr, count, flag, on, on_text, on_flag, fragment, tag, say, when_some,
}
use walmart_assignment.Dashboard.Fetch.{Variant, success, error, Toast}
use walmart_assignment.Dashboard.Modal.{Modal, is_valid, handle_submit}

pub data Act : Type 0 where
  submit dismiss : Act
  set_open : Bool → Act
  set_reason : String → Act

-- The handlers; `fetch` is the request of `handleSubmit`.
unfoldable pub act :
    {W : Type 0} → (String → String → Action W ℕ) → String → Act → Modal → W → Modal × W
act fetch alert_id submit m w = handle_submit fetch alert_id m w
act fetch alert_id dismiss m w = (record m { toast = none }, w)
act fetch alert_id (set_open o) m w = (record m { is_open = o }, w)
act fetch alert_id (set_reason t) m w = (record m { reason = t }, w)

abbrev pub variant_text : Variant → String
variant_text success = "success"
variant_text error = "error"

abbrev pub notice : Toast → Nodes Act
notice t =
    tag "Toast"
      (flag "open" true
        ∷ attr "variant" (variant_text t.variant)
        ∷ on_flag "onOpenChange" (λ _. dismiss)
        ∷ [])
      (say t.message ∷ [])

abbrev pub reason_field : String → Nodes Act
reason_field reason = tag "label" (attr "className" "flex flex-col gap-1" ∷ []) (
    tag "span" [] (say "Reason" ∷ [])
    ∷ tag "Textarea"
        (attr "value" reason
          ∷ on_text "onChange" (λ t. set_reason t)
          ∷ count "rows" 4
          ∷ attr "className" "resize-y"
          ∷ [])
        []
    ∷ [])

abbrev pub form_buttons : Bool → Bool → Nodes Act
form_buttons valid is_pending = tag "div" (attr "className" "flex justify-end gap-2" ∷ []) (
    tag "Button"
      (attr "type" "button" ∷ attr "variant" "ghost" ∷ on "onClick" (set_open false) ∷ [])
      (say "Cancel" ∷ [])
    ∷ tag "Button" (attr "type" "submit" ∷ flag "disabled" (not valid || is_pending) ∷ [])
        (say (if is_pending then "Submitting..." else "Submit") ∷ [])
    ∷ [])

-- The component; `is_pending` is `mutation.isPending`.
unfoldable pub modal_view : Modal → Bool → Nodes Act
modal_view m is_pending = fragment (
    tag "Button"
      (attr "size" "sm" ∷ on "onClick" (set_open true) ∷ attr "aria-haspopup" "dialog" ∷ [])
      (say "Mark False" ∷ [])
    ∷ tag "Modal"
        (flag "open" m.is_open
          ∷ on_flag "onOpenChange" (λ o. set_open o)
          ∷ attr "aria-labelledby" "feedback-title"
          ∷ [])
        (tag "Modal.Content" (attr "className" "space-y-4" ∷ []) (
            tag "Modal.Title" (attr "id" "feedback-title" ∷ []) (say "Mark False Positive" ∷ [])
            ∷ tag "form" (on "onSubmit" submit ∷ attr "className" "space-y-2" ∷ [])
                (reason_field m.reason ∷ form_buttons (is_valid m.reason) is_pending ∷ [])
            ∷ [])
          ∷ [])
    ∷ when_some m.toast notice
    ∷ [])
