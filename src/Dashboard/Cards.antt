-- ===== src/Dashboard/Cards.antt =====
-- ui-dashboard/components/IncidentCard.tsx and components/LiveUpdates.tsx. date-fns and lodash's
-- `throttle`, which decides the messages that reach the handler, are left out or parameters.
pub mod Render
use walmart_assignment.Base.{
  ◌≡◌, String, ℕ, ◌+◌, Bool, ◌&&◌, Option, none, some, List, [], ◌∷◌, count_by, if◌then◌else◌,
  Bool-cases, inl, inr, ◌∙◌, arith,
}
use walmart_assignment.Base.Text.{◌&◌, str_eq, is_truthy}
use walmart_assignment.Base.Json.{Json, get}
use walmart_assignment.Dashboard.Overview.{Severity, low, medium, high, is_high_text}

pub record Incident : Type 0 where
  pub id : String
  pub title : String
  pub severity : Severity
  pub timestamp : String

abbrev pub severity_classes : Severity → String
severity_classes low = "bg-green-100 text-green-800 dark:bg-green-900 dark:text-green-200"
severity_classes medium = "bg-yellow-100 text-yellow-800 dark:bg-yellow-900 dark:text-yellow-200"
severity_classes high = "bg-red-100 text-red-800 dark:bg-red-900 dark:text-red-200"

-- What the card shows: the label that is read out, the title, the badge and the time.
pub record Shown : Type 0 where
  pub aria_label : String
  pub title : String
  pub badge : String
  pub time_text : String

-- `distance` is `formatDistanceToNow(new Date(timestamp), { addSuffix: true })`, with `none` for an
-- invalid date.
unfoldable pub incident_card : (String → Option String) → Incident → Shown
incident_card distance i = record {
  aria_label = "View incident " & i.title;
  title = if is_truthy i.title then i.title else "Untitled incident";
  badge = severity_classes i.severity;
  time_text = elim (distance i.timestamp) [ none ↦ "—" | some text ↦ text ];
}

-- How often React Query was asked to load the alerts and the metrics again.
pub record Live : Type 0 where
  pub alerts : ℕ
  pub metrics : ℕ

abbrev pub is_new_high : String × Json → Bool
is_new_high (event, payload) = str_eq event "alertCreated" && is_high_text (get "severity" payload)

-- The function that is throttled.
unfoldable pub on_update : String × Json → Live → Live
on_update m l =
    let q : Live = record l { alerts = l.alerts + 1 } in
    if is_new_high m then record q { metrics = q.metrics + 1 } else q

unfoldable pub on_updates : List (String × Json) → Live → Live
on_updates [] l = l
on_updates (m ∷ ms) l = on_updates ms (on_update m l)

-- Of the messages that reach the handler, those that announce a new high alert make the metrics load
-- again, once each.
pub on_updates-metrics :
    (ms : List (String × Json)) (l : Live)
    → (on_updates ms l).metrics ≡ l.metrics + count_by is_new_high ms
unfolding on_updates on_update
on_updates-metrics [] l = omega arith
on_updates-metrics (m ∷ ms) l = elim (Bool-cases (is_new_high m)) [
  | inl new ↦ on_updates-metrics ms (on_update m l) ∙ rw new (omega arith)
  | inr other ↦ on_updates-metrics ms (on_update m l) ∙ rw other (omega arith)
]
