-- ===== src/Dashboard/Anomalies/Tests.antt =====
-- A page of two rows.
use walmart_assignment.Base.{
  ◌≡◌, refl, ◌↔◌, ℕ, false, Option, none, some, List, [], ◌∷◌, All, map, if◌then◌else◌,
}
use walmart_assignment.Base.Text.{is_truthy}
use walmart_assignment.Dashboard.View.{Nodes, nil}
use walmart_assignment.Dashboard.View.Shown.{in_nodes, event_of}
use walmart_assignment.Dashboard.Anomalies.{Anomaly, Viewer, Event, click, start}
use walmart_assignment.Dashboard.Anomalies.Page.{Formats, row_views, render}
use walmart_assignment.Dashboard.Anomalies.Drawn.{IsDrawable, render-IsDrawable}

abbrev formats : Formats ℕ
formats = record {
  format_date = λ t. if is_truthy t then some t else none;
  to_fixed = λ digits y. "0.90";
  to_text = λ y. "0.9";
}

abbrev first : Anomaly ℕ
first = record {
  id = "a-1";
  timestamp = "May 1";
  score_history = 1 ∷ 9 ∷ [];
  gpt_explanation = "A peak.";
}

abbrev second : Anomaly ℕ
second = record { id = "a-2"; timestamp = "May 2"; score_history = 4 ∷ []; gpt_explanation = "" }

abbrev empty : Anomaly ℕ
empty = record second { score_history = [] }

abbrev shown : Viewer ℕ
shown = record start { selected = some first; rows = some (first ∷ second ∷ []) }

-- A row without scores.
crashes : render formats (record start { rows = some (first ∷ empty ∷ []) }) false false ≡ none
unfolding render row_views
crashes = refl

abbrev given : {A : Type 0} → Option (Nodes A) → Nodes A
given none = nil
given (some ns) = ns

-- The page of the two rows, and the events of its rows.
abbrev shown_page : Nodes (Event ℕ)
shown_page = given (render formats shown false false)

abbrev clicks : Nodes (Event ℕ) → List (Option (Event ℕ))
clicks ns = map (λ x. event_of "onClick" x.0) (in_nodes "tr" ns)

row_events : clicks shown_page ≡ none ∷ some (click 0) ∷ some (click 1) ∷ []
unfolding render row_views in_nodes event_of
row_events = refl

render-IsDrawable_example :
    ((ns : Nodes (Event ℕ)) × (render formats shown false false ≡ some ns))
    ↔ All (IsDrawable formats) (first ∷ second ∷ [])
render-IsDrawable_example = render-IsDrawable formats shown false false
