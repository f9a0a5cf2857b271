-- ===== src/Dashboard/Overview/Render.antt =====
-- ui-dashboard/pages/Dashboard.tsx: what the page renders. `formatDistanceToNow` and the numbers of the
-- gauges are parameters; the first throws for a date that is none.
pub mod Titles
use walmart_assignment.Base.{
  String, ℕ, Bool, true, false, not, ◌||◌, all_by, Option, none, some, List, [], ◌∷◌, if◌then◌else◌,
}
use walmart_assignment.Base.Text.{◌&◌}
use walmart_assignment.Dashboard.View.{
  Nodes, nil, ◌>>=◌, attr, count, values, tag, say, join_nodes, when_some,
}
use walmart_assignment.Dashboard.Heatmap.{Calendar}
use walmart_assignment.Dashboard.Heatmap.Render.{Numbers, Event, Tooltip, heatmap_view}
use walmart_assignment.Dashboard.Overview.{
  Severity, low, medium, high, is_high, Alert, severity_variant, Grid, spinner, failure, cards,
  Dates, incident_cards, heatmap_days,
}

abbrev pub severity_text : Severity → String
severity_text low = "low"
severity_text medium = "medium"
severity_text high = "high"

pub record Metrics (N : Type 0) : Type 0 where
  pub cpu_usage : N
  pub mem_usage : N
  pub req_rate : N

abbrev pub alert_card : {E : Type 0} → Alert → String → Nodes E
alert_card a distance = tag "Card" (attr "className" "p-4 space-y-2" ∷ []) (
    tag "div" (attr "className" "flex justify-between items-center" ∷ []) (
      tag "h3" (attr "className" "font-semibold text-sm" ∷ []) (say a.title ∷ [])
      ∷ tag "Badge" (attr "className" (severity_variant a.severity & " text-xs") ∷ [])
          (say (severity_text a.severity) ∷ [])
      ∷ [])
    ∷ tag "p" (attr "className" "text-xs text-gray-500 dark:text-gray-400" ∷ []) (say distance ∷ [])
    ∷ [])

-- The cards of some alerts; `none` is the exception of `formatDistanceToNow`.
unfoldable pub alert_cards : {E : Type 0} → (String → Option String) → List Alert → Option (Nodes E)
alert_cards distance [] = some nil
alert_cards distance (a ∷ rest) = do
  text ← distance a.timestamp
  more ← alert_cards distance rest
  some (join_nodes (alert_card a text) more)

abbrev pub card_grid : {E : Type 0} → Nodes E → Nodes E
card_grid shown =
    tag "Grid" (attr "className" "gap-4 grid-cols-1 sm:grid-cols-2 lg:grid-cols-3" ∷ [])
      (shown ∷ [])

-- What `IncidentCardsGrid` renders.
abbrev pub grid_view : {E : Type 0} → (String → Option String) → Grid → Option (Nodes E)
grid_view distance spinner = some (
    tag "div" (attr "className" "flex justify-center items-center p-6" ∷ []) (
      tag "div"
        (attr "className"
            "h-8 w-8 animate-spin rounded-full border-4 border-blue-500 border-t-transparent"
          ∷ [])
        []
      ∷ []))
grid_view distance failure = some (
    tag "Card"
      (attr "className" "bg-red-50 dark:bg-red-900 text-red-700 dark:text-red-300 p-4" ∷ [])
      (say "Failed to load alerts" ∷ []))
grid_view distance (cards alerts) = do shown ← alert_cards distance alerts; some (card_grid shown)

abbrev pub gauge : {E : Type 0} → String → String → Nodes E
gauge data_key reading = tag "Card" (attr "className" "p-4" ∷ []) (
    tag "ResponsiveContainer" (attr "width" "100%" ∷ count "height" 150 ∷ [])
      (tag "RadialGauge" (attr "dataKey" data_key ∷ values "value" (reading ∷ []) ∷ []) [] ∷ [])
    ∷ [])

-- `heatData` formats the date of each high alert, and `format` throws for just the dates for which
-- `formatDistanceToNow` does.
abbrev pub is_told : Option String → Bool
is_told none = false
is_told (some t) = true

unfoldable pub heat_dates : (String → Option String) → List Alert → Bool
heat_dates distance alerts =
    all_by (λ a. not (is_high a.severity) || is_told (distance a.timestamp)) alerts

module _ {N : Type 0} (n : Numbers N) where
  -- `SystemGauges`.
  abbrev pub system_gauges : {E : Type 0} → Metrics N → Nodes E
  system_gauges m = tag "Grid" (attr "className" "gap-4 grid-cols-1 sm:grid-cols-3" ∷ []) (
      gauge "cpuUsage" (n.to_text m.cpu_usage)
      ∷ gauge "memUsage" (n.to_text m.mem_usage)
      ∷ gauge "reqRate" (n.to_text m.req_rate)
      ∷ [])

  abbrev pub page_view :
      Dates
      → Calendar
      → List Alert
      → Option (Metrics N)
      → N × N
      → Option (Tooltip N)
      → Nodes Event
      → Nodes Event
  page_view d c alerts metrics size tooltip grid =
      tag "div" (attr "className" "space-y-6 p-4" ∷ []) (
        grid
        ∷ when_some metrics system_gauges
        ∷ tag "Card" (attr "className" "p-4" ∷ [])
            (heatmap_view n c size.0 size.1 (heatmap_days d alerts) tooltip ∷ [])
        ∷ [])

  -- The page: the alerts, whether they are loading or failed, the metrics, and the heatmap with its
  -- size and tooltip.
  unfoldable pub dashboard_view :
      Dates
      → Calendar
      → (String → Option String)
      → List Alert
      → Bool
      → Bool
      → Option (Metrics N)
      → N × N
      → Option (Tooltip N)
      → Option (Nodes Event)
  dashboard_view d c distance alerts loading error metrics size tooltip = do
    dates ← if heat_dates distance alerts then some (tt {0}) else none
    grid ← grid_view distance (incident_cards d alerts loading error)
    some (page_view d c alerts metrics size tooltip grid)
