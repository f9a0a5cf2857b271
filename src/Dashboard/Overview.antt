-- ===== src/Dashboard/Overview.antt =====
-- ui-dashboard/pages/Dashboard.tsx: the incident cards, the data of the heatmap, and the live updates.
-- React Query, date-fns, `Array.prototype.sort` and the rendering are parameters or left out.
pub mod Counts
pub mod Render
use walmart_assignment.Base.{
  String, ℕ, ◌+◌, Bool, true, false, Option, none, some, List, [], ◌∷◌, map, take, if◌then◌else◌,
}
use walmart_assignment.Base.Text.{str_eq}
use walmart_assignment.Base.Int.{ℤ, sub_ℕ}
use walmart_assignment.Base.Json.{Json, str, get}
use walmart_assignment.Dashboard.Heatmap.{DayData}

pub data Severity : Type 0 where
  low medium high : Severity

abbrev pub is_high : Severity → Bool
is_high high = true
is_high _ = false

pub record Alert : Type 0 where
  pub id : String
  pub title : String
  pub severity : Severity
  pub timestamp : String

unfoldable pub severity_variant : Severity → String
severity_variant low = "bg-green-100 text-green-800 dark:bg-green-900 dark:text-green-300"
severity_variant medium = "bg-yellow-100 text-yellow-800 dark:bg-yellow-900 dark:text-yellow-300"
severity_variant high = "bg-red-100 text-red-800 dark:bg-red-900 dark:text-red-300"

-- What `IncidentCardsGrid` shows.
pub data Grid : Type 0 where
  spinner failure : Grid
  cards : List Alert → Grid

-- `time` is `+new Date(timestamp)`, `day_key` is `format(new Date(timestamp), 'yyyy-MM-dd')`, `sort`
-- is `slice().sort(compare)`, and `last_days` are the keys of the days from six days ago to today.
pub record Dates : Type 0 where
  pub time : String → ℕ
  pub day_key : String → String
  pub sort : (Alert → Alert → ℤ) → List Alert → List Alert
  pub last_days : List String

-- `counts[key]`, and `counts[key] = n`.
abbrev pub count_at : String → List (String × ℕ) → Option ℕ
count_at key [] = none
count_at key ((k, n) ∷ rest) = if str_eq k key then some n else count_at key rest

abbrev pub or_zero : Option ℕ → ℕ
or_zero none = 0
or_zero (some n) = n

-- What the page asks of React Query while it handles a message.
pub record Page : Type 0 where
  pub invalidated : ℕ
  pub refetched : ℕ

-- `data.severity === 'high'`.
abbrev pub is_high_text : Option Json → Bool
is_high_text (some (str s)) = str_eq s "high"
is_high_text _ = false

-- The callback that the page passes to the hook: it takes one argument, the data.
unfoldable pub on_data : Json → Page → Page
on_data alert p =
    let q : Page = record p { invalidated = p.invalidated + 1 } in
    if is_high_text (get "severity" alert) then record q { refetched = q.refetched + 1 } else q

-- The hook calls it as `onMessage(event, payload)`.
unfoldable pub on_message : String → Json → Page → Page
on_message event payload = on_data (str event)

unfoldable pub on_messages : List (String × Json) → Page → Page
on_messages [] p = p
on_messages ((event, payload) ∷ rest) p = on_messages rest (on_message event payload p)

module _ (d : Dates) where
  -- The comparison `+new Date(b.timestamp) - +new Date(a.timestamp)`.
  abbrev pub newest_first : Alert → Alert → ℤ
  newest_first a b = sub_ℕ (d.time b.timestamp) (d.time a.timestamp)

  unfoldable pub incident_cards : List Alert → Bool → Bool → Grid
  incident_cards alerts loading error =
      if loading
      then spinner
      else if error
      then failure
      else cards (take 6 (d.sort newest_first alerts))

  -- The loop of `heatData` over the alerts.
  unfoldable pub count_days : List Alert → List (String × ℕ) → List (String × ℕ)
  count_days [] counts = counts
  count_days (a ∷ rest) counts =
      let key = d.day_key a.timestamp in
      count_days rest
        (if is_high a.severity then (key, or_zero (count_at key counts) + 1) ∷ counts else counts)

  -- `{ date, count }`, which is passed on as the data of the heatmap: it has no `low`, `medium` or
  -- `high`.
  unfoldable pub heat_data : List Alert → List (String × ℕ)
  heat_data alerts = map (λ key. (key, or_zero (count_at key (count_days alerts [])))) d.last_days

  unfoldable pub heatmap_days : List Alert → List DayData
  heatmap_days alerts =
      map (λ x. record { date = x.0; low = none; medium = none; high = none }) (heat_data alerts)
