-- ===== src/Dashboard/Anomalies.antt =====
-- ui-dashboard/pages/AnomalyViewer.tsx: the pages of the table, the search and the selected row.
-- The answers of React Query are events; the view is in Anomalies/Page.
pub mod Valid
pub mod Page
pub mod Click
pub mod Drawn
mod Tests
use walmart_assignment.Base.{
  Bool, false, String, ℕ, zero, suc, ◌+◌, ◌%◌, ◌-◌, ◌≤◌, ◌==◌, ◌&&◌, Option, none, some, List, [],
  ◌∷◌, length, get_elem?, ltb, leb, if◌then◌else◌,
}
use walmart_assignment.Base.Text.{str_eq}

-- `N` is the type of a score, a JavaScript number.
pub record Anomaly (N : Type 0) : Type 0 where
  pub id : String
  pub timestamp : String
  pub score_history : List N
  pub gpt_explanation : String

-- `rows` is the query's `data` for the page and the debounced search.
pub record Viewer (N : Type 0) : Type 0 where
  pub page : ℕ
  pub search : String
  pub debounced : String
  pub selected : Option (Anomaly N)
  pub rows : Option (List (Anomaly N))

-- `searched` is a change of the input, and `paused` the end of the delay of `useDebounce`.
pub data Event (N : Type 0) : Type 0 where
  prev next paused : Event N
  searched : String → Event N
  click : ℕ → Event N
  key : String → ℕ → Event N
  loaded : List (Anomaly N) → Event N

module _ {N : Type 0} where
  -- Before the first answer.
  abbrev pub start : Viewer N
  start = record { page = 1; search = ""; debounced = ""; selected = none; rows = none }

  -- The buttons; `Prev` is disabled on the first page. Another page has no rows until they
  -- are loaded, or taken from the cache of React Query, which is the same event here.
  unfoldable pub on_prev : Viewer N → Viewer N
  on_prev v =
      if v.page == 1
      then v
      else record v { page = if leb 2 v.page then v.page - 1 else 1; rows = none }

  unfoldable pub on_next : Viewer N → Viewer N
  on_next v = record v { page = v.page + 1; rows = none }

  -- `setSelected(data[i])`; the handlers only ask for rows that exist.
  abbrev pub select_found : Option (Anomaly N) → Viewer N → Viewer N
  select_found none v = v
  select_found (some a) v = record v { selected = some a }

  abbrev pub select_row : ℕ → Option (List (Anomaly N)) → Viewer N → Viewer N
  select_row i none v = v
  select_row i (some rows) v = select_found (get_elem? rows i) v

  -- `handleRowClick` on the row of an index.
  unfoldable pub handle_row_click : ℕ → Viewer N → Viewer N
  handle_row_click idx v = select_row idx v.rows v

  -- `handleKeyDown`, where `idx < data.length - 1` is read in the integers.
  abbrev pub key_down : String → ℕ → Option (List (Anomaly N)) → Viewer N → Viewer N
  key_down k idx none v = v
  key_down k idx (some rows) v =
      if str_eq k "ArrowDown" && ltb (idx + 1) (length rows)
      then select_found (get_elem? rows (idx + 1)) v
      else if str_eq k "ArrowUp" && ltb 0 idx
      then select_found (get_elem? rows (idx - 1)) v
      else v

  unfoldable pub handle_key_down : String → ℕ → Viewer N → Viewer N
  handle_key_down k idx v = key_down k idx v.rows v

  -- The answer arrives, and the effect selects the first row if none is selected.
  abbrev pub first_selected : List (Anomaly N) → Option (Anomaly N) → Option (Anomaly N)
  first_selected rows (some a) = some a
  first_selected [] none = none
  first_selected (a ∷ rest) none = some a

  unfoldable pub on_data : List (Anomaly N) → Viewer N → Viewer N
  on_data rows v = record v { rows = some rows; selected = first_selected rows v.selected }

  -- The class of a row: selected, or alternating.
  abbrev pub is_selected : Anomaly N → Option (Anomaly N) → Bool
  is_selected a none = false
  is_selected a (some b) = str_eq b.id a.id

  unfoldable pub row_class : Viewer N → (Anomaly N) → ℕ → String
  row_class v a idx =
      if is_selected a v.selected
      then "bg-blue-50 dark:bg-gray-700"
      else if idx % 2 == 0
      then ""
      else "bg-gray-50 dark:bg-gray-800"

  -- Another debounced text is another query.
  unfoldable pub on_pause : Viewer N → Viewer N
  on_pause v =
      if str_eq v.debounced v.search then v else record v { debounced = v.search; rows = none }

  abbrev pub step : Event N → Viewer N → Viewer N
  step prev = on_prev
  step next = on_next
  step paused = on_pause
  step (searched t) = λ v. record v { search = t }
  step (click idx) = handle_row_click idx
  step (key k idx) = handle_key_down k idx
  step (loaded rows) = on_data rows

  unfoldable pub run : List (Event N) → Viewer N → Viewer N
  run [] v = v
  run (e ∷ es) v = run es (step e v)
