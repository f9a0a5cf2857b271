-- ===== src/Dashboard/Anomalies/Page.antt =====
-- ui-dashboard/pages/AnomalyViewer.tsx: what the page renders. Formatting a date or a score and
-- turning a number into text are parameters; a date that is none makes `format` throw.
use walmart_assignment.Base.{
  Bool, false, String, ℕ, suc, ◌==◌, Option, none, some, List, [], ◌∷◌, map,
}
use walmart_assignment.Base.Text.{◌&◌}
use walmart_assignment.Dashboard.View.{
  Nodes, nil, ◌>>=◌, attr, count, flag, on, on_text, values, join_nodes, fragment, tag, say, when,
  numeral,
}
use walmart_assignment.Dashboard.Anomalies.{
  Anomaly, Viewer, Event, prev, next, searched, click, key, row_class,
}

pub record Formats (N : Type 0) : Type 0 where
  pub format_date : String → Option String
  pub to_fixed : ℕ → N → String
  pub to_text : N → String

module _ {N : Type 0} (f : Formats N) where
  -- `xs[xs.length - 1]`.
  abbrev pub last_of : List N → Option N
  last_of [] = none
  last_of (y ∷ []) = some y
  last_of (y ∷ z ∷ ys) = last_of (z ∷ ys)

  abbrev pub row_cells : String → String → N → Nodes (Event N)
  row_cells time id score = fragment (
      tag "td" (attr "className" "p-2" ∷ []) (say time ∷ [])
      ∷ tag "td" (attr "className" "p-2" ∷ []) (say id ∷ [])
      ∷ tag "td" (attr "className" "p-2" ∷ []) (say (f.to_fixed 2 score) ∷ [])
      ∷ [])

  abbrev pub drawn_row : Viewer N → ℕ → Anomaly N → String → N → Nodes (Event N)
  drawn_row v idx a time score =
      tag "tr"
        (attr "className" ("cursor-pointer " & row_class v a idx)
          ∷ count "tabIndex" 0
          ∷ on "onClick" (click idx)
          ∷ on_text "onKeyDown" (λ k. key k idx)
          ∷ [])
        (row_cells time a.id score ∷ [])

  -- A row of the table; `none` is an exception, by `format` or by `toFixed` of `undefined`.
  abbrev pub row_view : Viewer N → ℕ → Anomaly N → Option (Nodes (Event N))
  row_view v idx a = do
    time ← f.format_date a.timestamp
    score ← last_of a.score_history
    some (drawn_row v idx a time score)

  unfoldable pub row_views : Viewer N → ℕ → List (Anomaly N) → Option (Nodes (Event N))
  row_views v idx [] = some nil
  row_views v idx (a ∷ rest) = do
    row ← row_view v idx a
    rows ← row_views v (suc idx) rest
    some (join_nodes row rows)

  -- `data?.map(…)`.
  abbrev pub data_rows : Viewer N → Option (List (Anomaly N)) → Option (Nodes (Event N))
  data_rows v none = some nil
  data_rows v (some rows) = row_views v 0 rows

  abbrev pub note_row : String → String → Nodes (Event N)
  note_row class note =
      tag "tr" [] (tag "td" (count "colSpan" 3 ∷ attr "className" class ∷ []) (say note ∷ []) ∷ [])

  abbrev pub head_cell : String → Nodes (Event N)
  head_cell title =
      tag "th" (attr "scope" "col" ∷ attr "className" "text-left p-2" ∷ []) (say title ∷ [])

  abbrev pub table_view : Bool → Bool → Nodes (Event N) → Nodes (Event N)
  table_view is_loading is_error rows = tag "Table" (attr "className" "w-full" ∷ []) (
      tag "caption" (attr "className" "text-left font-semibold mb-2" ∷ [])
        (say "Anomaly Alerts" ∷ [])
      ∷ tag "thead" []
          (tag "tr" [] (head_cell "Time" ∷ head_cell "ID" ∷ head_cell "Anomaly Score" ∷ []) ∷ [])
      ∷ tag "tbody" [] (
          when is_loading (note_row "p-4 text-center" "Loading...")
          ∷ when is_error (note_row "p-4 text-red-600" "Failed to load")
          ∷ rows
          ∷ [])
      ∷ [])

  -- The buttons and the number of the page.
  abbrev pub pager : ℕ → Nodes (Event N)
  pager page = tag "div" (attr "className" "flex justify-between items-center mt-2" ∷ []) (
      tag "button"
        (attr "className" "px-2 py-1 border rounded"
          ∷ on "onClick" prev
          ∷ flag "disabled" (page == 1)
          ∷ [])
        (say "Prev" ∷ [])
      ∷ tag "span" [] (say "Page " ∷ numeral page ∷ [])
      ∷ tag "button" (attr "className" "px-2 py-1 border rounded" ∷ on "onClick" next ∷ [])
          (say "Next" ∷ [])
      ∷ [])

  -- The details of the selected row.
  abbrev pub details : Option (Anomaly N) → Nodes (Event N)
  details none =
      tag "div" (attr "className" "text-gray-500" ∷ []) (say "Select a row to see details" ∷ [])
  details (some a) = fragment (
      tag "ResponsiveContainer" (attr "width" "100%" ∷ count "height" 40 ∷ []) (
        tag "LineChart" (values "data" (map f.to_text a.score_history) ∷ []) (
          tag "Line"
            (attr "type" "monotone"
              ∷ attr "dataKey" "y"
              ∷ attr "stroke" "#2563eb"
              ∷ count "strokeWidth" 2
              ∷ flag "dot" false
              ∷ [])
            []
          ∷ [])
        ∷ [])
      ∷ tag "div" (attr "className" "whitespace-pre-wrap text-sm" ∷ []) (say a.gpt_explanation ∷ [])
      ∷ [])

  abbrev pub page_view : Viewer N → Bool → Bool → Nodes (Event N) → Nodes (Event N)
  page_view v is_loading is_error rows = tag "div" (attr "className" "p-4 space-y-4" ∷ []) (
      tag "Input"
        (attr "placeholder" "Search anomalies"
          ∷ attr "value" v.search
          ∷ on_text "onChange" (λ t. searched t)
          ∷ [])
        []
      ∷ tag "div" (attr "className" "flex gap-4" ∷ []) (
          tag "div" (attr "className" "flex-1 overflow-auto" ∷ [])
            (table_view is_loading is_error rows ∷ pager v.page ∷ [])
          ∷ tag "Panel" (attr "className" "w-80 h-[300px] overflow-y-auto p-4 space-y-4" ∷ [])
              (details v.selected ∷ [])
          ∷ [])
      ∷ [])

  -- The page; `none` is an exception, in whose place React shows nothing.
  unfoldable pub render : Viewer N → Bool → Bool → Option (Nodes (Event N))
  render v is_loading is_error = do
    rows ← data_rows v v.rows
    some (page_view v is_loading is_error rows)
