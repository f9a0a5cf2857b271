-- ===== src/Dashboard/Heatmap/Render.antt =====
-- ui-dashboard/components/SeverityHeatmap.tsx: what the component renders, and its tooltip. Positions
-- are JavaScript numbers, whose operations are parameters.
use walmart_assignment.Base.{String, ℕ, Bool, Option, none, some, List, [], ◌∷◌, ◌+◌, if◌then◌else◌}
use walmart_assignment.Base.Text.{◌&◌}
use walmart_assignment.Base.Int.{ℤ, pos}
use walmart_assignment.Dashboard.View.{Nodes, attr, count, values, on, tag, say, when_some, each}
use walmart_assignment.Dashboard.Heatmap.{
  DayData, color_class, stroke_needed, Cell, Calendar, cells, max_col, column,
}

pub record Numbers (P : Type 0) : Type 0 where
  pub of_int : ℤ → P
  pub add : P → P → P
  pub sub : P → P → P
  pub mul : P → P → P
  pub div : P → P → P
  pub min : P → P → P
  pub to_text : P → String

pub data Event : Type 0 where
  hover : DayData → Event
  leave : Event

pub record Tooltip (P : Type 0) : Type 0 where
  pub x : P
  pub y : P
  pub day : DayData

module _ {P : Type 0} (n : Numbers P) where
  abbrev pub num : ℕ → P
  num k = n.of_int (pos k)

  -- `rect?.left ?? 0`.
  abbrev pub or_zero : Option P → P
  or_zero none = num 0
  or_zero (some p) = p

  -- `handleHover` and `handleLeave`; the event has the position of the mouse, and the container, if it
  -- is there, its left and top.
  unfoldable pub step :
      Event → P × P → Option P × Option P → Option (Tooltip P) → Option (Tooltip P)
  step (hover day) (client_x, client_y) (left, top) tooltip = some (record {
    x = n.add (n.sub client_x (or_zero left)) (num 8);
    y = n.add (n.sub client_y (or_zero top)) (num 8);
    day = day;
  })
  step leave mouse rect tooltip = none

  abbrev pub stroke_class : Bool → String
  stroke_class needed = if needed then "stroke-current text-gray-400 dark:text-gray-500" else ""

  -- `Cell`, at its place in a grid of `m + 1` columns.
  abbrev pub cell_view : Calendar → P → ℕ → Cell → Nodes Event
  cell_view k cell m c =
      tag "rect"
        (values "x" (n.to_text (n.mul (n.of_int (column k m c.col)) cell) ∷ [])
          ∷ values "y" (n.to_text (n.mul (num c.row) cell) ∷ [])
          ∷ values "width" (n.to_text (n.sub cell (num 2)) ∷ [])
          ∷ values "height" (n.to_text (n.sub cell (num 2)) ∷ [])
          ∷ attr "className" (color_class c.day.high & " " & stroke_class (stroke_needed c.day))
          ∷ count "strokeWidth" (if stroke_needed c.day then 1 else 0)
          ∷ on "onMouseEnter" (hover c.day)
          ∷ on "onMouseLeave" leave
          ∷ [])
        []

  -- A number of a day in a text.
  abbrev pub count_text : Option ℕ → String
  count_text none = "undefined"
  count_text (some k) = n.to_text (num k)

  unfoldable pub tooltip_text : DayData → String
  tooltip_text d =
      d.date
      & " — Low: "
      & count_text d.low
      & ", Medium: "
      & count_text d.medium
      & ", High: "
      & count_text d.high

  abbrev pub tooltip_view : Tooltip P → Nodes Event
  tooltip_view t =
      tag "div"
        (attr "className"
            "absolute pointer-events-none text-xs bg-white dark:bg-gray-900 border border-gray-300 dark:border-gray-700 rounded px-2 py-1 shadow"
          ∷ values "left" (n.to_text t.x ∷ [])
          ∷ values "top" (n.to_text t.y ∷ [])
          ∷ [])
        (say (tooltip_text t.day) ∷ [])

  abbrev pub legend_entry : String → String → Nodes Event
  legend_entry colors range = tag "div" (attr "className" "flex items-center gap-1" ∷ []) (
      tag "span" (attr "className" ("w-3 h-3 " & colors & " inline-block") ∷ []) []
      ∷ say range
      ∷ [])

  abbrev pub legend_view : Nodes Event
  legend_view = tag "div" (attr "className" "flex gap-3 mt-2 text-xs items-center" ∷ []) (
      legend_entry "bg-gray-200 dark:bg-gray-700" "0"
      ∷ legend_entry "bg-red-200 dark:bg-red-800" "1–3"
      ∷ legend_entry "bg-red-400 dark:bg-red-600" "4–6"
      ∷ legend_entry "bg-red-600 dark:bg-red-400" "7+"
      ∷ [])

  -- The grid in a container of a width and a height.
  abbrev pub grid_view : Calendar → P → P → List Cell → Nodes Event
  grid_view k width height cs =
      let m = max_col k cs in
      let cell = n.min (n.div width (n.of_int (pos (m + 1)))) (n.div height (num 7)) in
      tag "svg"
        (values "width" (n.to_text width ∷ []) ∷ values "height" (n.to_text height ∷ []) ∷ [])
        (each (cell_view k cell m) cs ∷ [])

  unfoldable pub heatmap_view : Calendar → P → P → List DayData → Option (Tooltip P) → Nodes Event
  heatmap_view c width height days tooltip = tag "div" (attr "className" "relative" ∷ []) (
      tag "ResponsiveContainer" (attr "width" "100%" ∷ count "height" 200 ∷ [])
        (grid_view c width height (cells c days) ∷ [])
      ∷ when_some tooltip tooltip_view
      ∷ legend_view
      ∷ [])
