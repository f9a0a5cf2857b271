-- ===== src/Dashboard/Heatmap/Hover.antt =====
-- The squares of the heatmap, and the tooltip of the one under the mouse.
use mathlib.Core.List.{append-nil}
use walmart_assignment.Base.{◌≡◌, refl, ap, ℕ, Option, none, some, List, [], ◌∷◌, map, ◌+◌}
use walmart_assignment.Base.Int.{pos}
use walmart_assignment.Dashboard.View.{Nodes, each, when_some, join_nodes}
use walmart_assignment.Dashboard.View.Shown.{in_nodes, texts, event_of}
use walmart_assignment.Dashboard.Heatmap.{DayData, Calendar, cells, max_col}
use walmart_assignment.Dashboard.Heatmap.Render.{
  Numbers, num, Event, hover, leave, Tooltip, step, tooltip_text, cell_view, tooltip_view,
  legend_view, heatmap_view,
}

-- The squares of a view: what they send when the mouse enters and leaves them.
abbrev pub squares : Nodes Event → List (Option Event × Option Event)
squares ns =
    map (λ x. (event_of "onMouseEnter" x.0, event_of "onMouseLeave" x.0)) (in_nodes "rect" ns)

module _ {P : Type 0} (n : Numbers P) (c : Calendar) where
  cells-squares :
      (cell : P) (m : ℕ) (days : List DayData)
      → squares (each (cell_view n c cell m) (cells c days))
        ≡ map (λ d. (some (hover d), some leave)) days
  unfolding cells in_nodes event_of
  cells-squares cell m [] = refl
  cells-squares cell m (d ∷ days) =
      ap (λ xs. (some (hover d), some leave) ∷ xs) (cells-squares cell m days)

  cells-texts :
      (cell : P) (m : ℕ) (days : List DayData)
      → texts (each (cell_view n c cell m) (cells c days)) ≡ []
  unfolding cells texts
  cells-texts cell m [] = refl
  cells-texts cell m (d ∷ days) = cells-texts cell m days

  below-rect :
      (tooltip : Option (Tooltip P))
      → in_nodes "rect" (join_nodes (when_some tooltip (tooltip_view n)) (legend_view n)) ≡ []
  unfolding in_nodes
  below-rect none = refl
  below-rect (some t) = refl

  view-squares :
      (width height : P) (days : List DayData) (tooltip : Option (Tooltip P))
      → squares (heatmap_view n c width height days tooltip)
        ≡ map (λ d. (some (hover d), some leave)) days
  unfolding heatmap_view in_nodes
  view-squares width height days tooltip =
      let m = max_col c (cells c days) in
      let cell = n.min (n.div width (n.of_int (pos (m + 1)))) (n.div height (num n 7)) in
      let alone = append-nil (in_nodes "rect" (each (cell_view n c cell m) (cells c days))) in
      rw (below-rect tooltip, alone, alone, alone) (cells-squares cell m days)

  view-texts :
      (width height : P) (days : List DayData) (t : Tooltip P)
      → texts (heatmap_view n c width height days (some t))
        ≡ tooltip_text n t.day ∷ "0" ∷ "1–3" ∷ "4–6" ∷ "7+" ∷ []
  unfolding heatmap_view texts
  view-texts width height days t =
      let m = max_col c (cells c days) in
      let cell = n.min (n.div width (n.of_int (pos (m + 1)))) (n.div height (num n 7)) in
      rw (cells-texts cell m days) refl

  -- Whatever size the container has and whatever tooltip is shown, there is one square for each day in
  -- order. The mouse over it brings up a tooltip, and the component then shows the text of this day
  -- above its legend; the tooltip goes when the mouse leaves.
  pub heatmap_view-hover :
      (width height : P) (days : List DayData) (tooltip : Option (Tooltip P))
      → (squares (heatmap_view n c width height days tooltip)
          ≡ map (λ d. (some (hover d), some leave)) days)
        × ((d : DayData) (mouse : P × P) (rect : Option P × Option P)
            → (t : Tooltip P) × (step n (hover d) mouse rect tooltip ≡ some t)
              × (texts (heatmap_view n c width height days (some t))
                  ≡ tooltip_text n d ∷ "0" ∷ "1–3" ∷ "4–6" ∷ "7+" ∷ [])
              × (step n leave mouse rect (some t) ≡ none))
  unfolding step
  heatmap_view-hover width height days tooltip = (
    view-squares width height days tooltip,
    (λ d mouse rect. (_, refl, view-texts width height days _, refl)),
  )
