-- ===== src/Dashboard/Filters/Tests.antt =====
-- A region with its cities, of which the first is chosen.
use walmart_assignment.Base.{◌≡◌, refl, ℕ, false, true, some, [], ◌∷◌}
use walmart_assignment.Dashboard.View.Handlers.{NodesSend}
use walmart_assignment.Dashboard.Filters.Menus.{Answer, Drill, choose, step, drilldown}
use walmart_assignment.Dashboard.Filters.Labels.{shown, choose-shown}
use walmart_assignment.Dashboard.Filters.Offers.{Works, drilldown-NodesSend}

abbrev query : ℕ → Answer
query idx = record { options = some ("North" ∷ "South" ∷ []); is_loading = false }

abbrev chosen_north : Drill
chosen_north = record {
  sel = ("city", some "York") ∷ ("region", some "North") ∷ [];
  opened = (0, true) ∷ [];
}

choose-shown_example :
    (t : Drill) × (step ("region" ∷ "city" ∷ []) (choose 0 "South") chosen_north ≡ some t)
    × (shown (drilldown query ("region" ∷ "city" ∷ []) t) ≡ ("South" ∷ []) ∷ ("city" ∷ []) ∷ [])
choose-shown_example =
    choose-shown query ("region" ∷ "city" ∷ []) 0 "region" "South" chosen_north (refl, (refl, tt))
      refl refl

drilldown-NodesSend_example :
    NodesSend
      (Works query ("region" ∷ "city" ∷ []) chosen_north)
      (drilldown query ("region" ∷ "city" ∷ []) chosen_north)
drilldown-NodesSend_example = drilldown-NodesSend query ("region" ∷ "city" ∷ []) chosen_north
