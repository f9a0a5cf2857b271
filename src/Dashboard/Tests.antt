-- ===== src/Dashboard/Tests.antt =====
-- Small inputs for the hooks and pages.
use walmart_assignment.Base.{
  ◌≡◌, refl, String, true, none, some, List, [], ◌∷◌, All, if◌then◌else◌, arith,
}
use walmart_assignment.Base.Text.{str_eq}
use walmart_assignment.Base.Int.{pos}
use walmart_assignment.Dashboard.Heatmap.{DayData, Calendar, cells, max_col, InGrid, heatmap-InGrid}
use walmart_assignment.Dashboard.Filters.{Selection, enabled, handle_select}
use walmart_assignment.Dashboard.Filters.Chain.{handle_select-enabled}
use walmart_assignment.Dashboard.Throttle

-- Sunday of this week, and Saturday of the week before.
abbrev two_days : List DayData
two_days =
    record { date = "2024-06-08"; low = some 0; medium = some 1; high = some 4 }
    ∷ record { date = "2024-06-09"; low = some 0; medium = some 0; high = some 0 }
    ∷ []

abbrev calendar : Calendar
calendar = record {
  get_day = λ d. if str_eq d "2024-06-08" then 6 else 0;
  weeks_ago = λ d. if str_eq d "2024-06-08" then pos 1 else pos 0;
}

heatmap-InGrid_example :
    All (InGrid calendar (max_col calendar (cells calendar two_days))) (cells calendar two_days)
heatmap-InGrid_example =
    heatmap-InGrid calendar two_days (((1, refl), omega arith), (((0, refl), omega arith), tt))

-- A choice in the second of three menus.
abbrev names : List String
names = "region" ∷ "host" ∷ "process" ∷ []

abbrev one_chosen : Selection
one_chosen = ("region", some "eu") ∷ []

abbrev next_chosen : Selection
next_chosen = ("process", none) ∷ ("host", some "web-1") ∷ one_chosen

chooses : handle_select names 1 "web-1" one_chosen ≡ some next_chosen
unfolding handle_select
chooses = refl

is_enabled : enabled names 1 one_chosen ≡ true
unfolding enabled
is_enabled = refl

handle_select-enabled_example : enabled names 2 next_chosen ≡ true
handle_select-enabled_example =
    handle_select-enabled names 1 "host" "web-1" one_chosen next_chosen 2 (refl, (refl, (refl, tt)))
      refl refl is_enabled chooses (omega arith)

-- A call, another one too early, and its timer.
abbrev calls : List Throttle.Event
calls = Throttle.call 1000 ∷ Throttle.call 1100 ∷ Throttle.fire 1300 ∷ []

calls-IsPrompt : Throttle.IsPrompt 300 calls Throttle.fresh
unfolding Throttle.called
calls-IsPrompt = ((λ due h. absurd (cc)), ((λ due h. absurd (cc)), tt))

run-IsSpaced_example : Throttle.IsSpaced 300 (Throttle.run 300 calls Throttle.fresh).runs
run-IsSpaced_example = Throttle.run-IsSpaced 300 calls calls-IsPrompt
