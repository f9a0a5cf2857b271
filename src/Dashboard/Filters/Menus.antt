-- ===== src/Dashboard/Filters/Menus.antt =====
-- ui-dashboard/components/FiltersDrilldown.tsx: the menus that are rendered. What React Query answers
-- for a category is a parameter; the variants of an animation are left out.
use walmart_assignment.Base.{String, ℕ, Bool, true, not, Option, none, some, List, [], ◌∷◌}
use walmart_assignment.Dashboard.View.{
  Nodes, attr, flag, on, on_flag, tag, say, when, each, each_from,
}
use walmart_assignment.Dashboard.Filters.{Selection, label, is_open, set_open, on_select}

-- `data` and `isLoading` of the query for the options of a category.
pub record Answer : Type 0 where
  pub options : Option (List String)
  pub is_loading : Bool

-- The state of the component.
pub record Drill : Type 0 where
  pub sel : Selection
  pub opened : List (ℕ × Bool)

-- `onOpenChange` and `onSelect` of the menu of an index.
pub data Event : Type 0 where
  open_changed : ℕ → Bool → Event
  choose : ℕ → String → Event

-- `none` is an exception.
abbrev pub chosen_state : Option (Selection × List (ℕ × Bool)) → Option Drill
chosen_state none = none
chosen_state (some (sel, opened)) = some (record { sel = sel; opened = opened })

unfoldable pub step : List String → Event → Drill → Option Drill
step names (open_changed idx o) d = some (record d { opened = set_open idx o d.opened })
step names (choose idx opt) d = chosen_state (on_select names idx opt d.sel d.opened)

-- `data: options = []`.
abbrev pub options_of : Option (List String) → List String
options_of none = []
options_of (some options) = options

abbrev pub item : ℕ → String → Nodes Event
item idx opt =
    tag "DropdownMenu.Item"
      (attr "role" "menuitem"
        ∷ attr "className"
            "px-2 py-1 text-sm cursor-pointer focus:bg-gray-100 dark:focus:bg-gray-700"
        ∷ on "onSelect" (choose idx opt)
        ∷ [])
      (say opt ∷ [])

abbrev pub content : ℕ → Answer → Nodes Event
content idx a =
    tag "DropdownMenu.Content"
      (flag "asChild" true ∷ attr "align" "start" ∷ flag "forceMount" true ∷ [])
      (tag "motion.div"
          (attr "role" "menu"
            ∷ attr "className"
                "bg-white dark:bg-gray-800 border border-gray-200 dark:border-gray-700 rounded shadow-md p-1 min-w-[8rem]"
            ∷ [])
          (when a.is_loading (
              tag "div" (attr "className" "px-2 py-1 text-sm text-gray-500" ∷ [])
                (say "Loading..." ∷ []))
            ∷ when (not a.is_loading) (each (item idx) (options_of a.options))
            ∷ [])
        ∷ [])

abbrev pub trigger : String → Nodes Event
trigger shown = tag "DropdownMenu.Trigger" (flag "asChild" true ∷ []) (
    tag "button"
      (attr "className"
          "px-3 py-1 border rounded bg-white dark:bg-gray-800 focus:outline-none focus:ring-2 focus:ring-primary"
        ∷ attr "aria-haspopup" "menu"
        ∷ [])
      (say shown ∷ [])
    ∷ [])

abbrev pub menu : (ℕ → Answer) → Drill → ℕ → String → Nodes Event
menu query d idx name =
    tag "DropdownMenu"
      (flag "open" (is_open idx d.opened) ∷ on_flag "onOpenChange" (λ o. open_changed idx o) ∷ [])
      (trigger (label name d.sel)
        ∷ tag "AnimatePresence" [] (when (is_open idx d.opened) (content idx (query idx)) ∷ [])
        ∷ [])

-- The row of menus; `query idx` is the answer for the category of the index.
unfoldable pub drilldown : (ℕ → Answer) → List String → Drill → Nodes Event
drilldown query names d =
    tag "div" (attr "className" "flex items-center space-x-2" ∷ [])
      (each_from (menu query d) 0 names ∷ [])
