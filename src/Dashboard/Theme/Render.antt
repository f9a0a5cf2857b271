-- ===== src/Dashboard/Theme/Render.antt =====
-- ui-dashboard/components/DarkModeToggle.tsx: the button.
use walmart_assignment.Base.{[], ◌∷◌, if◌then◌else◌}
use walmart_assignment.Dashboard.View.{Nodes, attr, count, flag, on, tag}
use walmart_assignment.Dashboard.Theme.{Theme, Visit, press}

-- The component.
unfoldable pub toggle_view : Theme → Nodes Visit
toggle_view t =
    tag "Button"
      (attr "variant" "ghost"
        ∷ attr "size" "icon"
        ∷ on "onClick" press
        ∷ flag "aria-pressed" t.is_dark
        ∷ attr "aria-label" (if t.is_dark then "Enable light mode" else "Enable dark mode")
        ∷ attr "className" "focus:outline-none focus:ring-2 focus:ring-offset-2 focus:ring-primary"
        ∷ [])
      ((if t.is_dark
          then tag "Sun" (count "size" 20 ∷ []) []
          else tag "Moon" (count "size" 20 ∷ []) [])
        ∷ [])
