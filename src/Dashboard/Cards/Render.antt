-- ===== src/Dashboard/Cards/Render.antt =====
-- ui-dashboard/components/IncidentCard.tsx: what the card renders.
use walmart_assignment.Base.{String, Option, none, some, List, [], ◌∷◌}
use walmart_assignment.Dashboard.View.{Attr, Nodes, attr, count, on, tag, say}
use walmart_assignment.Dashboard.Overview.Render.{severity_text}
use walmart_assignment.Dashboard.Cards.{Incident, Shown, incident_card}

module _ {E : Type 0} where
  -- `onClick`, which may be missing.
  abbrev pub click_attr : Option E → List (Attr E) → List (Attr E)
  click_attr none rest = rest
  click_attr (some e) rest = on "onClick" e ∷ rest

  abbrev pub shown_view : Shown → String → Option E → Nodes E → Nodes E
  shown_view s severity on_click children =
      tag "Card"
        (attr "role" "button"
          ∷ count "tabIndex" 0
          ∷ click_attr on_click (
              attr "aria-label" s.aria_label
              ∷ attr "className"
                  "p-4 space-y-2 focus:outline-none focus:ring-2 focus:ring-offset-2 focus:ring-primary"
              ∷ []))
        (tag "div" (attr "className" "flex justify-between items-start" ∷ []) (
            tag "Tooltip" (attr "side" "top" ∷ attr "content" s.title ∷ []) (
              tag "h3" (attr "className" "font-semibold text-sm truncate max-w-[40ch]" ∷ [])
                (say s.title ∷ [])
              ∷ [])
            ∷ tag "Badge" (attr "className" s.badge ∷ []) (say severity ∷ [])
            ∷ [])
          ∷ tag "p" (attr "className" "text-xs text-gray-500 dark:text-gray-400" ∷ []) (
              tag "Clock" (count "size" 16 ∷ attr "className" "inline-block mr-1" ∷ []) []
              ∷ say s.time_text
              ∷ [])
          ∷ children
          ∷ [])

  unfoldable pub card_view : (String → Option String) → Incident → Option E → Nodes E → Nodes E
  card_view distance i = shown_view (incident_card distance i) (severity_text i.severity)
