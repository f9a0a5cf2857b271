-- ===== src/Dashboard/Audit/Tests.antt =====
-- A page of two entries, of which the first is open.
use walmart_assignment.Base.{◌≡◌, String, Bool, true, none, some, List, [], ◌∷◌}
use walmart_assignment.Dashboard.Audit.{LogEntry, entries_of}
use walmart_assignment.Dashboard.Audit.Render.{export, verify, toggle, ledger_view}
use walmart_assignment.Dashboard.Audit.Buttons.{actions, toggles, opened, ledger_view-Shown}

abbrev entry_of : String → String → LogEntry
entry_of id details = record {
  id = id;
  timestamp = "2025-05-01";
  action = "isolate";
  hash = "ab";
  details = details;
}

abbrev pages : List (List LogEntry)
pages = (entry_of "e-1" "host 1" ∷ []) ∷ (entry_of "e-2" "host 2" ∷ []) ∷ []

abbrev first_open : List (String × Bool)
first_open = ("e-1", true) ∷ []

ledger_view-Shown_example :
    (actions (ledger_view (λ t. t) first_open true (some pages) none)
      ≡ some export ∷ some (verify "e-1") ∷ some (verify "e-2") ∷ [])
    × (toggles (ledger_view (λ t. t) first_open true (some pages) none)
        ≡ (some (toggle "e-1"), "▼" ∷ []) ∷ (some (toggle "e-2"), "▶" ∷ []) ∷ [])
    × (opened (ledger_view (λ t. t) first_open true (some pages) none) ≡ ("host 1" ∷ []) ∷ [])
unfolding entries_of
ledger_view-Shown_example = ledger_view-Shown (λ t. t) first_open true (some pages) none
