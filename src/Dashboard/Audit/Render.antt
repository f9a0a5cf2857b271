-- ===== src/Dashboard/Audit/Render.antt =====
-- ui-dashboard/pages/AuditLedger.tsx: what the page renders. Turning a date into text is a parameter;
-- TanStack Table, which lays out the columns for each row, is followed by its documented behaviour: a
-- column without `cell` shows its value.
use walmart_assignment.Base.{String, Bool, true, Option, List, [], ◌∷◌, length, if◌then◌else◌}
use walmart_assignment.Dashboard.View.{
  Nodes, attr, count, flag, on, on_flag, fragment, tag, say, when, when_some, each,
}
use walmart_assignment.Dashboard.Fetch.{Variant, success, error, Toast}
use walmart_assignment.Dashboard.Audit.{LogEntry, entries_of, is_expanded}

-- The handlers of the page.
pub data Act : Type 0 where
  export dismiss : Act
  verify toggle : String → Act

-- A column: the text of its header, and the cell of an entry.
pub record Column : Type 0 where
  pub header : String
  pub cell : LogEntry → Nodes Act

module _ (to_locale_string : String → String) where
  -- `columns`; `expanded[row.original.id]` chooses the mark.
  unfoldable pub columns : List (String × Bool) → List Column
  columns expanded =
      record { header = "Time"; cell = λ e. say (to_locale_string e.timestamp) }
      ∷ record { header = "Action"; cell = λ e. say e.action }
      ∷ record {
        header = "Hash";
        cell = λ e. tag "span" (attr "className" "break-all" ∷ []) (say e.hash ∷ []);
      }
      ∷ record {
        header = "Verify";
        cell = λ e.
            tag "Button" (attr "size" "sm" ∷ on "onClick" (verify e.id) ∷ []) (say "Verify" ∷ []);
      }
      ∷ record {
        header = "";
        cell = λ e.
            tag "button" (attr "aria-label" "Toggle details" ∷ on "onClick" (toggle e.id) ∷ [])
              (say (if is_expanded e.id expanded then "▼" else "▶") ∷ []);
      }
      ∷ []

  abbrev pub ledger_cell : LogEntry → Column → Nodes Act
  ledger_cell e c = tag "td" (attr "className" "p-2 align-top" ∷ []) (c.cell e ∷ [])

  -- `LedgerRow`.
  abbrev pub ledger_row : List (String × Bool) → LogEntry → Nodes Act
  ledger_row expanded e = fragment (
      tag "tr" [] (each (ledger_cell e) (columns expanded) ∷ [])
      ∷ when (is_expanded e.id expanded) (
          tag "tr" [] (
            tag "td"
              (count "colSpan" (length (columns expanded))
                ∷ attr "className" "p-2 bg-gray-50 dark:bg-gray-800"
                ∷ [])
              (tag "pre" (attr "className" "whitespace-pre-wrap text-sm" ∷ []) (say e.details ∷ [])
                ∷ [])
            ∷ []))
      ∷ [])

  abbrev pub header_cell : Column → Nodes Act
  header_cell c = tag "th" (attr "className" "text-left p-2" ∷ []) (say c.header ∷ [])

  abbrev pub variant_text : Variant → String
  variant_text success = "success"
  variant_text error = "error"

  abbrev pub notice : Toast → Nodes Act
  notice t =
      tag "Toast"
        (flag "open" true
          ∷ on_flag "onOpenChange" (λ _. dismiss)
          ∷ attr "variant" (variant_text t.variant)
          ∷ [])
        (say t.message ∷ [])

  -- The page.
  unfoldable pub ledger_view :
      List (String × Bool) → Bool → Option (List (List LogEntry)) → Option Toast → Nodes Act
  ledger_view expanded is_fetching pages toast = tag "div" (attr "className" "p-4 space-y-4" ∷ []) (
      tag "div" (attr "className" "flex justify-end" ∷ []) (
        tag "Button" (on "onClick" export ∷ []) (say "Export CSV" ∷ [])
        ∷ tag "a" (attr "display" "none" ∷ []) []
        ∷ [])
      ∷ tag "div" (attr "className" "overflow-auto max-h-[70vh]" ∷ []) (
          tag "Table" (attr "className" "w-full" ∷ []) (
            tag "thead" [] (tag "tr" [] (each header_cell (columns expanded) ∷ []) ∷ [])
            ∷ tag "tbody" [] (
                each (ledger_row expanded) (entries_of pages)
                ∷ when is_fetching (
                    tag "tr" [] (
                      tag "td"
                        (count "colSpan" (length (columns expanded))
                          ∷ attr "className" "p-2 text-center"
                          ∷ [])
                        (say "Loading..." ∷ [])
                      ∷ []))
                ∷ [])
            ∷ [])
          ∷ [])
      ∷ when_some toast notice
      ∷ [])
