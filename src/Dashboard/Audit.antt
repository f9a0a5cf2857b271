-- ===== src/Dashboard/Audit.antt =====
-- ui-dashboard/pages/AuditLedger.tsx: the notices, the open rows, the scrolling and the export.
-- The requests, `JSON.stringify` and the rendering are parameters or left out.
pub mod Answers
pub mod Rows
pub mod Render
pub mod Buttons
mod Tests
use walmart_assignment.Base.{
  String, ℕ, ◌+◌, Bool, false, not, ◌||◌, Option, none, some, List, [], ◌∷◌, ◌++◌, true, map, leb,
  if◌then◌else◌,
}
use walmart_assignment.Base.Text.{str_eq, ◌&◌, join}
use walmart_assignment.Base.Json.{Json, null, str, keys, get}
use walmart_assignment.Base.Js.{Outcome, ok, thrown, Action}
use walmart_assignment.Dashboard.Fetch.{is_ok, success, error, Toast}

-- The notice that the answer to a verification sets.
abbrev pub verdict : Outcome ℕ → Toast
verdict (ok status) =
    if is_ok status
    then record { variant = success; message = "Verified" }
    else record { variant = error; message = "Verification failed" }
verdict (thrown e) = record { variant = error; message = "Verification failed" }

-- `fetch` gives the status of the answer to a path.
unfoldable pub verify : {W : Type 0} → (String → Action W ℕ) → String → W → Toast × W
verify fetch id w = let (r, u) = fetch ("/api/ledger/verify/" & id) w in (verdict r, u)

-- `expanded`, and the click on the button of a row.
abbrev pub is_expanded : String → List (String × Bool) → Bool
is_expanded id [] = false
is_expanded id ((k, b) ∷ rest) = if str_eq k id then b else is_expanded id rest

unfoldable pub toggle_details : String → List (String × Bool) → List (String × Bool)
toggle_details id expanded = (id, not (is_expanded id expanded)) ∷ expanded

-- What `handleScroll` reads of the list's element and of the query.
pub record Scroller : Type 0 where
  pub scroll_top : ℕ
  pub client_height : ℕ
  pub scroll_height : ℕ

-- Whether the next page is asked for.
unfoldable pub handle_scroll : Option Scroller → Bool → Bool → Bool
handle_scroll none is_fetching has_next = false
handle_scroll (some el) is_fetching has_next =
    if is_fetching || not has_next
    then false
    else leb el.scroll_height (el.scroll_top + el.client_height + 20)

-- `r[h] ?? ''`.
abbrev pub or_empty : Option Json → Json
or_empty none = str ""
or_empty (some null) = str ""
or_empty (some v) = v

module _ (stringify : Json → String) where
  abbrev pub csv_line : List String → Json → String
  csv_line headers row = join "," (map (λ h. stringify (or_empty (get h row))) headers)

  -- `ArrayToCSV`.
  unfoldable pub array_to_csv : List Json → String
  array_to_csv [] = ""
  array_to_csv (first ∷ rest) =
      let headers = keys first in
      join "\n" (join "," headers ∷ map (csv_line headers) (first ∷ rest))

pub record LogEntry : Type 0 where
  pub id : String
  pub timestamp : String
  pub action : String
  pub hash : String
  pub details : String

-- `query.data?.pages.flatMap((p) => p.data) ?? []`; `none` is a query without data.
abbrev pub flatten : List (List LogEntry) → List LogEntry
flatten [] = []
flatten (p ∷ ps) = p ++ flatten ps

unfoldable pub entries_of : Option (List (List LogEntry)) → List LogEntry
entries_of none = []
entries_of (some pages) = flatten pages

-- The rows of the table: an entry, the details of the entry above, and the note of a page on its way.
pub data TableRow : Type 0 where
  entry : LogEntry → TableRow
  details : String → TableRow
  loading : TableRow

-- `LedgerRow`, and the body of the table.
abbrev pub details_of : Bool → LogEntry → List TableRow
details_of true e = details e.details ∷ []
details_of false e = []

abbrev pub ledger_rows : List (String × Bool) → List LogEntry → List TableRow
ledger_rows expanded [] = []
ledger_rows expanded (e ∷ es) =
    entry e ∷ (details_of (is_expanded e.id expanded) e ++ ledger_rows expanded es)

unfoldable pub table_body :
    List (String × Bool) → Bool → Option (List (List LogEntry)) → List TableRow
table_body expanded is_fetching pages =
    ledger_rows expanded (entries_of pages) ++ (if is_fetching then loading ∷ [] else [])
