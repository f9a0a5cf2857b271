-- ===== src/Dashboard/Audit/Rows.antt =====
-- The rows of the table: the entries it shows and the open ones.
use mathlib.Core.List.{append-nil}
use walmart_assignment.Base.{
  ◌≡◌, refl, ap, ◌∙◌, String, Bool, true, false, not, Option, List, [], ◌∷◌, ◌++◌, if◌then◌else◌,
  Bool-cases, inl, inr,
}
use walmart_assignment.Base.Text.{str_eq, eq_refl, eq_iff}
use walmart_assignment.Dashboard.Audit.{
  is_expanded, toggle_details, LogEntry, TableRow, entry, details, loading, details_of, ledger_rows,
  entries_of, table_body,
}

not-not : (b : Bool) → not (not b) ≡ b
not-not Bool.true = refl
not-not Bool.false = refl

-- Two clicks on the button of a row leave every row as it was.
toggle_details-toggle_details :
    (id key : String) (expanded : List (String × Bool))
    → is_expanded key (toggle_details id (toggle_details id expanded)) ≡ is_expanded key expanded
unfolding toggle_details
toggle_details-toggle_details id key expanded = elim (Bool-cases (str_eq id key)) [
  | inl here ↦
      let same : id ≡ key = (eq_iff id key).0 here in
      rw (here, eq_refl id) (rw (← same) (not-not (is_expanded id expanded)))
  | inr elsewhere ↦ rw elsewhere refl
]

-- The entries among the rows.
abbrev pub entries_in : List TableRow → List LogEntry
entries_in [] = []
entries_in (entry e ∷ rows) = e ∷ entries_in rows
entries_in (details text ∷ rows) = entries_in rows
entries_in (loading ∷ rows) = entries_in rows

entries_in-append : (xs ys : List TableRow) → entries_in (xs ++ ys) ≡ entries_in xs ++ entries_in ys
entries_in-append [] ys = refl
entries_in-append (entry e ∷ xs) ys = ap (λ es. e ∷ es) (entries_in-append xs ys)
entries_in-append (details text ∷ xs) ys = entries_in-append xs ys
entries_in-append (loading ∷ xs) ys = entries_in-append xs ys

entries_in-details_of :
    (b : Bool) (e : LogEntry) (rows : List TableRow)
    → entries_in (details_of b e ++ rows) ≡ entries_in rows
entries_in-details_of true e rows = refl
entries_in-details_of false e rows = refl

entries_in-ledger_rows :
    (expanded : List (String × Bool)) (es : List LogEntry)
    → entries_in (ledger_rows expanded es) ≡ es
entries_in-ledger_rows expanded [] = refl
entries_in-ledger_rows expanded (e ∷ es) =
    ap (λ xs. e ∷ xs)
      (entries_in-details_of (is_expanded e.id expanded) e (ledger_rows expanded es)
        ∙ entries_in-ledger_rows expanded es)

entries_in-note : (b : Bool) → entries_in (if b then loading ∷ [] else []) ≡ []
entries_in-note true = refl
entries_in-note false = refl

-- Whatever rows are open and whether or not a page is on its way, the table shows every entry of the
-- loaded pages once, in order.
pub entries_in-table_body :
    (expanded : List (String × Bool)) (is_fetching : Bool) (pages : Option (List (List LogEntry)))
    → entries_in (table_body expanded is_fetching pages) ≡ entries_of pages
unfolding table_body
entries_in-table_body expanded is_fetching pages =
    entries_in-append (ledger_rows expanded (entries_of pages)) _
    ∙ (ap (λ xs. xs ++ entries_in (if is_fetching then loading ∷ [] else []))
          (entries_in-ledger_rows expanded (entries_of pages))
        ∙ (ap (λ xs. entries_of pages ++ xs) (entries_in-note is_fetching)
            ∙ append-nil (entries_of pages)))
