-- ===== src/Dashboard/Anomalies/Click.antt =====
-- The handlers of the page, against the rows that it shows.
use mathlib.Core.Option.{some_inj}
use walmart_assignment.Base.{
  subst, ◌≡◌, Bool, ℕ, suc, ◌+◌, ◌≤◌, ◌<◌, Option, none, some, List, [], ◌∷◌, length, arith,
}
use walmart_assignment.Dashboard.View.{Nodes, >>=-eq-some}
use walmart_assignment.Dashboard.View.Handlers.{NodesSend, join_nodes-NodesSend, when-NodesSend}
use walmart_assignment.Dashboard.Anomalies.{
  Anomaly, Viewer, Event, prev, next, searched, click, key,
}
use walmart_assignment.Dashboard.Anomalies.Page.{
  Formats, last_of, row_view, row_views, data_rows, page_view, details, render,
}

module _ {N : Type 0} where
  -- The events that a page of so many rows may send.
  abbrev pub InRange : ℕ → Event N → Type 0
  InRange n (click i) = i < n
  InRange n (key k i) = i < n
  InRange n prev = Unit
  InRange n next = Unit
  InRange n (searched t) = Unit
  InRange n _ = ⊥

  abbrev pub count_rows : Option (List (Anomaly N)) → ℕ
  count_rows none = 0
  count_rows (some rows) = length rows

  module _ (f : Formats N) where
    row_view-NodesSend :
        (v : Viewer N) (n idx : ℕ) (a : Anomaly N) (ns : Nodes (Event N))
        → idx < n
        → row_view f v idx a ≡ some ns
        → NodesSend (InRange n) ns
    unfolding NodesSend
    row_view-NodesSend v n idx a ns h e =
        let (time, t, e') = >>=-eq-some (f.format_date a.timestamp) _ e in
        let (score, s, e'') = >>=-eq-some (last_of f a.score_history) _ e' in
        subst (NodesSend (InRange n)) (some_inj.0 e'') search

    row_views-NodesSend :
        (v : Viewer N) (n idx : ℕ) (rows : List (Anomaly N)) (ns : Nodes (Event N))
        → idx + length rows ≤ n
        → row_views f v idx rows ≡ some ns
        → NodesSend (InRange n) ns
    unfolding row_views NodesSend
    row_views-NodesSend v n idx [] ns h e = subst (NodesSend (InRange n)) (some_inj.0 e) tt
    row_views-NodesSend v n idx (a ∷ rest) ns h e =
        let (row, r, e') = >>=-eq-some (row_view f v idx a) _ e in
        let (rows, rs, e'') = >>=-eq-some (row_views f v (suc idx) rest) _ e' in
        subst (NodesSend (InRange n)) (some_inj.0 e'') (
          join_nodes-NodesSend (InRange n) row rows
            (row_view-NodesSend v n idx a row (omega (arith, h)) r)
            (row_views-NodesSend v n (suc idx) rest rows (omega (arith, h)) rs))

    details-NodesSend : (n : ℕ) (o : Option (Anomaly N)) → NodesSend (InRange n) (details f o)
    unfolding NodesSend
    details-NodesSend n none = search
    details-NodesSend n (some a) = search

    page_view-NodesSend :
        (v : Viewer N) (n : ℕ) (a b : Bool) (rows : Nodes (Event N))
        → NodesSend (InRange n) rows
        → NodesSend (InRange n) (page_view f v a b rows)
    unfolding NodesSend
    page_view-NodesSend v n a b rows h =
        search (join_nodes-NodesSend, when-NodesSend, details-NodesSend) depth 12

    data_rows-NodesSend :
        (v : Viewer N) (o : Option (List (Anomaly N))) (ns : Nodes (Event N))
        → data_rows f v o ≡ some ns
        → NodesSend (InRange (count_rows o)) ns
    unfolding NodesSend
    data_rows-NodesSend v none ns e = subst (NodesSend (InRange 0)) (some_inj.0 e) tt
    data_rows-NodesSend v (some rows) ns e =
        row_views-NodesSend v (length rows) 0 rows ns (omega arith) e

    -- Whatever the page shows, its handlers send only changes of the page and of the search, and clicks
    -- and keys on rows that exist.
    pub render-NodesSend :
        (v : Viewer N) (is_loading is_error : Bool) (ns : Nodes (Event N))
        → render f v is_loading is_error ≡ some ns
        → NodesSend (InRange (count_rows v.rows)) ns
    unfolding render
    render-NodesSend v is_loading is_error ns e =
        let (rows, r, e') = >>=-eq-some (data_rows f v v.rows) _ e in
        subst (NodesSend (InRange (count_rows v.rows))) (some_inj.0 e') (
          page_view-NodesSend v (count_rows v.rows) is_loading is_error rows
            (data_rows-NodesSend v v.rows rows r))
