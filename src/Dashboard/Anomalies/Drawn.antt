-- ===== src/Dashboard/Anomalies/Drawn.antt =====
-- The rows of the table against the data, and when they can be drawn.
use mathlib.Core.Option.{some_inj}
use walmart_assignment.Base.{
  subst, ◌≡◌, refl, ◌↔◌, Bool, String, ℕ, suc, Option, none, some, List, [], ◌∷◌, All, get_elem?,
}
use walmart_assignment.Dashboard.View.{Nodes, nil, Attr, >>=-eq-some, join_nodes}
use walmart_assignment.Dashboard.View.Shown.{in_nodes, texts, event_of}
use walmart_assignment.Dashboard.Anomalies.{Anomaly, Viewer, Event, click, handle_row_click, step}
use walmart_assignment.Dashboard.Anomalies.Page.{
  Formats, last_of, drawn_row, page_view, row_view, row_views, data_rows, render,
}

module _ {N : Type 0} (f : Formats N) where
  -- A row of the table that shows an entry under an index, and whose click selects the entry.
  abbrev pub Shows : Viewer N → ℕ → Anomaly N → List (Attr (Event N)) × Nodes (Event N) → Type 0
  Shows v idx a row =
      (time : String) × (score : N) × (f.format_date a.timestamp ≡ some time)
      × (last_of f a.score_history ≡ some score)
      × (texts row.1 ≡ time ∷ a.id ∷ f.to_fixed 2 score ∷ [])
      × (event_of "onClick" row.0 ≡ some (click idx))

  abbrev pub Listed :
      Viewer N → ℕ → List (Anomaly N) → List (List (Attr (Event N)) × Nodes (Event N)) → Type 0
  Listed v idx [] [] = Unit
  Listed v idx (a ∷ rest) (row ∷ rows) = Shows v idx a row × Listed v (suc idx) rest rows
  Listed v idx _ _ = ⊥

  row_views-Listed :
      (v : Viewer N) (idx : ℕ) (rows : List (Anomaly N)) (ns : Nodes (Event N))
      → row_views f v idx rows ≡ some ns
      → Listed v idx rows (in_nodes "tr" ns)
  unfolding row_views in_nodes texts event_of
  row_views-Listed v idx [] ns e = subst (λ x. Listed v idx [] (in_nodes "tr" x)) (some_inj.0 e) tt
  row_views-Listed v idx (a ∷ rest) ns e =
      let (row, r, e₁) = >>=-eq-some (row_view f v idx a) _ e in
      let (rows, rs, e₂) = >>=-eq-some (row_views f v (suc idx) rest) _ e₁ in
      let (time, t, e₃) = >>=-eq-some (f.format_date a.timestamp) _ r in
      let (score, s, e₄) = >>=-eq-some (last_of f a.score_history) _ e₃ in
      subst (λ x. Listed v idx (a ∷ rest) (in_nodes "tr" x)) (some_inj.0 e₂)
        (subst (λ x. Listed v idx (a ∷ rest) (in_nodes "tr" (join_nodes x rows))) (some_inj.0 e₄)
          ((time, score, t, s, refl, refl), row_views-Listed v (suc idx) rest rows rs))

  -- The rows that can be drawn.
  abbrev pub IsDrawable : Anomaly N → Type 0
  IsDrawable a =
      ((time : String) × (f.format_date a.timestamp ≡ some time))
      × ((score : N) × (last_of f a.score_history ≡ some score))

  abbrev pub rows_of : Option (List (Anomaly N)) → List (Anomaly N)
  rows_of none = []
  rows_of (some rows) = rows

  row_views-IsDrawable :
      (v : Viewer N) (idx : ℕ) (rows : List (Anomaly N)) (ns : Nodes (Event N))
      → row_views f v idx rows ≡ some ns
      → All IsDrawable rows
  unfolding row_views
  row_views-IsDrawable v idx [] ns e = tt
  row_views-IsDrawable v idx (a ∷ rest) ns e =
      let (row, r, e₁) = >>=-eq-some (row_view f v idx a) _ e in
      let (rows, rs, e₂) = >>=-eq-some (row_views f v (suc idx) rest) _ e₁ in
      let (time, t, e₃) = >>=-eq-some (f.format_date a.timestamp) _ r in
      let (score, s, e₄) = >>=-eq-some (last_of f a.score_history) _ e₃ in
      (((time, t), (score, s)), row_views-IsDrawable v (suc idx) rest rows rs)

  IsDrawable-row_views :
      (v : Viewer N) (idx : ℕ) (rows : List (Anomaly N))
      → All IsDrawable rows
      → (ns : Nodes (Event N)) × (row_views f v idx rows ≡ some ns)
  unfolding row_views
  IsDrawable-row_views v idx [] h = (nil, refl)
  IsDrawable-row_views v idx (a ∷ rest) (((time, t), (score, s)), h) =
      let (rows, rs) = IsDrawable-row_views v (suc idx) rest h in
      (join_nodes (drawn_row f v idx a time score) rows, rw (t, s, rs) refl)

  IsDrawable-data_rows :
      (v : Viewer N) (o : Option (List (Anomaly N)))
      → All IsDrawable (rows_of o)
      → (ns : Nodes (Event N)) × (data_rows f v o ≡ some ns)
  IsDrawable-data_rows v none h = (nil, refl)
  IsDrawable-data_rows v (some rows) h = IsDrawable-row_views v 0 rows h

  data_rows-IsDrawable :
      (v : Viewer N) (o : Option (List (Anomaly N))) (ns : Nodes (Event N))
      → data_rows f v o ≡ some ns
      → All IsDrawable (rows_of o)
  data_rows-IsDrawable v none ns e = tt
  data_rows-IsDrawable v (some rows) ns e = row_views-IsDrawable v 0 rows ns e

  -- The page is rendered just if every loaded row has a date that can be formatted and at least one
  -- score; one row that has none takes the page away, for whatever else it has to show.
  pub render-IsDrawable :
      (v : Viewer N) (is_loading is_error : Bool)
      → ((ns : Nodes (Event N)) × (render f v is_loading is_error ≡ some ns))
        ↔ All IsDrawable (rows_of v.rows)
  unfolding render
  render-IsDrawable v is_loading is_error = (
    (λ h.
        let (rows, r, e) = >>=-eq-some (data_rows f v v.rows) _ h.1 in
        data_rows-IsDrawable v v.rows rows r),
    (λ h.
        let (rows, r) = IsDrawable-data_rows v v.rows h in
        (page_view f v is_loading is_error rows, rw r refl)),
  )

  -- The rows of the table are the loaded rows in their order: each shows the date, the identifier and
  -- the last score of its entry, and the event of a click on it is the one that selects this entry.
  pub row_views-Shows :
      (v : Viewer N) (rows : List (Anomaly N)) (ns : Nodes (Event N))
      → v.rows ≡ some rows
      → row_views f v 0 rows ≡ some ns
      → Listed v 0 rows (in_nodes "tr" ns)
        × ((i : ℕ) (a : Anomaly N)
            → get_elem? rows i ≡ some a
            → (step (click i) v).selected ≡ some a)
  unfolding handle_row_click
  row_views-Shows v rows ns h e = (row_views-Listed v 0 rows ns e, (λ i a g. rw (h, g) refl))
