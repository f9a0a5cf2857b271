-- ===== src/Dashboard/Anomalies/Valid.antt =====
-- What holds of every row holds of what is shown.
use walmart_assignment.Base.{
  String, ℕ, zero, suc, ◌+◌, ◌-◌, ◌≤◌, ◌==◌, ◌&&◌, Option, none, some, List, [], ◌∷◌, length,
  get_elem?, ltb, All, Bool-cases, arith, inl, inr,
}
use walmart_assignment.Base.Text.{str_eq}
use walmart_assignment.Dashboard.Anomalies.{
  Anomaly, Viewer, Event, prev, next, paused, searched, click, key, loaded, select_found,
  select_row, key_down, first_selected, on_prev, on_next, on_pause, on_data, handle_row_click,
  handle_key_down, step, run,
}

module _ {N : Type 0} (P : Anomaly N → Type 0) where
  -- Every row that an event loads has the property.
  abbrev pub Loads : Event N → Type 0
  Loads (loaded rows) = All P rows
  Loads _ = Unit

  abbrev pub Selected : Option (Anomaly N) → Type 0
  Selected none = Unit
  Selected (some a) = P a

  abbrev pub Rows : Option (List (Anomaly N)) → Type 0
  Rows none = Unit
  Rows (some rows) = All P rows

  abbrev pub IsValid : Viewer N → Type 0
  IsValid v = (1 ≤ v.page) × (Selected v.selected × Rows v.rows)

  get_elem?-All : (i : ℕ) (rows : List (Anomaly N)) → All P rows → Selected (get_elem? rows i)
  get_elem?-All i [] h = tt
  get_elem?-All zero (a ∷ rows) h = h.0
  get_elem?-All (suc i) (a ∷ rows) h = get_elem?-All i rows h.1

  select_found-IsValid :
      (o : Option (Anomaly N)) (v : Viewer N) → Selected o → IsValid v → IsValid (select_found o v)
  select_found-IsValid none v h valid = valid
  select_found-IsValid (some a) v h (page, (s, rows)) = (page, (h, rows))

  select-IsValid :
      (i : ℕ) (rows : List (Anomaly N)) (v : Viewer N)
      → All P rows
      → IsValid v
      → IsValid (select_found (get_elem? rows i) v)
  select-IsValid i rows v h = select_found-IsValid (get_elem? rows i) v (get_elem?-All i rows h)

  click-IsValid :
      (i : ℕ) (o : Option (List (Anomaly N))) (v : Viewer N)
      → Rows o
      → IsValid v
      → IsValid (select_row i o v)
  click-IsValid i none v h valid = valid
  click-IsValid i (some rows) v h valid = select-IsValid i rows v h valid

  key_down-IsValid :
      (k : String) (i : ℕ) (o : Option (List (Anomaly N))) (v : Viewer N)
      → Rows o
      → IsValid v
      → IsValid (key_down k i o v)
  key_down-IsValid k i none v h valid = valid
  key_down-IsValid k i (some rows) v h valid =
      elim (Bool-cases (str_eq k "ArrowDown" && ltb (i + 1) (length rows))) [
        | inl down ↦ rw down (select-IsValid (i + 1) rows v h valid)
        | inr e ↦ elim (Bool-cases (str_eq k "ArrowUp" && ltb 0 i)) [
          | inl up ↦ rw (e, up) (select-IsValid (i - 1) rows v h valid)
          | inr f ↦ rw (e, f) valid
        ]
      ]

  first_selected-Selected :
      (rows : List (Anomaly N)) (o : Option (Anomaly N))
      → All P rows
      → Selected o
      → Selected (first_selected rows o)
  first_selected-Selected rows (some a) h s = s
  first_selected-Selected [] none h s = tt
  first_selected-Selected (a ∷ rest) none h s = h.0

  step-IsValid : (e : Event N) (v : Viewer N) → Loads e → IsValid v → IsValid (step e v)
  unfolding on_prev on_next on_pause handle_row_click handle_key_down on_data
  step-IsValid prev v l valid = elim (Bool-cases (v.page == 1)) [
    | inl first ↦ rw first valid
    | inr later ↦ rw later ((let h = valid.0 in ground arith), (valid.1.0, tt))
  ]
  step-IsValid next v l (h, (s, r)) = (omega arith, (s, tt))
  step-IsValid paused v l valid = elim (Bool-cases (str_eq v.debounced v.search)) [
    | inl same ↦ rw same valid
    | inr other ↦ rw other (valid.0, (valid.1.0, tt))
  ]
  step-IsValid (searched t) v l valid = valid
  step-IsValid (click i) v l valid = click-IsValid i v.rows v valid.1.1 valid
  step-IsValid (key k i) v l valid = key_down-IsValid k i v.rows v valid.1.1 valid
  step-IsValid (loaded rows) v l (h, (s, r)) = (h, (first_selected-Selected rows v.selected l s, l))

  -- However the reader moves through the pages and rows, and whenever answers arrive: the page that
  -- is asked for is at least 1, and what holds of every row that was ever loaded holds of the
  -- selected row and of those that are shown.
  pub run-IsValid :
      (es : List (Event N)) (v : Viewer N) → All Loads es → IsValid v → IsValid (run es v)
  unfolding run
  run-IsValid [] v l valid = valid
  run-IsValid (e ∷ es) v (l, ls) valid = run-IsValid es (step e v) ls (step-IsValid e v l valid)
