-- ===== src/Dashboard/Audit/Buttons.antt =====
-- The buttons of the rows and the details that are open.
use mathlib.Core.List.{append-nil}
use walmart_assignment.Base.{
  ◌≡◌, refl, ap, ◌∙◌, String, Bool, true, false, Option, none, some, List, [], ◌∷◌, map,
  if◌then◌else◌, Bool-cases, inl, inr,
}
use walmart_assignment.Base.Text.{str_eq}
use walmart_assignment.Dashboard.View.{
  Nodes, nil, join_nodes, when, when_some, each, tag, say, count, attr,
}
use walmart_assignment.Dashboard.View.Shown.{in_nodes, texts, event_of, in_nodes-join_nodes}
use walmart_assignment.Dashboard.Fetch.{Toast}
use walmart_assignment.Dashboard.Audit.{LogEntry, entries_of, is_expanded}
use walmart_assignment.Dashboard.Audit.Render.{
  Act, export, verify, toggle, columns, ledger_row, notice, ledger_view,
}

-- The buttons with the small letter, which open the details: the event and the mark.
abbrev pub toggles : Nodes Act → List (Option Act × List String)
toggles ns = map (λ x. (event_of "onClick" x.0, texts x.1)) (in_nodes "button" ns)

-- The buttons of the component library.
abbrev pub actions : Nodes Act → List (Option Act)
actions ns = map (λ x. event_of "onClick" x.0) (in_nodes "Button" ns)

abbrev pub opened : Nodes Act → List (List String)
opened ns = map (λ x. texts x.1) (in_nodes "pre" ns)

-- The details of the entries that are open.
abbrev pub open_details : List (String × Bool) → List LogEntry → List (List String)
open_details expanded [] = []
open_details expanded (e ∷ es) =
    let rest = open_details expanded es in
    if is_expanded e.id expanded then (e.details ∷ []) ∷ rest else rest

module _ (f : String → String) (expanded : List (String × Bool)) where
  rows-actions :
      (es : List LogEntry)
      → actions (each (ledger_row f expanded) es) ≡ map (λ e. some (verify e.id)) es
  unfolding columns in_nodes event_of
  rows-actions [] = refl
  rows-actions (e ∷ es) = elim (Bool-cases (is_expanded e.id expanded)) [
    | inl wide ↦ rw wide (ap (λ xs. some (verify e.id) ∷ xs) (rows-actions es))
    | inr shut ↦ rw shut (ap (λ xs. some (verify e.id) ∷ xs) (rows-actions es))
  ]

  rows-toggles :
      (es : List LogEntry)
      → toggles (each (ledger_row f expanded) es)
        ≡ map (λ e. (some (toggle e.id), (if is_expanded e.id expanded then "▼" else "▶") ∷ [])) es
  unfolding columns in_nodes event_of texts
  rows-toggles [] = refl
  rows-toggles (e ∷ es) = elim (Bool-cases (is_expanded e.id expanded)) [
    | inl wide ↦ rw wide (ap (λ xs. (some (toggle e.id), "▼" ∷ []) ∷ xs) (rows-toggles es))
    | inr shut ↦ rw shut (ap (λ xs. (some (toggle e.id), "▶" ∷ []) ∷ xs) (rows-toggles es))
  ]

  rows-opened :
      (es : List LogEntry) → opened (each (ledger_row f expanded) es) ≡ open_details expanded es
  unfolding columns in_nodes texts
  rows-opened [] = refl
  rows-opened (e ∷ es) = elim (Bool-cases (is_expanded e.id expanded)) [
    | inl wide ↦ rw wide (ap (λ xs. (e.details ∷ []) ∷ xs) (rows-opened es))
    | inr shut ↦ rw shut (rows-opened es)
  ]

  abbrev note : Bool → Nodes Act
  note is_fetching = when is_fetching (
      tag "tr" [] (
        tag "td" (count "colSpan" 5 ∷ attr "className" "p-2 text-center" ∷ [])
          (say "Loading..." ∷ [])
        ∷ []))

  -- The elements of the rows are all that the body of the table has of a kind that the note lacks.
  body-in_nodes :
      (name : String) (rows : Nodes Act) (is_fetching : Bool)
      → in_nodes name (note true) ≡ []
      → in_nodes name (join_nodes rows (note is_fetching)) ≡ in_nodes name rows
  unfolding in_nodes
  body-in_nodes name rows true h =
      in_nodes-join_nodes name rows (note true) ∙ rw h (append-nil (in_nodes name rows))
  body-in_nodes name rows false h =
      in_nodes-join_nodes name rows nil ∙ append-nil (in_nodes name rows)

  notice-in_nodes :
      (name : String) (toast : Option Toast)
      → str_eq "Toast" name ≡ false
      → in_nodes name (when_some toast (notice f)) ≡ []
  unfolding in_nodes
  notice-in_nodes name none h = refl
  notice-in_nodes name (some t) h = rw h refl

  module _ (is_fetching : Bool) (pages : Option (List (List LogEntry))) (toast : Option Toast) where
    abbrev rows : Nodes Act
    rows = each (ledger_row f expanded) (entries_of pages)

    abbrev view : Nodes Act
    view = ledger_view f expanded is_fetching pages toast

    view-Button : actions view ≡ some export ∷ actions rows
    unfolding ledger_view columns in_nodes event_of
    view-Button =
        let alone = append-nil (in_nodes "Button" rows) in
        rw
          (
            body-in_nodes "Button" rows is_fetching refl,
            notice-in_nodes "Button" toast refl,
            alone,
            alone,
            alone,
            alone,
          )
          refl

    view-button : in_nodes "button" view ≡ in_nodes "button" rows
    unfolding ledger_view columns in_nodes
    view-button =
        let alone = append-nil (in_nodes "button" rows) in
        rw
          (
            body-in_nodes "button" rows is_fetching refl,
            notice-in_nodes "button" toast refl,
            alone,
            alone,
            alone,
            alone,
          )
          refl

    view-pre : in_nodes "pre" view ≡ in_nodes "pre" rows
    unfolding ledger_view columns in_nodes
    view-pre =
        let alone = append-nil (in_nodes "pre" rows) in
        rw
          (
            body-in_nodes "pre" rows is_fetching refl,
            notice-in_nodes "pre" toast refl,
            alone,
            alone,
            alone,
            alone,
          )
          refl

  -- Whether or not a page is on its way and a notice is shown, for the loaded entries in their order:
  -- the page has one button to export and one to verify each entry, with its identifier; one to open
  -- each entry, which points down just if the entry is open; and the details of just the open ones.
  pub ledger_view-Shown :
      (is_fetching : Bool) (pages : Option (List (List LogEntry))) (toast : Option Toast)
      → (actions (ledger_view f expanded is_fetching pages toast)
          ≡ some export ∷ map (λ e. some (verify e.id)) (entries_of pages))
        × (toggles (ledger_view f expanded is_fetching pages toast)
            ≡ map
                (λ e. (some (toggle e.id), (if is_expanded e.id expanded then "▼" else "▶") ∷ []))
                (entries_of pages))
        × (opened (ledger_view f expanded is_fetching pages toast)
            ≡ open_details expanded (entries_of pages))
  ledger_view-Shown is_fetching pages toast = (
    view-Button is_fetching pages toast
        ∙ ap (λ xs. some export ∷ xs) (rows-actions (entries_of pages)),
    ap (map (λ x. (event_of "onClick" x.0, texts x.1))) (view-button is_fetching pages toast)
        ∙ rows-toggles (entries_of pages),
    ap (map (λ x. texts x.1)) (view-pre is_fetching pages toast) ∙ rows-opened (entries_of pages),
  )
