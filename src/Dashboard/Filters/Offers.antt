-- ===== src/Dashboard/Filters/Offers.antt =====
-- The events that the menus send.
use walmart_assignment.Base.{
  ◌≡◌, refl, ap, String, ℕ, zero, suc, ◌<◌, true, false, some, List, [], ◌∷◌, length, All, drop,
  get_elem?, Bool-cases, inl, inr, arith,
}
use walmart_assignment.Base.Text.{includes}
use walmart_assignment.Dashboard.View.Handlers.{
  NodesSend, NodesSend-mono, each-NodesSend, each_from-NodesSend,
}
use walmart_assignment.Dashboard.Filters.{
  is_open, set_open, close_menu, on_select, handle_select, select_at,
}
use walmart_assignment.Dashboard.Filters.Chain.{All-includes}
use walmart_assignment.Dashboard.Filters.Menus.{
  Answer, Drill, Event, open_changed, choose, step, options_of, item, menu, drilldown, chosen_state,
}

-- A choice that a menu of so many offers: one of the loaded options of a category, whose menu is open.
abbrev pub IsOffered : (ℕ → Answer) → List String → Drill → Event → Type 0
IsOffered query names d (open_changed idx o) = idx < length names
IsOffered query names d (choose idx opt) =
    (idx < length names)
    × ((is_open idx d.opened ≡ true)
        × ((query idx).is_loading ≡ false)
        × (includes opt (options_of (query idx).options) ≡ true))

module _ (query : ℕ → Answer) (names : List String) (d : Drill) where
  items-NodesSend :
      (idx : ℕ) (opts : List String)
      → idx < length names
      → is_open idx d.opened ≡ true
      → (query idx).is_loading ≡ false
      → All (λ o. includes o (options_of (query idx).options) ≡ true) opts
      → All (λ o. NodesSend (IsOffered query names d) (item idx o)) opts
  unfolding NodesSend
  items-NodesSend idx [] lt wide idle h = tt
  items-NodesSend idx (o ∷ opts) lt wide idle (h, hs) =
      (search, items-NodesSend idx opts lt wide idle hs)

  menu-NodesSend :
      (idx : ℕ) (name : String)
      → idx < length names
      → NodesSend (IsOffered query names d) (menu query d idx name)
  unfolding NodesSend
  menu-NodesSend idx name lt = elim (Bool-cases (is_open idx d.opened)) [
    | inr shut ↦ rw shut (search)
    | inl wide ↦ elim (Bool-cases (query idx).is_loading) [
      | inl busy ↦ rw (wide, busy) (search)
      | inr idle ↦
          let all =
            All-includes (options_of (query idx).options) (options_of (query idx).options)
              (λ n p. p) in
          let items =
            each-NodesSend (IsOffered query names d) (item idx) (options_of (query idx).options)
              (items-NodesSend idx (options_of (query idx).options) lt wide idle all) in
          rw (wide, idle) (search items)
    ]
  ]

  get_elem?-some :
      (xs : List String) (i : ℕ) → i < length xs → (x : String) × (get_elem? xs i ≡ some x)
  get_elem?-some [] i h = absurd (omega (arith, h))
  get_elem?-some (x ∷ xs) zero h = (x, refl)
  get_elem?-some (x ∷ xs) (suc i) h = get_elem?-some xs i (omega (arith, h))

  -- An event that is offered is carried out.
  abbrev pub Works : Event → Type 0
  Works e = IsOffered query names d e × ((t : Drill) × (step names e d ≡ some t))

  IsOffered-Works : (e : Event) → IsOffered query names d e → Works e
  unfolding step on_select handle_select
  IsOffered-Works (open_changed idx o) h =
      (h, (record d { opened = set_open idx o d.opened }, refl))
  IsOffered-Works (choose idx opt) h =
      let (name, e) = get_elem?-some names idx h.0 in
      (
        h,
        (
          _,
          ap
              (λ o.
                chosen_state
                  (close_menu idx d.opened (select_at o (drop (suc idx) names) opt d.sel)))
              e,
        ),
      )

  drilldown-IsOffered : NodesSend (IsOffered query names d) (drilldown query names d)
  unfolding drilldown NodesSend
  drilldown-IsOffered =
      let menus =
        each_from-NodesSend (IsOffered query names d) (menu query d) (length names) 0 names
          (omega arith) menu-NodesSend in
      search menus

  -- Whatever the menus show, each of their handlers opens or closes a menu that exists, or chooses one
  -- of the loaded options of a category whose menu is open; and the component carries it out: no
  -- event that can be sent makes a handler throw.
  pub drilldown-NodesSend : NodesSend Works (drilldown query names d)
  unfolding drilldown
  drilldown-NodesSend =
      NodesSend-mono (IsOffered query names d) Works IsOffered-Works (drilldown query names d)
        drilldown-IsOffered
