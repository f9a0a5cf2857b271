-- ===== src/Dashboard/Filters/Labels.antt =====
-- What the menus show and send.
use mathlib.Core.Option.{some_inj}
use mathlib.Core.List.{append-nil, map-map}
use walmart_assignment.Base.{
  ◌≡◌, refl, sym, ap, ◌∙◌, String, ℕ, zero, suc, true, false, none, some, List, [], ◌∷◌, ◌++◌, map,
  take, drop, All, get_elem?, Bool-cases, inl, inr, arith,
}
use walmart_assignment.Base.Text.{str_eq, is_truthy, includes, Distinct, eq_refl}
use walmart_assignment.Dashboard.View.{Nodes, each_from, join_nodes}
use walmart_assignment.Dashboard.View.Shown.{in_nodes, texts, in_nodes-each_eq_nil}
use walmart_assignment.Dashboard.Filters.{
  Selection, selected, delete_all, select_at, handle_select, if_empty, label, is_open, set_open,
  close_menu, on_select,
}
use walmart_assignment.Dashboard.Filters.Chain.{delete_all-selected, includes-drop, All-includes}
use walmart_assignment.Dashboard.Filters.Menus.{
  Answer, Drill, Event, choose, step, options_of, item, content, menu, drilldown, chosen_state,
}

-- The texts of the buttons that open the menus.
abbrev pub shown : Nodes Event → List (List String)
shown ns = map (λ x. texts x.1) (in_nodes "DropdownMenu.Trigger" ns)

content-Trigger : (idx : ℕ) (a : Answer) → in_nodes "DropdownMenu.Trigger" (content idx a) ≡ []
unfolding in_nodes
content-Trigger idx a = elim (Bool-cases a.is_loading) [
  | inl busy ↦ rw busy refl
  | inr idle ↦
      rw
        (
          idle,
          in_nodes-each_eq_nil "DropdownMenu.Trigger" (item idx) (options_of a.options) (λ o. refl),
        )
        refl
]

menu-shown :
    (query : ℕ → Answer) (d : Drill) (idx : ℕ) (name : String) (rest : Nodes Event)
    → shown (join_nodes (menu query d idx name) rest) ≡ (label name d.sel ∷ []) ∷ shown rest
unfolding in_nodes texts
menu-shown query d idx name rest = elim (Bool-cases (is_open idx d.opened)) [
  | inl wide ↦ rw (wide, content-Trigger idx (query idx)) refl
  | inr shut ↦ rw shut refl
]

menus-shown :
    (query : ℕ → Answer) (d : Drill) (idx : ℕ) (names : List String)
    → shown (each_from (menu query d) idx names) ≡ map (λ n. label n d.sel ∷ []) names
unfolding in_nodes
menus-shown query d idx [] = refl
menus-shown query d idx (n ∷ names) =
    menu-shown query d idx n (each_from (menu query d) (suc idx) names)
    ∙ ap (λ ls. (label n d.sel ∷ []) ∷ ls) (menus-shown query d (suc idx) names)

drilldown-shown :
    (query : ℕ → Answer) (d : Drill) (names : List String)
    → shown (drilldown query names d) ≡ map (λ n. label n d.sel ∷ []) names
unfolding drilldown in_nodes
drilldown-shown query d names =
    rw (append-nil (in_nodes "DropdownMenu.Trigger" (each_from (menu query d) 0 names)))
      (menus-shown query d 0 names)

-- The labels of categories whose entries were deleted, and of those that a choice leaves alone.
labels-deleted :
    (names later : List String) (sel : Selection)
    → All (λ n. includes n later ≡ true) names
    → map (λ n. label n (delete_all later sel)) names ≡ names
unfolding label
labels-deleted [] later sel h = refl
labels-deleted (n ∷ names) later sel (h, hs) =
    let gone : selected n (delete_all later sel) ≡ none =
      delete_all-selected n later sel ∙ rw h refl in
    rw gone (ap (λ ns. n ∷ ns) (labels-deleted names later sel hs))

get_elem?-apart :
    (x name : String) (xs : List String) (i : ℕ)
    → includes x xs ≡ false
    → get_elem? xs i ≡ some name
    → str_eq name x ≡ false
get_elem?-apart x name [] i h e = absurd (cc)
get_elem?-apart x name (y ∷ ys) zero h e =
    let same : y ≡ name = some_inj.0 e in rw (← same) (ground arith)
get_elem?-apart x name (y ∷ ys) (suc i) h e = get_elem?-apart x name ys i (ground arith) e

-- After a choice in the menu of an index: the menus before it show what they showed, it shows the
-- choice, and the later ones show their names.
labels-after :
    (names : List String) (idx : ℕ) (name value : String) (sel : Selection)
    → Distinct names
    → get_elem? names idx ≡ some name
    → is_truthy value ≡ true
    → map (λ n. label n (delete_all (drop (suc idx) names) ((name, some value) ∷ sel))) names
      ≡ map (λ n. label n sel) (take idx names) ++ value ∷ drop (suc idx) names
unfolding label
labels-after [] idx name value sel d e t = absurd (cc)
labels-after (x ∷ xs) zero name value sel (fresh, d) e t =
    let same : x ≡ name = some_inj.0 e in
    let own : selected x (delete_all xs ((name, some value) ∷ sel)) ≡ some value =
      delete_all-selected x xs ((name, some value) ∷ sel) ∙ rw (fresh, same, eq_refl name) refl in
    rw (own, t)
      (ap (λ ns. value ∷ ns)
        (labels-deleted xs xs ((name, some value) ∷ sel) (All-includes xs xs (λ n p. p))))
labels-after (x ∷ xs) (suc idx) name value sel (fresh, d) e t =
    let other : str_eq name x ≡ false = get_elem?-apart x name xs idx fresh e in
    let kept : selected x (delete_all (drop (suc idx) xs) ((name, some value) ∷ sel))
        ≡ selected x sel =
      delete_all-selected x (drop (suc idx) xs) ((name, some value) ∷ sel)
      ∙ rw (includes-drop x (suc idx) xs fresh, other) refl in
    rw kept (ap (λ ns. if_empty (selected x sel) x ∷ ns) (labels-after xs idx name value sel d e t))

-- The categories have different names. After a choice that is not empty in one of the menus, whatever
-- was chosen and open before: every menu before it shows what it showed, it shows the choice, and
-- every later one shows the name of its category again.
pub choose-shown :
    (query : ℕ → Answer) (names : List String) (idx : ℕ) (name value : String) (d : Drill)
    → Distinct names
    → get_elem? names idx ≡ some name
    → is_truthy value ≡ true
    → (t : Drill) × (step names (choose idx value) d ≡ some t)
      × (shown (drilldown query names t)
          ≡ map
              (λ n. n ∷ [])
              (map (λ n. label n d.sel) (take idx names) ++ value ∷ drop (suc idx) names))
unfolding step on_select handle_select
choose-shown query names idx name value d distinct e t =
    let after : Drill = record {
      sel = delete_all (drop (suc idx) names) ((name, some value) ∷ d.sel);
      opened = set_open idx false d.opened;
    } in
    (
      after,
      ap
          (λ o.
            chosen_state (close_menu idx d.opened (select_at o (drop (suc idx) names) value d.sel)))
          e,
      drilldown-shown query after names
          ∙ (sym (map-map _ _ names)
              ∙ ap (map (λ n. n ∷ [])) (labels-after names idx name value d.sel distinct e t)),
    )
