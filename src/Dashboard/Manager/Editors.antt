-- ===== src/Dashboard/Manager/Editors.antt =====
-- Which dialogs the page can open.
use walmart_assignment.Base.{◌≡◌, refl, none, some, List, [], ◌∷◌, ◌⊎◌, inl, inr}
use walmart_assignment.Dashboard.Manager.{
  Role, Page, start, Event, new_role, close_role, close_rule, step, run, role_editor, rule_builder,
}

abbrev pub new : Role
new = record { id = ""; name = ""; permissions = [] }

-- Nothing is edited but a new role.
abbrev IsCreating : Page → Type 0
IsCreating p = ((p.editing_role ≡ none) ⊎ (p.editing_role ≡ some new)) × (p.editing_rule ≡ none)

run-IsCreating : (es : List Event) (p : Page) → IsCreating p → IsCreating (run es p)
unfolding run
run-IsCreating [] p h = h
run-IsCreating (new_role ∷ es) p (r, u) = run-IsCreating es (step new_role p) (inr refl, u)
run-IsCreating (close_role ∷ es) p (r, u) = run-IsCreating es (step close_role p) (inl refl, u)
run-IsCreating (close_rule ∷ es) p (r, u) = run-IsCreating es (step close_rule p) (r, refl)

-- Whatever is clicked and closed on the page: the editor of rules is never shown, and the editor of
-- roles, where it is shown, is given no role to edit and so makes a new one.
pub run-role_editor :
    (es : List Event)
    → ((role_editor (run es start) ≡ none) ⊎ (role_editor (run es start) ≡ some none))
      × (rule_builder (run es start) ≡ none)
unfolding role_editor rule_builder
run-role_editor es =
    let (role, rule) = run-IsCreating es start (inl refl, refl) in
    (elim role [ inl r ↦ inl (rw r refl) | inr r ↦ inr (rw r refl) ], rw rule refl)
