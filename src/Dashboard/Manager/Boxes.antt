-- ===== src/Dashboard/Manager/Boxes.antt =====
-- The check boxes that the role editor shows, and the sessions whose buttons the page shows.
use mathlib.Core.List.{append-nil}
use walmart_assignment.Base.{
  ◌≡◌, refl, ap, String, Bool, true, false, Option, none, some, List, [], ◌∷◌, map, if◌then◌else◌,
}
use walmart_assignment.Dashboard.View.{Nodes, when_some, each, tag, say}
use walmart_assignment.Dashboard.View.Shown.{
  in_nodes, flag_of, event_of, in_nodes-join_nodes, in_nodes-each_eq_nil,
}
use walmart_assignment.Dashboard.Manager.{Role}
use walmart_assignment.Dashboard.Manager.Render.{
  RoleAct, Draft, act, Act, new_role, revoke, force_mfa, Session, User, session_row, session_table,
  user_directory, user_card, loading, manager_view,
}

unfoldable pub acts : List RoleAct → Draft → Draft
acts [] d = d
acts (a ∷ rest) d = acts rest (act a d)

-- The clicks on boxes among the events.
abbrev pub clicked : List RoleAct → List String
clicked [] = []
clicked (RoleAct.toggle p ∷ rest) = p ∷ clicked rest
clicked (_ ∷ rest) = clicked rest

-- The boxes of a view: whether each is checked.
abbrev pub checks : Nodes RoleAct → List (Option Bool)
checks ns = map (λ x. flag_of "checked" x.0) (in_nodes "Checkbox" ns)

-- What the role had when the editor was opened; a new role has nothing.
abbrev pub held : Option Role → List String
held none = []
held (some r) = r.permissions

-- The buttons of a view: the event of a click, and whether it is disabled.
abbrev pub buttons : Nodes Act → List (Option Act × Option Bool)
buttons ns = map (λ x. (event_of "onClick" x.0, flag_of "disabled" x.0)) (in_nodes "Button" ns)

abbrev pub offered : Bool → Bool → List Session → List (Option Act × Option Bool)
offered revoking forcing [] = []
offered revoking forcing (s ∷ rest) =
    (some (revoke s.id), some revoking)
    ∷ (some (force_mfa s.id), some forcing)
    ∷ offered revoking forcing rest

rows-buttons :
    (revoking forcing : Bool) (sessions : List Session)
    → buttons (each (session_row revoking forcing) sessions) ≡ offered revoking forcing sessions
unfolding in_nodes event_of flag_of
rows-buttons revoking forcing [] = refl
rows-buttons revoking forcing (s ∷ rest) =
    ap (λ bs. (some (revoke s.id), some revoking) ∷ (some (force_mfa s.id), some forcing) ∷ bs)
      (rows-buttons revoking forcing rest)

user_card-Button : (u : User) → in_nodes {E = Act} "Button" (user_card u) ≡ []
unfolding in_nodes
user_card-Button u =
    rw
      (in_nodes-each_eq_nil {E = Act} "Button" (λ r. tag "Badge" [] (say r ∷ [])) u.roles
        (λ r. refl))
      refl

user_directory-Button :
    (users : List User) → in_nodes {E = Act} "Button" (user_directory users) ≡ []
unfolding user_directory in_nodes
user_directory-Button users =
    rw (in_nodes-each_eq_nil {E = Act} "Button" user_card users user_card-Button) refl

directory-Button :
    (users_loading : Bool) (users : Option (List User))
    → in_nodes {E = Act} "Button"
        (if users_loading then loading else when_some users user_directory)
      ≡ []
unfolding in_nodes
directory-Button true users = refl
directory-Button false none = refl
directory-Button false (some users) = user_directory-Button users

session_table-buttons :
    (revoking forcing : Bool) (sessions : List Session)
    → buttons (session_table revoking forcing sessions) ≡ offered revoking forcing sessions
unfolding session_table in_nodes
session_table-buttons revoking forcing sessions =
    let alone = append-nil (in_nodes "Button" (each (session_row revoking forcing) sessions)) in
    rw (alone, alone) (rows-buttons revoking forcing sessions)

-- The page, with its sessions loaded, has one button for a new role and then two for each session in
-- order: they revoke and ask for a second factor for the session of their own row, and while one
-- request of a kind is pending, the buttons of this kind are disabled in all rows.
pub manager_view-buttons :
    (users_loading : Bool) (users : Option (List User)) (revoking forcing : Bool)
    (sessions : List Session)
    → buttons (manager_view users_loading users revoking forcing (some sessions))
      ≡ (some new_role, none) ∷ offered revoking forcing sessions
unfolding manager_view in_nodes event_of flag_of
manager_view-buttons users_loading users revoking forcing sessions =
    let alone = append-nil (in_nodes "Button" (session_table revoking forcing sessions)) in
    rw
      (
        in_nodes-join_nodes {E = Act} "Button"
            (if users_loading then loading else when_some users user_directory),
        directory-Button users_loading users,
        alone,
        alone,
      )
      (ap (λ bs. (some new_role, none) ∷ bs) (session_table-buttons revoking forcing sessions))
