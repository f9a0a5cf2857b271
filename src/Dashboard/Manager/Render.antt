-- ===== src/Dashboard/Manager/Render.antt =====
-- ui-dashboard/pages/IAMManager.tsx: what the page and its dialogs render.
use walmart_assignment.Base.{String, Bool, true, Option, none, some, List, [], ◌∷◌, if◌then◌else◌}
use walmart_assignment.Base.Text.{includes}
use walmart_assignment.Dashboard.View.{
  Nodes, attr, count, flag, on, on_text, on_flag, tag, say, when_some, each,
}
use walmart_assignment.Dashboard.Manager.{
  Role, Rule, Page, role_editor, rule_builder, toggle_permission,
}

pub record User : Type 0 where
  pub id : String
  pub name : String
  pub email : String
  pub roles : List String

pub record Session : Type 0 where
  pub id : String
  pub user_id : String
  pub ip : String
  pub active : Bool

-- The events of a dialog.
pub data RoleAct : Type 0 where
  close save : RoleAct
  set_name toggle : String → RoleAct

pub data RuleAct : Type 0 where
  close save : RuleAct
  set_code : String → RuleAct

-- The events of the page.
pub data Act : Type 0 where
  new_role : Act
  revoke force_mfa : String → Act

-- The state of `RoleEditor`.
pub record Draft : Type 0 where
  pub name : String
  pub permissions : List String

-- `useState(role?.name || '')` and `useState(role?.permissions || [])`.
unfoldable pub draft_of : Option Role → Draft
draft_of none = record { name = ""; permissions = [] }
draft_of (some r) = record { name = r.name; permissions = r.permissions }

unfoldable pub act : RoleAct → Draft → Draft
act (RoleAct.set_name t) d = record d { name = t }
act (RoleAct.toggle p) d = record d { permissions = toggle_permission p d.permissions }
act RoleAct.close d = d
act RoleAct.save d = d

abbrev pub loading : {E : Type 0} → Nodes E
loading = tag "div" (attr "className" "flex justify-center p-4" ∷ []) (
    tag "div"
      (attr "className"
          "h-8 w-8 animate-spin rounded-full border-4 border-blue-500 border-t-transparent"
        ∷ [])
      []
    ∷ [])

abbrev pub user_card : {E : Type 0} → User → Nodes E
user_card u = tag "Card" (attr "className" "p-4 space-y-1" ∷ []) (
    tag "h3" (attr "className" "font-semibold text-sm" ∷ []) (say u.name ∷ [])
    ∷ tag "p" (attr "className" "text-xs text-gray-500 dark:text-gray-400" ∷ []) (say u.email ∷ [])
    ∷ tag "div" (attr "className" "flex flex-wrap gap-1" ∷ [])
        (each (λ r. tag "Badge" [] (say r ∷ [])) u.roles ∷ [])
    ∷ [])

unfoldable pub user_directory : {E : Type 0} → List User → Nodes E
user_directory users =
    tag "Grid" (attr "className" "gap-4 grid-cols-1 sm:grid-cols-2 md:grid-cols-3" ∷ [])
      (each user_card users ∷ [])

abbrev pub checkbox : List String → String → Nodes RoleAct
checkbox permissions p = tag "label" (attr "className" "flex items-center gap-2 text-sm" ∷ []) (
    tag "Checkbox"
      (flag "checked" (includes p permissions)
        ∷ on_flag "onCheckedChange" (λ _. RoleAct.toggle p)
        ∷ [])
      []
    ∷ say p
    ∷ [])

abbrev pub all_permissions : List String
all_permissions = "read" ∷ "write" ∷ "delete" ∷ "admin" ∷ []

abbrev pub save_button : {E : Type 0} → Bool → Nodes E
save_button is_pending =
    tag "Button" (attr "type" "submit" ∷ flag "disabled" is_pending ∷ [])
      (say (if is_pending then "Saving..." else "Save") ∷ [])

abbrev pub title : {A E : Type 0} → Option A → String → String → Nodes E
title none edit create = tag "Dialog.Title" [] (say create ∷ [])
title (some a) edit create = tag "Dialog.Title" [] (say edit ∷ [])

-- `RoleEditor`, open.
unfoldable pub role_editor_view : Option Role → Draft → Bool → Nodes RoleAct
role_editor_view role d is_pending =
    tag "Dialog" (flag "open" true ∷ on_flag "onOpenChange" (λ _. RoleAct.close) ∷ []) (
      tag "Dialog.Content" [] (
        title role "Edit Role" "Create Role"
        ∷ tag "Form" (on "onSubmit" RoleAct.save ∷ []) (
            tag "div" (attr "className" "space-y-2" ∷ []) (
              tag "label" (attr "className" "flex flex-col gap-1" ∷ []) (
                tag "span" [] (say "Role Name" ∷ [])
                ∷ tag "Input"
                    (attr "value" d.name ∷ on_text "onChange" (λ t. RoleAct.set_name t) ∷ []) []
                ∷ [])
              ∷ tag "div" (attr "className" "space-y-1" ∷ []) (
                  tag "span" [] (say "Permissions" ∷ [])
                  ∷ tag "div" (attr "className" "grid grid-cols-2 gap-2" ∷ [])
                      (each (checkbox d.permissions) all_permissions ∷ [])
                  ∷ [])
              ∷ save_button is_pending
              ∷ [])
            ∷ [])
        ∷ [])
      ∷ [])

-- `RuleBuilder`, open.
unfoldable pub rule_builder_view : Option Rule → String → Bool → Nodes RuleAct
rule_builder_view rule code is_pending =
    tag "Dialog" (flag "open" true ∷ on_flag "onOpenChange" (λ _. RuleAct.close) ∷ []) (
      tag "Dialog.Content" (attr "className" "space-y-2" ∷ []) (
        title rule "Edit Rule" "Create Rule"
        ∷ tag "Form" (on "onSubmit" RuleAct.save ∷ []) (
            tag "Textarea"
              (attr "value" code
                ∷ on_text "onChange" (λ t. RuleAct.set_code t)
                ∷ count "rows" 10
                ∷ attr "className" "font-mono"
                ∷ [])
              []
            ∷ save_button is_pending
            ∷ [])
        ∷ [])
      ∷ [])

abbrev pub row_button : Act → Bool → String → Nodes Act
row_button click is_pending label =
    tag "Button" (attr "size" "sm" ∷ on "onClick" click ∷ flag "disabled" is_pending ∷ [])
      (say label ∷ [])

abbrev pub session_row : Bool → Bool → Session → Nodes Act
session_row revoking forcing s = tag "tr" [] (
    tag "td" [] (say s.user_id ∷ [])
    ∷ tag "td" [] (say s.ip ∷ [])
    ∷ tag "td" (attr "className" "space-x-2" ∷ []) (
        row_button (revoke s.id) revoking "Revoke"
        ∷ row_button (force_mfa s.id) forcing "Force MFA"
        ∷ [])
    ∷ [])

-- `SessionTable`, with `revoke.isPending` and `forceMfa.isPending`.
unfoldable pub session_table : Bool → Bool → List Session → Nodes Act
session_table revoking forcing sessions = tag "Table" [] (
    tag "thead" [] (
      tag "tr" [] (
        tag "th" [] (say "User" ∷ [])
        ∷ tag "th" [] (say "IP" ∷ [])
        ∷ tag "th" [] (say "Actions" ∷ [])
        ∷ [])
      ∷ [])
    ∷ tag "tbody" [] (each (session_row revoking forcing) sessions ∷ [])
    ∷ [])

-- The page without its dialogs; `users` and `sessions` are the data of the two queries.
unfoldable pub manager_view :
    Bool → Option (List User) → Bool → Bool → Option (List Session) → Nodes Act
manager_view users_loading users revoking forcing sessions =
    tag "div" (attr "className" "space-y-6 p-4" ∷ []) (
      tag "div" (attr "className" "flex justify-between items-center" ∷ []) (
        tag "h2" (attr "className" "text-lg font-semibold" ∷ []) (say "User Directory" ∷ [])
        ∷ tag "Button" (on "onClick" new_role ∷ []) (say "New Role" ∷ [])
        ∷ [])
      ∷ (if users_loading then loading else when_some users user_directory)
      ∷ when_some sessions (λ ss. tag "Card" (attr "className" "p-4 space-y-2" ∷ []) (
          tag "h2" (attr "className" "text-lg font-semibold" ∷ []) (say "Active Sessions" ∷ [])
          ∷ session_table revoking forcing ss
          ∷ []))
      ∷ [])

-- The dialogs of the page: `role` and `rule` are those that are edited.
unfoldable pub role_dialog : Page → Draft → Bool → Nodes RoleAct
role_dialog p d is_pending = when_some (role_editor p) (λ role. role_editor_view role d is_pending)

unfoldable pub rule_dialog : Page → String → Bool → Nodes RuleAct
rule_dialog p code is_pending =
    when_some (rule_builder p) (λ rule. rule_builder_view rule code is_pending)
