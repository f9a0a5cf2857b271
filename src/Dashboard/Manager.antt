-- ===== src/Dashboard/Manager.antt =====
-- ui-dashboard/pages/IAMManager.tsx: the editors of roles and rules, the sessions, and which editor is
-- open. The requests, `JSON.parse` and the rendering are parameters or left out.
pub mod Permissions
pub mod Editors
pub mod Render
pub mod Boxes
mod Tests
use walmart_assignment.Base.{
  String, ℕ, ◌+◌, Bool, true, false, not, Option, none, some, List, [], ◌∷◌, ◌++◌, filter_by,
  if◌then◌else◌,
}
use walmart_assignment.Base.Text.{str_eq, ◌&◌, is_truthy, includes}
use walmart_assignment.Base.Json.{Json, obj}
use walmart_assignment.Base.Js.{Outcome, ok, thrown, Action, error}

pub record Role : Type 0 where
  pub id : String
  pub name : String
  pub permissions : List String

pub record Rule : Type 0 where
  pub id : String
  pub code : String

-- A dialog: whether it closed itself, and how often it had its list loaded again.
pub record Dialog : Type 0 where
  pub is_closed : Bool
  pub invalidated : ℕ

-- What a mutation without `onError` does when its function is done.
unfoldable pub settled : Outcome ℕ → Dialog → Dialog
settled (ok status) d = record { is_closed = true; invalidated = d.invalidated + 1 }
settled (thrown e) d = d

abbrev pub method_of : {A : Type 0} → Option A → String
method_of none = "POST"
method_of (some a) = "PUT"

-- `togglePermission`.
unfoldable pub toggle_permission : String → List String → List String
toggle_permission p perms =
    if includes p perms then filter_by (λ x. not (str_eq x p)) perms else perms ++ (p ∷ [])

abbrev pub role_url : Option Role → String
role_url none = "/api/roles"
role_url (some role) = "/api/roles/" & role.id

abbrev pub rule_url : Option Rule → String
rule_url none = "/api/rules"
rule_url (some rule) = "/api/rules/" & rule.id

abbrev pub mutate : {W : Type 0} → Action W ℕ → Dialog → W → Dialog × W
mutate m d w = let (r, u) = m w in (settled r d, u)

-- `Fetch B W` sends a method, a path and a body, and gives the status of the answer.
abbrev pub Fetch : Type 0 → Type 0 → Type 0
Fetch B W = String → String → Option B → Action W ℕ

-- `RoleEditor`.
unfoldable pub save_role :
    {W : Type 0}
    → Fetch (String × List String) W
    → Option Role
    → String
    → List String
    → Dialog
    → W
    → Dialog × W
save_role fetch role name permissions =
    mutate (fetch (method_of role) (role_url role) (some (name, permissions)))

-- `jsonLogicSchema`, which takes any object.
abbrev pub is_record : Json → Bool
is_record (obj fs) = true
is_record _ = false

-- `RuleBuilder`; `parse` is `JSON.parse`, and `none` that it throws. The text of the schema's error,
-- which nobody reads, is short here.
abbrev pub rule_body : Option Json → Outcome Json
rule_body none = thrown (error "Invalid JSON")
rule_body (some json) = if is_record json then ok json else thrown (error "Expected object")

abbrev pub send_rule : {W : Type 0} → Fetch Json W → Option Rule → Outcome Json → Action W ℕ
send_rule fetch rule (thrown e) w = (thrown e, w)
send_rule fetch rule (ok json) w = fetch (method_of rule) (rule_url rule) (some json) w

unfoldable pub save_rule :
    {W : Type 0}
    → (String → Option Json)
    → Fetch Json W
    → Option Rule
    → String
    → Dialog
    → W
    → Dialog × W
save_rule parse fetch rule code = mutate (send_rule fetch rule (rule_body (parse code)))

-- `SessionTable`: revoking loads the sessions again; forcing a second factor does not.
abbrev refreshed : Outcome ℕ → ℕ → ℕ
refreshed (ok status) n = n + 1
refreshed (thrown e) n = n

unfoldable pub revoke : {W : Type 0} → Fetch (Unit {0}) W → String → ℕ → W → ℕ × W
revoke fetch id invalidated w =
    let (r, u) = fetch "DELETE" ("/api/sessions/" & id) none w in (refreshed r invalidated, u)

unfoldable pub force_mfa : {W : Type 0} → Fetch (Unit {0}) W → String → Action W ℕ
force_mfa fetch id = fetch "POST" ("/api/sessions/" & id & "/mfa") none

-- `IAMManager`: the role and the rule that are being edited.
pub record Page : Type 0 where
  pub editing_role : Option Role
  pub editing_rule : Option Rule

abbrev pub start : Page
start = record { editing_role = none; editing_rule = none }

-- The button `New Role`, and the `onClose` of the two dialogs.
pub data Event : Type 0 where
  new_role close_role close_rule : Event

abbrev pub step : Event → Page → Page
step new_role p = record p { editing_role = some (record { id = ""; name = ""; permissions = [] }) }
step close_role p = record p { editing_role = none }
step close_rule p = record p { editing_rule = none }

unfoldable pub run : List Event → Page → Page
run [] p = p
run (e ∷ es) p = run es (step e p)

-- The dialogs that are rendered: `none` if there is none, and otherwise the `role` or `rule` it gets.
abbrev pub given : {A : Type 0} → (A → String) → Option A → Option (Option A)
given id_of none = none
given id_of (some a) = some (if is_truthy (id_of a) then some a else none)

unfoldable pub role_editor : Page → Option (Option Role)
role_editor p = given (λ r. r.id) p.editing_role

unfoldable pub rule_builder : Page → Option (Option Rule)
rule_builder p = given (λ r. r.id) p.editing_rule
