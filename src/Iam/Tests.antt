-- ===== src/Iam/Tests.antt =====
-- Requests to the role, rule and session handlers.
use walmart_assignment.Base.{
  ◌≡◌, refl, String, ℕ, ◌+◌, Bool, true, false, ◌&&◌, ◌||◌, Option, none, some, List, [], ◌∷◌, map,
  take, filter_by, arith,
}
use walmart_assignment.Base.Text.{str_eq}
use walmart_assignment.Base.Json.{Json, Items}
use walmart_assignment.Base.Http.{respond, nothing}
use walmart_assignment.Base.Js.{ok}
use walmart_assignment.Iam.Access.{Caller, is_admin, may_read, IsCut}
use walmart_assignment.Iam.Roles.{
  Role, RoleServices, shown, role_item, list_roles, list_roles_skips, Answers,
}
use walmart_assignment.Iam.Rules.{Rule}
use walmart_assignment.Iam.Sessions.{
  Session, same_text, SessionServices, Sessions, delete_session, delete_session_foreign,
}

abbrev reader : Caller
reader = record { sub = some "ann"; roles = some []; permissions = some ("iam:roles:read" ∷ []) }

abbrev admin : Caller
admin = record { sub = some "root"; roles = some ("admin" ∷ []); permissions = none }

abbrev role : String → Role
role id = record { id = id; name = id; description = none; permissions = []; created_at = "noon" }

abbrev after : String → Role → Bool
after c r = str_eq c "b" && str_eq r.id "c"

abbrev table : List Role
table = role "a" ∷ role "b" ∷ role "c" ∷ []

abbrev rows_after : Option String → List Role
rows_after none = table
rows_after (some c) = filter_by (after c) table

-- A request's query is its cursor.
abbrev roles : RoleServices (Option String) (Unit {0}) ℕ
roles = record {
  parse_query = λ q. some (record { search = none; cursor = q; limit = 1 });
  parse_create = λ body. none;
  parse_update = λ body. none;
  find_many = λ search cursor n w. (ok (take n (rows_after cursor)), w);
  create = λ input w. (ok (role input.name), w + 1);
  update = λ id patch w. (ok (role id), w + 1);
  delete = λ id w. (ok tt, w + 1);
  publish = none;
  publish_deleted = none;
}

reader-eq-plain : is_admin reader ≡ false
unfolding is_admin
reader-eq-plain = refl

reader_may : may_read "iam:roles:read" reader ≡ true
unfolding may_read is_admin
reader_may = refl

roles-Answers : Answers roles after table 0
roles-Answers = (λ n. refl, λ c n. refl)

table-IsCut : IsCut (after "b") (role "a" ∷ []) (role "b") (role "c" ∷ [])
table-IsCut = record { before = (refl, tt); at = refl; after = (refl, tt) }

-- The role `b` is on neither page.
list_roles_skips_example :
    (list_roles roles none reader 0
      ≡ (ok (shown (record { items = map role_item (role "a" ∷ []); next = some "b" })), 0))
    × (list_roles roles (some "b") reader 0
        ≡ (ok (shown (record { items = map role_item (role "c" ∷ []); next = none })), 0))
list_roles_skips_example =
    list_roles_skips roles none (some "b") reader after (role "a" ∷ []) (role "c" ∷ []) (role "b") 1
      0 reader_may refl roles-Answers table-IsCut (omega arith) refl refl

abbrev broken : Json
broken = Json.arr Items.nil

abbrev rule : Rule
rule = record { id = "r"; name = "r"; target = "t"; json_logic = broken; created_at = "noon" }

admin-eq-admin : is_admin admin ≡ true
unfolding is_admin
admin-eq-admin = refl

abbrev session : Session
session = record {
  jti = "t1";
  user_id = "bob";
  ip = "";
  ua = "";
  created_at = "noon";
  last_seen = none;
  revoked = false;
}

abbrev store : SessionServices (Unit {0}) (Unit {0}) ℕ
store = record {
  parse_query = λ q. none;
  parse_date = λ d. none;
  find_many = λ user before n w. (ok [], w);
  find_unique = λ jti w. (ok (some session), w);
  redis_setex = λ key ttl v w. (ok tt, w + 1);
  mark_revoked = λ jti w. (ok tt, w + 1);
}

abbrev fresh : Sessions ℕ
fresh = record { revoked_total = 0; world = 0 }

delete_session_foreign_example :
    delete_session store "t1" reader fresh ≡ (ok (respond 403 nothing), fresh)
delete_session_foreign_example =
    delete_session_foreign store "t1" reader session fresh 0 refl refl reader-eq-plain refl

admin_may : (is_admin admin || same_text admin.sub (some "bob")) ≡ true
unfolding is_admin
admin_may = refl
