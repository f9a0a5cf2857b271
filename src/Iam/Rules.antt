-- ===== src/Iam/Rules.antt =====
-- iam-service/src/routes/rules.ts: listing, creating, updating and deleting attribute rules.
-- Prisma, zod, json-logic and the message bus of `app.locals` are parameters.
use walmart_assignment.Base.{
  ◌≡◌, String, ℕ, suc, Bool, true, false, not, Option, none, some, if◌then◌else◌, arith, ◌&&◌, List,
}
use walmart_assignment.Base.Text.{is_truthy}
use walmart_assignment.Base.Json.{Json, null, bool, num, str}
use walmart_assignment.Base.Http.{Reply, respond, Body, failure, value, nothing}
use walmart_assignment.Base.Js.{Outcome, ok, thrown, Exn, Action, pure, ◌>>=◌, ◌>>◌}
use walmart_assignment.Iam.Access.{Caller, is_admin, may_read, non_empty, Page, page}

-- A row of the table; `created_at` is its ISO text.
pub record Rule : Type 0 where
  pub id : String
  pub name : String
  pub target : String
  pub json_logic : Json
  pub created_at : String

-- `createSchema` and its partial form. A missing `json_logic` passes `z.any()`.
pub record RuleInput : Type 0 where
  pub name : String
  pub target : String
  pub json_logic : Option Json

pub record RulePatch : Type 0 where
  pub name : Option String
  pub target : Option String
  pub json_logic : Option Json

pub record RuleQuery : Type 0 where
  pub search : Option String
  pub cursor : Option String
  pub limit : ℕ

-- `apply` is json-logic on the empty object; `is_zero` tells the falsy numbers by their text.
pub record RuleServices (Query Input W : Type 0) : Type 0 where
  pub apply : Option Json → Outcome Json
  pub is_zero : String → Bool
  pub parse_query : Query → Option RuleQuery
  pub parse_create : Input → Option RuleInput
  pub parse_update : Input → Option RulePatch
  pub find_many : Option String → Option String → ℕ → Action W (List Rule)
  pub create : RuleInput → Action W Rule
  pub update : String → RulePatch → Action W Rule
  pub delete : String → Action W (Unit {0})
  pub publish : Option (Rule → Action W (Unit {0}))
  pub publish_deleted : Option (String → Action W (Unit {0}))

pub data RuleView : Type 0 where
  page_of : Page Rule → RuleView
  rule_of : Rule → RuleView

abbrev pub Answer : Type 0
Answer = Reply (Body RuleView)

abbrev notify_bus : {V W : Type 0} → Option (V → Action W (Unit {0})) → V → Action W (Unit {0})
notify_bus none v = pure tt
notify_bus (some send) v = send v

abbrev pub forbidden : Answer
forbidden = respond 403 (failure "Forbidden")

abbrev pub bad_request : Answer
bad_request = respond 400 (failure "Bad Request")

-- What a listing shows of a row.
abbrev pub rule_item : Rule → Rule
rule_item x = record {
  id = x.id;
  name = x.name;
  target = x.target;
  json_logic = x.json_logic;
  created_at = x.created_at;
}

module _ {Query Input W : Type 0} (r : RuleServices Query Input W) where
  pub validate_logic : Option Json → Bool
  validate_logic rule = elim (r.apply rule) [ ok _ ↦ true | thrown _ ↦ false ]

  -- JavaScript's truth of `parsed.data.json_logic`.
  abbrev truthy_logic : Option Json → Bool
  truthy_logic none = false
  truthy_logic (some null) = false
  truthy_logic (some (bool b)) = b
  truthy_logic (some (num n)) = not (r.is_zero n)
  truthy_logic (some (str s)) = is_truthy s
  truthy_logic (some _) = true

  list_parsed : Option RuleQuery → Caller → Action W Answer
  list_parsed none auth = pure bad_request
  list_parsed (some q) auth =
      if may_read "iam:rules:read" auth
      then (do
        list ← r.find_many (non_empty q.search) (non_empty q.cursor) (suc q.limit)
        pure (respond 200 (value (page_of (page (λ x. x.id) rule_item q.limit list)))))
      else pure forbidden

  pub list_rules : Query → Caller → Action W Answer
  unfolding list_parsed
  list_rules query auth = list_parsed (r.parse_query query) auth

  store : RuleInput → Action W Answer
  store input = do
    rule ← r.create input
    notify_bus r.publish rule
    pure (respond 200 (value (rule_of rule)))

  store_parsed : Option RuleInput → Action W Answer
  store_parsed none = pure bad_request
  store_parsed (some input) =
      if validate_logic input.json_logic then store input else pure bad_request

  pub create_rule : Input → Caller → Action W Answer
  unfolding store store_parsed
  create_rule body auth =
      if is_admin auth then store_parsed (r.parse_create body) else pure forbidden

  change : String → RulePatch → Action W Answer
  change id patch = do
    rule ← r.update id patch
    notify_bus r.publish rule
    pure (respond 200 (value (rule_of rule)))

  change_parsed : String → Option RulePatch → Action W Answer
  change_parsed id none = pure bad_request
  change_parsed id (some patch) =
      if truthy_logic patch.json_logic && not (validate_logic patch.json_logic)
      then pure bad_request
      else change id patch

  pub update_rule : String → Input → Caller → Action W Answer
  unfolding change change_parsed
  update_rule id body auth =
      if is_admin auth then change_parsed id (r.parse_update body) else pure forbidden

  pub delete_rule : String → Caller → Action W Answer
  delete_rule id auth =
      if is_admin auth
      then (do r.delete id; notify_bus r.publish_deleted id; pure (respond 204 nothing))
      else pure forbidden

  -- A rule that json-logic cannot evaluate is never stored: by an administrator too, creating it and
  -- giving it to an existing rule (as a truthy value) are refused with 400, before the store
  -- and the bus are called.
  pub broken_rule_refused :
      (id : String) (body : Input) (auth : Caller) (input : RuleInput) (patch : RulePatch) (e : Exn)
      (w : W)
      → is_admin auth ≡ true
      → r.parse_create body ≡ some input
      → r.parse_update body ≡ some patch
      → input.json_logic ≡ patch.json_logic
      → truthy_logic patch.json_logic ≡ true
      → r.apply patch.json_logic ≡ thrown e
      → (create_rule body auth w ≡ (ok bad_request, w))
        × (update_rule id body auth w ≡ (ok bad_request, w))
  unfolding create_rule update_rule validate_logic
  broken_rule_refused id body auth input patch e w admin p q same given broken =
      (ground arith, ground arith)
