-- ===== src/Iam/Roles.antt =====
-- iam-service/src/routes/roles.ts: listing, creating, updating and deleting roles.
-- Prisma, zod, the clock and the message bus of `app.locals` are parameters.
use walmart_assignment.Base.{
  ◌≡◌, String, ℕ, suc, ◌≤◌, Bool, true, false, Option, none, some, List, ◌∷◌, ◌++◌, map,
  if◌then◌else◌, length, take, filter_by,
}
use walmart_assignment.Base.Text.{is_truthy}
use walmart_assignment.Base.Http.{Reply, respond, Body, failure, value, nothing}
use walmart_assignment.Base.Js.{ok, Action, pure, ◌>>=◌, ◌>>◌}
use walmart_assignment.Iam.Access.{
  Caller, is_admin, may_read, non_empty, Page, page, IsCut, page_full, page_last, filter_by-IsCut,
}

-- A row of the table; `created_at` is its ISO text.
pub record Role : Type 0 where
  pub id : String
  pub name : String
  pub description : Option String
  pub permissions : List String
  pub created_at : String

-- What a listing shows of a row.
abbrev pub role_item : Role → Role
role_item x = record {
  id = x.id;
  name = x.name;
  description = x.description;
  permissions = x.permissions;
  created_at = x.created_at;
}

-- `createSchema` and its partial form.
pub record RoleInput : Type 0 where
  pub name : String
  pub description : Option String
  pub permissions : List String

pub record RolePatch : Type 0 where
  pub name : Option String
  pub description : Option String
  pub permissions : Option (List String)

-- `querySchema`, after its default limit.
pub record RoleQuery : Type 0 where
  pub search : Option String
  pub cursor : Option String
  pub limit : ℕ

-- `find_many search cursor n` is the query of the rows not deleted, in the order of their ids, those
-- whose name contains the search and whose id is behind the cursor, at most `n`; the clock is part of
-- `delete`. `publish` is missing where the application has no bus.
pub record RoleServices (Query Input W : Type 0) : Type 0 where
  pub parse_query : Query → Option RoleQuery
  pub parse_create : Input → Option RoleInput
  pub parse_update : Input → Option RolePatch
  pub find_many : Option String → Option String → ℕ → Action W (List Role)
  pub create : RoleInput → Action W Role
  pub update : String → RolePatch → Action W Role
  pub delete : String → Action W (Unit {0})
  pub publish : Option (Role → Action W (Unit {0}))
  pub publish_deleted : Option (String → Action W (Unit {0}))

pub data RoleView : Type 0 where
  page_of : Page Role → RoleView
  role_of : Role → RoleView

abbrev pub Answer : Type 0
Answer = Reply (Body RoleView)

-- `req.app.locals.kafka?.publish(...)`.
abbrev notify_bus : {V W : Type 0} → Option (V → Action W (Unit {0})) → V → Action W (Unit {0})
notify_bus none v = pure tt
notify_bus (some send) v = send v

-- The answer that shows a page.
abbrev pub shown : Page Role → Answer
shown p = respond 200 (value (page_of p))

abbrev pub forbidden : Answer
forbidden = respond 403 (failure "Forbidden")

abbrev bad_request : Answer
bad_request = respond 400 (failure "Bad Request")

module _ {Query Input W : Type 0} (r : RoleServices Query Input W) where
  list_page : RoleQuery → Action W Answer
  list_page q = do
    list ← r.find_many (non_empty q.search) (non_empty q.cursor) (suc q.limit)
    pure (shown (page (λ x. x.id) role_item q.limit list))

  list_parsed : Option RoleQuery → Caller → Action W Answer
  list_parsed none auth = pure bad_request
  list_parsed (some q) auth = if may_read "iam:roles:read" auth then list_page q else pure forbidden

  pub list_roles : Query → Caller → Action W Answer
  unfolding list_parsed list_page
  list_roles query auth = list_parsed (r.parse_query query) auth

  store : RoleInput → Action W Answer
  store input = do
    role ← r.create input
    notify_bus r.publish role
    pure (respond 200 (value (role_of role)))

  store_parsed : Option RoleInput → Action W Answer
  store_parsed none = pure bad_request
  store_parsed (some input) = store input

  pub create_role : Input → Caller → Action W Answer
  unfolding store store_parsed
  create_role body auth =
      if is_admin auth then store_parsed (r.parse_create body) else pure forbidden

  change : String → RolePatch → Action W Answer
  change id patch = do
    role ← r.update id patch
    notify_bus r.publish role
    pure (respond 200 (value (role_of role)))

  change_parsed : String → Option RolePatch → Action W Answer
  change_parsed id none = pure bad_request
  change_parsed id (some patch) = change id patch

  pub update_role : String → Input → Caller → Action W Answer
  unfolding change change_parsed
  update_role id body auth =
      if is_admin auth then change_parsed id (r.parse_update body) else pure forbidden

  remove : String → Action W Answer
  remove id = do r.delete id; notify_bus r.publish_deleted id; pure (respond 204 nothing)

  pub delete_role : String → Caller → Action W Answer
  unfolding remove
  delete_role id auth = if is_admin auth then remove id else pure forbidden

  -- Without the role `admin` no handler that changes a role touches the store or the bus: each
  -- answers 403, whatever the request's body.
  pub roles-need-admin :
      (id : String) (body : Input) (auth : Caller) (w : W)
      → is_admin auth ≡ false
      → (create_role body auth w ≡ (ok forbidden, w))
        × (update_role id body auth w ≡ (ok forbidden, w))
        × (delete_role id auth w ≡ (ok forbidden, w))
  unfolding create_role update_role delete_role
  roles-need-admin id body auth w h = (rw h, rw h, rw h)

  -- The answer to a query for the rows behind a cursor, from a table in the order of the ids.
  abbrev pub Answers : (String → Role → Bool) → List Role → W → Type 0
  Answers behind rows w =
      ((n : ℕ) → r.find_many none none n w ≡ (ok (take n rows), w))
      × ((c : String) (n : ℕ)
          → r.find_many none (some c) n w ≡ (ok (take n (filter_by (behind c) rows)), w))

  -- A role is missing from the listing. Where more roles are left than the first page's limit, that
  -- page shows those before the role `m` and gives the id of `m` as its cursor; the page behind that
  -- cursor, large enough for the rest, begins after `m`. So `m` is on neither page.
  pub list_roles_skips :
      (first second : Query) (auth : Caller) (behind : String → Role → Bool) (xs ys : List Role)
      (m : Role) (n : ℕ) (w : W)
      → may_read "iam:roles:read" auth ≡ true
      → is_truthy m.id ≡ true
      → Answers behind (xs ++ m ∷ ys) w
      → IsCut (behind m.id) xs m ys
      → length ys ≤ n
      → r.parse_query first ≡ some (record { search = none; cursor = none; limit = length xs })
      → r.parse_query second ≡ some (record { search = none; cursor = some m.id; limit = n })
      → (list_roles first auth w
          ≡ (ok (shown (record { items = map role_item xs; next = some m.id })), w))
        × (list_roles second auth w
            ≡ (ok (shown (record { items = map role_item ys; next = none })), w))
  unfolding list_roles
  list_roles_skips first second auth behind xs ys m n w allowed named table cut fits q₁ q₂ = (
    rw (q₁, allowed, table.0 (suc (length xs)), page_full (λ x. x.id) role_item xs ys m),
    rw (
      q₂,
      allowed,
      named,
      table.1 m.id (suc n),
      filter_by-IsCut (behind m.id) xs m ys cut,
      page_last (λ x. x.id) role_item n ys fits,
    ),
  )
