-- ===== src/Iam/Sessions.antt =====
-- iam-service/src/routes/sessions.ts: listing and revoking sessions.
-- Prisma, zod, Redis, the clock and dates are parameters; the log line is left out.
pub mod Revoked
use walmart_assignment.Base.{
  ◌≡◌, String, ℕ, suc, Bool, true, false, ◌||◌, Option, none, some, if◌then◌else◌, arith,
  Bool-cases, ◌+◌, List, inl, inr,
}
use walmart_assignment.Base.Text.{◌&◌, str_eq, is_truthy}
use walmart_assignment.Base.Http.{Reply, next, respond, Body, failure, value, nothing}
use walmart_assignment.Base.Js.{ok, Action, pure, Run-cases, ◌>>=◌, ◌>>◌}
use walmart_assignment.Iam.Access.{Caller, is_admin, Page, page}

-- A row of `sessions`; times are ISO texts.
pub record Session : Type 0 where
  pub jti : String
  pub user_id : String
  pub ip : String
  pub ua : String
  pub created_at : String
  pub last_seen : Option String
  pub revoked : Bool

pub record SessionItem : Type 0 where
  pub jti : String
  pub ip : String
  pub device : String
  pub created_at : String
  pub last_seen : Option String
  pub revoked : Bool

abbrev pub session_item : Session → SessionItem
session_item s = record {
  jti = s.jti;
  ip = s.ip;
  device = s.ua;
  created_at = s.created_at;
  last_seen = s.last_seen;
  revoked = s.revoked;
}

pub record SessionQuery : Type 0 where
  pub user_id : Option String
  pub page : Option String
  pub page_size : ℕ

-- `parse_date` is `new Date(page)` where it is a date. `find_many user before n`: at most `n` sessions
-- of the user, those created before the date, the newest first.
pub record SessionServices (Query Date W : Type 0) : Type 0 where
  pub parse_query : Query → Option SessionQuery
  pub parse_date : String → Option Date
  pub find_many : Option String → Option Date → ℕ → Action W (List Session)
  pub find_unique : String → Action W (Option Session)
  pub redis_setex : String → ℕ → String → Action W (Unit {0})
  pub mark_revoked : String → Action W (Unit {0})

-- The counter `session_revoked_total`, and the world.
pub record Sessions (W : Type 0) : Type 0 where
  pub revoked_total : ℕ
  pub world : W

abbrev pub Answer : Type 0
Answer = Reply (Body (Page SessionItem))

abbrev bad_request : Answer
bad_request = respond 400 (failure "Bad Request")

-- `a !== b`, where either may be `undefined`.
abbrev pub same_text : Option String → Option String → Bool
same_text none none = true
same_text (some a) (some b) = str_eq a b
same_text _ _ = false

-- `userId || auth.sub`.
abbrev target_of : Option String → Caller → Option String
target_of none auth = auth.sub
target_of (some u) auth = if is_truthy u then some u else auth.sub

module _ {Query Date W : Type 0} (v : SessionServices Query Date W) where
  abbrev pub on_world : {A : Type 0} → Action W A → Action (Sessions W) A
  on_world m s = let (r, w) = m s.world in (r, record s { world = w })

  list_before : Option String → ℕ → Option Date → Action (Sessions W) Answer
  list_before target size before = do
    list ← on_world (v.find_many target before (suc size))
    pure (respond 200 (value (page (λ s. s.created_at) session_item size list)))

  -- `if (page) { const d = new Date(page); ... }`.
  list_dated : Option String → ℕ → Option Date → Action (Sessions W) Answer
  list_dated target size none = pure bad_request
  list_dated target size (some d) = list_before target size (some d)

  list_page : Option String → ℕ → Option String → Action (Sessions W) Answer
  list_page target size none = list_before target size none
  list_page target size (some p) =
      if is_truthy p then list_dated target size (v.parse_date p) else list_before target size none

  list_parsed : Option SessionQuery → Caller → Action (Sessions W) Answer
  list_parsed none auth = pure bad_request
  list_parsed (some q) auth =
      if is_admin auth || same_text (target_of q.user_id auth) auth.sub
      then list_page (target_of q.user_id auth) q.page_size q.page
      else pure (respond 403 (failure "Forbidden"))

  pub list_sessions : Query → Caller → Action (Sessions W) Answer
  unfolding list_parsed list_page list_dated list_before
  list_sessions query auth = list_parsed (v.parse_query query) auth

  count_revoked : Action (Sessions W) (Unit {0})
  count_revoked s = (ok tt, record s { revoked_total = s.revoked_total + 1 })

  pub revoke : String → Action (Sessions W) (Unit {0})
  revoke jti = do
    on_world (v.redis_setex ("jwt:blacklist:" & jti) 900 "revoked")
    on_world (v.mark_revoked jti)
    count_revoked

  -- `deleteSession` from the row that was found.
  unfoldable pub delete_found : String → Caller → Option Session → Action (Sessions W) Answer
  delete_found jti auth none = pure (respond 404 nothing)
  delete_found jti auth (some s) =
      if is_admin auth || same_text auth.sub (some s.user_id)
      then (if s.revoked
          then pure (respond 204 nothing)
          else (do revoke jti; pure (respond 204 nothing)))
      else pure (respond 403 nothing)

  unfoldable pub delete_session : String → Caller → Action (Sessions W) Answer
  unfolding delete_found revoke count_revoked
  delete_session jti auth =
      if is_truthy jti
      then (do row ← on_world (v.find_unique jti); delete_found jti auth row)
      else pure bad_request

  -- The router's guard before the authorization.
  unfoldable pub require_authorization : Option String → Answer
  require_authorization none = respond 401 (failure "Unauthorized")
  require_authorization (some h) =
      if is_truthy h then next else respond 401 (failure "Unauthorized")

  -- A caller who is no administrator and does not own the session is refused with 403 and revokes
  -- nothing: the only call made is the lookup, and the counter stays.
  pub delete_session_foreign :
      (jti : String) (auth : Caller) (row : Session) (s : Sessions W) (w : W)
      → is_truthy jti ≡ true
      → v.find_unique jti s.world ≡ (ok (some row), w)
      → is_admin auth ≡ false
      → same_text auth.sub (some row.user_id) ≡ false
      → delete_session jti auth s ≡ (ok (respond 403 nothing), record s { world = w })
  unfolding delete_session
  delete_session_foreign jti auth row s w given found plain foreign =
      rw (given, found, plain, foreign)

  -- Revoking a live session as its owner or as an administrator puts its identifier on the blacklist
  -- of the token validation for 900 seconds, marks the row, counts it once and answers 204; a session
  -- that is already revoked is answered 204 with no further call.
  pub delete_session_revokes :
      (jti : String) (auth : Caller) (row : Session) (s : Sessions W) (w w₁ w₂ : W)
      → is_truthy jti ≡ true
      → v.find_unique jti s.world ≡ (ok (some row), w)
      → (is_admin auth || same_text auth.sub (some row.user_id)) ≡ true
      → v.redis_setex ("jwt:blacklist:" & jti) 900 "revoked" w ≡ (ok tt, w₁)
      → v.mark_revoked jti w₁ ≡ (ok tt, w₂)
      → delete_session jti auth s ≡ (
          if row.revoked then (ok (respond 204 nothing), record s { world = w }) else (
            ok (respond 204 nothing),
            record { revoked_total = s.revoked_total + 1; world = w₂ },
          ))
  unfolding delete_session
  delete_session_revokes jti auth row s w w₁ w₂ given found allowed set marked =
      elim (Bool-cases row.revoked) [ inl old ↦ ground arith | inr live ↦ ground arith ]

  -- A revocation that is answered 204 is of a session that exists, by its owner or an administrator.
  pub delete_session-owned :
      (jti : String) (auth : Caller) (s t : Sessions W)
      → delete_session jti auth s ≡ (ok (respond 204 nothing), t)
      → (row : Session) × (w : W) × (v.find_unique jti s.world ≡ (ok (some row), w))
        × ((is_admin auth || same_text auth.sub (some row.user_id)) ≡ true)
  unfolding delete_session delete_found
  delete_session-owned jti auth s t h = elim (Bool-cases (is_truthy jti)) [
    | inr empty ↦ absurd (ground arith)
    | inl given ↦ elim (Run-cases (v.find_unique jti s.world)) [
      | inr (e, w, b) ↦ absurd (ground arith)
      | inl (none, w, b) ↦ absurd (ground arith)
      | inl (some row, w, b) ↦
          elim (Bool-cases (is_admin auth || same_text auth.sub (some row.user_id))) [
            | inl allowed ↦ (row, w, b, allowed)
            | inr foreign ↦ absurd (ground arith)
          ]
    ]
  ]

  -- The guard answers nothing but 401.
  pub require_authorization-respond :
      (header : Option String) (n : ℕ) (body : Body (Page SessionItem))
      → require_authorization header ≡ respond n body
      → n ≡ 401
  unfolding require_authorization
  require_authorization-respond none n body h = ground arith
  require_authorization-respond (some x) n body h = elim (Bool-cases (is_truthy x)) [
    | inl given ↦ absurd (ground arith)
    | inr empty ↦ ground arith
  ]
