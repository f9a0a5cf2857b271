-- ===== src/Ledger/Server.antt =====
-- ledger-service/src/server.ts: the application in front of the ledger's handlers. Express's matching of
-- methods and paths is a parameter; helmet, cors, morgan and the body parser are left out.
use walmart_assignment.Base.{
  ◌≡◌, refl, String, Bool, true, false, Option, none, some, if◌then◌else◌, Bool-cases, inl, inr,
}
use walmart_assignment.Base.Js.{Action, pure, ◌>>=◌, Run-cases}
use walmart_assignment.Ledger.Routes.{
  Server, Answer, Backend, post_log_event, get_verify, get_export, get_verify-logged,
  get_export-logged,
}

-- `gets path method url` and `posts path method url` say that Express runs a handler of the path;
-- `verify_key` is the `:key` of a request that `get('/verify/:key')` takes.
pub record Web : Type 0 where
  pub gets : String → String → String → Bool
  pub posts : String → String → String → Bool
  pub mounted : String → String → Bool
  pub verify_key : String → String → Option String

pub record Request (Input : Type 0) : Type 0 where
  pub method : String
  pub url : String
  pub body : Input
  pub hash : Option String

pub data Served : Type 0 where
  healthy not_found : Served
  answered : Answer → Served

module _ {Input D W : Type 0} (web : Web) (b : Backend Input D W) where
  abbrev pub served : Action (Server W) Answer → Action (Server W) Served
  served m = do a ← m; pure (answered a)

  -- The router: `post('/log-event')`, `get('/verify/:key')` and `get('/export.csv')`, in this order.
  abbrev pub verify_or :
      Option String → Option String → Action (Server W) Served → Action (Server W) Served
  verify_or none hash other = other
  verify_or (some key) hash other = served (get_verify b key hash)

  unfoldable pub ledger_router : Request Input → Action (Server W) Served
  ledger_router req =
      if web.posts "/ledger/log-event" req.method req.url
      then served (post_log_event b req.body)
      else verify_or (web.verify_key req.method req.url) req.hash (
          if web.gets "/ledger/export.csv" req.method req.url
          then served (get_export b)
          else pure not_found)

  unfoldable pub serve : Request Input → Action (Server W) Served
  serve req =
      if web.gets "/health" req.method req.url
      then pure healthy
      else if web.mounted "/ledger" req.url
      then ledger_router req
      else pure not_found

  served-logged :
      (m : Action (Server W) Answer) (s : Server W)
      → (m s).1.logged ≡ s.logged
      → (served m s).1.logged ≡ s.logged
  served-logged m s h = elim (Run-cases (m s)) [
    | inl (a, t, e) ↦ rw e (rw e at h)
    | inr (x, t, e) ↦ rw e (rw e at h)
  ]

  verify_or-logged :
      (o hash : Option String) (other : Action (Server W) Served) (s : Server W)
      → (other s).1.logged ≡ s.logged
      → (verify_or o hash other s).1.logged ≡ s.logged
  verify_or-logged none hash other s h = h
  verify_or-logged (some key) hash other s h =
      served-logged (get_verify b key hash) s (get_verify-logged b key hash s)

  export_or-logged :
      (c : Bool) (s : Server W)
      → ((if c then served (get_export b) else pure not_found) s).1.logged ≡ s.logged
  export_or-logged true s = served-logged (get_export b) s (get_export-logged b s)
  export_or-logged false s = refl

  -- Only a request that is posted to the log is counted: every other one, whatever it asks for and
  -- however it ends, leaves the counter of the ledger as it is.
  pub serve-logged :
      (req : Request Input) (s : Server W)
      → web.posts "/ledger/log-event" req.method req.url ≡ false
      → (serve req s).1.logged ≡ s.logged
  unfolding serve ledger_router
  serve-logged req s h = elim (Bool-cases (web.gets "/health" req.method req.url)) [
    | inl a ↦ rw a refl
    | inr a ↦ elim (Bool-cases (web.mounted "/ledger" req.url)) [
      | inr c ↦ rw (a, c) refl
      | inl c ↦
          rw (a, c, h)
            (verify_or-logged (web.verify_key req.method req.url) req.hash _ s
              (export_or-logged (web.gets "/ledger/export.csv" req.method req.url) s))
    ]
  ]
