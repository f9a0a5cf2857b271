-- ===== src/Ledger/Routes.antt =====
-- ledger-service/src/routes/ledger.ts and api/logEvent.ts: the HTTP handlers.
-- zod's parsers, the hash and the serialiser are parameters; the log lines are left out.
use walmart_assignment.Base.{
  ◌≡◌, refl, ◌⊎◌, inl, inr, String, Option, none, some, List, [], ◌∷◌, if◌then◌else◌, Bool-cases,
}
use walmart_assignment.Base.Text.{◌&◌, is_truthy}
use walmart_assignment.Base.Http.{Reply, respond, Body, failure, value}
use walmart_assignment.Base.Js.{
  Exn, ok, thrown, Action, pure, ◌>>=◌, ◌>>◌, try_catch, Returns, Run-cases,
}
use walmart_assignment.Ledger.Client.{AlertAction, VerifyResult}

-- The labels of `ledger_log_total`.
pub data Label : Type 0 where
  success error : Label

-- The counter's increments, and the world.
pub record Server (W : Type 0) : Type 0 where
  pub logged : List Label
  pub world : W

-- `SoarActionEventSchema`, as far as the handler reads it; `D` is what `details` holds.
pub record SoarEvent (D : Type 0) : Type 0 where
  pub run_id : String
  pub playbook_id : String
  pub step_id : String
  pub action : String
  pub status : String
  pub details : Option D
  pub timestamp : String

pub data View : Type 0 where
  logged : View
  verified : String → VerifyResult → View
  csv : String → View
  key_of : String → View

abbrev pub Answer : Type 0
Answer = Reply (Body View)

-- `fabricClient`'s three functions, and what `api/logEvent` takes.
pub record Backend (Input D W : Type 0) : Type 0 where
  pub log_event : AlertAction → Action W String
  pub verify_integrity : String → String → Action W VerifyResult
  pub export_csv : Action W String
  pub parse_action : Input → Option AlertAction
  pub parse_event : Input → Option (SoarEvent D)
  pub sha256_hex : String → String
  pub stringify : SoarEvent D → String
  pub invoke : String → List String → Action W (Unit {0})

module _ {Input D W : Type 0} (b : Backend Input D W) where
  abbrev pub on_world : {A : Type 0} → Action W A → Action (Server W) A
  on_world m s = let (r, w) = m s.world in (r, record s { world = w })

  count : Label → Action (Server W) (Unit {0})
  count l s = (ok tt, record s { logged = l ∷ s.logged })

  log_parsed : Option AlertAction → Action (Server W) Answer
  unfolding count
  log_parsed none = pure (respond 400 (failure "Bad Request"))
  log_parsed (some event) =
      try_catch (do on_world (b.log_event event); count success; pure (respond 201 (value logged)))
        (λ e. do count error; pure (respond 500 (failure "internal_error")))

  pub post_log_event : Input → Action (Server W) Answer
  unfolding log_parsed
  post_log_event body = log_parsed (b.parse_action body)

  verify_with : String → Option String → Action (Server W) Answer
  verify_with key none = pure (respond 400 (failure "Bad Request"))
  verify_with key (some hash) =
      if is_truthy hash
      then try_catch
          (do
            result ← on_world (b.verify_integrity key hash)
            pure (respond 200 (value (verified key result))))
          (λ e. pure (respond 500 (failure "internal_error")))
      else pure (respond 400 (failure "Bad Request"))

  -- `hash` is the query's value, if it is one text.
  pub get_verify : String → Option String → Action (Server W) Answer
  unfolding verify_with
  get_verify key hash = verify_with key hash

  -- Without a hash the handler refuses the request.
  pub get_verify-none :
      (key : String) → get_verify key none ≡ pure (respond 400 (failure "Bad Request"))
  unfolding get_verify verify_with
  get_verify-none key = refl

  pub get_export : Action (Server W) Answer
  get_export =
      try_catch (do text ← on_world b.export_csv; pure (respond 200 (value (csv text))))
        (λ e. pure (respond 500 (failure "internal_error")))

  -- Asking for a key leaves the counter as it is.
  pub get_verify-logged :
      (key : String) (hash : Option String) (s : Server W)
      → (get_verify key hash s).1.logged ≡ s.logged
  unfolding get_verify verify_with
  get_verify-logged key none s = refl
  get_verify-logged key (some hash) s = elim (Bool-cases (is_truthy hash)) [
    | inr empty ↦ rw empty refl
    | inl given ↦ elim (Run-cases (b.verify_integrity key hash s.world)) [
      | inl (r, w, e) ↦ rw (given, e) refl
      | inr (x, w, e) ↦ rw (given, e) refl
    ]
  ]

  -- So does an export.
  pub get_export-logged : (s : Server W) → (get_export s).1.logged ≡ s.logged
  unfolding get_export
  get_export-logged s = elim (Run-cases (b.export_csv s.world)) [
    | inl (t, w, e) ↦ rw e refl
    | inr (x, w, e) ↦ rw e refl
  ]

  -- `api/logEvent.ts`.
  pub event_key : SoarEvent D → String
  event_key e = b.sha256_hex (e.run_id & "|" & e.step_id & "|" & e.timestamp)

  invoke_parsed : Option (SoarEvent D) → Action (Server W) Answer
  invoke_parsed none = pure (respond 400 (failure "invalid_request"))
  invoke_parsed (some e) =
      try_catch
        (do
          on_world (b.invoke "LogEvent" (event_key e ∷ b.stringify e ∷ []))
          pure (respond 202 (value (key_of (event_key e)))))
        (λ x. pure (respond 502 (failure "fabric_error")))

  pub api_log_event : Input → Action (Server W) Answer
  unfolding invoke_parsed
  api_log_event body = invoke_parsed (b.parse_event body)

  -- The answers to a request to log, by what the client did.
  abbrev pub Logged : Option AlertAction → Server W → Answer → Server W → Type 0
  Logged none s reply t = (reply ≡ respond 400 (failure "Bad Request")) × (t ≡ s)
  Logged (some event) s reply t =
      ((id : String) × (w : W) × (b.log_event event s.world ≡ (ok id, w))
        × (reply ≡ respond 201 (value logged))
        × (t ≡ record { logged = success ∷ s.logged; world = w }))
      ⊎ ((e : Exn) × (w : W) × (b.log_event event s.world ≡ (thrown e, w))
          × (reply ≡ respond 500 (failure "internal_error"))
          × (t ≡ record { logged = error ∷ s.logged; world = w }))

  log_parsed-Logged :
      (o : Option AlertAction) (s : Server W) → Returns (Logged o s) (log_parsed o s)
  unfolding log_parsed
  log_parsed-Logged none s = (refl, refl)
  log_parsed-Logged (some event) s = elim (Run-cases (b.log_event event s.world)) [
    | inl (id, w, e) ↦ rw e (inl (id, w, e, refl, refl))
    | inr (x, w, e) ↦ rw e (inr (x, w, e, refl, refl))
  ]

  -- The handler never throws. A body that does not parse is answered 400 and touches nothing;
  -- otherwise the event is logged once, and the answer and the one increment of the counter tell how
  -- that ended: 201 and `success`, or 500 and `error`.
  pub post_log_event-Logged :
      (body : Input) (s : Server W)
      → Returns (Logged (b.parse_action body) s) (post_log_event body s)
  unfolding post_log_event
  post_log_event-Logged body s = log_parsed-Logged (b.parse_action body) s
