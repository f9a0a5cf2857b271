-- ===== src/Ledger/Contract.antt =====
-- ledger-service/chaincode/ledger/src/ledger_contract.ts: the transactions on the world state.
-- The stub of Fabric, SHA-256, `JSON.parse` and the CSV writer are parameters.
pub mod Keys
pub mod Refinement
mod Tests
use walmart_assignment.Base.{
  ◌≡◌, refl, sym, ap, ◌∙◌, String, Bool, true, false, Option, none, some, List, [], ◌∷◌, map, All,
  if◌then◌else◌, arith, Bool-cases, Option-cases, inl, inr, ◌&&◌,
}
use walmart_assignment.Base.Text.{◌&◌, str_eq, is_truthy, eq_refl}
use walmart_assignment.Base.Js.{
  Outcome, ok, thrown, Exn, error, Action, pure, throw, ◌>>=◌, ◌>>◌, Run-cases, Outcome-cases,
  and_then-eq-ok,
}

-- The fields of a logged event that the contract reads, where they are texts.
pub record LoggedEvent : Type 0 where
  pub run_id : Option String
  pub timestamp : Option String

pub record Stub (W : Type 0) : Type 0 where
  pub put_state : String → String → Action W (Unit {0})
  pub get_state : String → Action W (Option String)
  pub state_by_range : Action W (List (String × String))
  pub parse : String → Outcome LoggedEvent
  pub sha256_hex : String → String
  pub stringify : List (List String) → String

pub record VerifyResult : Type 0 where
  pub valid : Bool
  pub ledger_hash : String
  pub provided_hash : String

-- A field as JavaScript tests it: missing and empty are alike.
abbrev pub text_of : Option String → String
text_of none = ""
text_of (some t) = t

module _ {W : Type 0} (c : Stub W) where
  pub ledger_key : LoggedEvent → String
  ledger_key evt = c.sha256_hex (text_of evt.run_id & "|" & text_of evt.timestamp)

  pub record_event : String → LoggedEvent → Action W String
  record_event log_json evt =
      if is_truthy (text_of evt.run_id) && is_truthy (text_of evt.timestamp)
      then (do c.put_state (ledger_key evt) log_json; pure (ledger_key evt))
      else throw (error "logJson must contain runId and timestamp")

  unfoldable pub log_event : String → Action W String
  unfolding record_event
  log_event log_json = do evt ← (λ w. (c.parse log_json, w)); record_event log_json evt

  compare_hash : String → String → Option String → Action W VerifyResult
  compare_hash key provided none = throw (error ("No record for key " & key))
  compare_hash key provided (some bytes) =
      if is_truthy bytes
      then (pure (record {
        valid = str_eq (c.sha256_hex bytes) provided;
        ledger_hash = c.sha256_hex bytes;
        provided_hash = provided;
      }))
      else throw (error ("No record for key " & key))

  unfoldable pub verify_hash : String → String → Action W VerifyResult
  unfolding compare_hash
  verify_hash key provided = do bytes ← c.get_state key; compare_hash key provided bytes

  -- One round of the loop over the world state: `[key, timestamp, value, hash]`.
  pub export_row : String × String → Outcome (List String)
  export_row (key, value) = elim (c.parse value) [
    | ok evt ↦ ok (key ∷ text_of evt.timestamp ∷ value ∷ c.sha256_hex value ∷ [])
    | thrown e ↦ thrown e
  ]

  pub export_rows : List (String × String) → Action W (List (List String))
  export_rows [] = pure []
  export_rows (x ∷ xs) = do row ← (λ w. (export_row x, w)); rows ← export_rows xs; pure (row ∷ rows)

  unfoldable pub export_csv : Action W String
  export_csv = do
    entries ← c.state_by_range
    rows ← export_rows entries
    pure (c.stringify (("id" ∷ "timestamp" ∷ "logJson" ∷ "hash" ∷ []) ∷ rows))

  -- What the stub promises: a state that was put is read back.
  abbrev pub ReadsBack : Type 0
  ReadsBack =
      (key value : String) (w w' : W)
      → c.put_state key value w ≡ (ok tt, w')
      → c.get_state key w' ≡ (ok (some value), w')

  -- What a successful `LogEvent` has done.
  pub log_event-eq-ok :
      (json key : String) (w w' : W)
      → log_event json w ≡ (ok key, w')
      → (evt : LoggedEvent) × (c.parse json ≡ ok evt)
        × (key ≡ ledger_key evt)
        × (c.put_state key json w ≡ (ok tt, w'))
  unfolding log_event
  log_event-eq-ok json key w w' h = elim (Outcome-cases (c.parse json)) [
    | inr (e, b) ↦ absurd (ground arith)
    | inl (evt, b) ↦
        elim (Bool-cases (is_truthy (text_of evt.run_id) && is_truthy (text_of evt.timestamp))) [
          | inr bad ↦ absurd (ground arith)
          | inl good ↦ elim (Run-cases (c.put_state (ledger_key evt) json w)) [
            | inr (e, u, d) ↦ absurd (ground arith)
            | inl (_, u, d) ↦ (evt, b, ground arith, ground arith)
          ]
        ]
  ]

  -- After an event is logged, verifying its key succeeds for the hash of the logged text and for no
  -- other, and reports that hash.
  pub verify_hash-log_event :
      (json key provided : String) (w w' : W)
      → ReadsBack
      → is_truthy json ≡ true
      → log_event json w ≡ (ok key, w')
      → verify_hash key provided w' ≡ (
        ok (record {
          valid = str_eq (c.sha256_hex json) provided;
          ledger_hash = c.sha256_hex json;
          provided_hash = provided;
        }),
        w',
      )
  unfolding verify_hash
  verify_hash-log_event json key provided w w' law given h =
      let (evt, _, _, put) = log_event-eq-ok json key w w' h in rw (law key json w w' put, given)
