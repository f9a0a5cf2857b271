-- ===== src/Ledger/Contract/Tests.antt =====
-- A world state that is an association list of texts; an event is its timestamp.
use walmart_assignment.Base.{
  ◌≡◌, refl, String, true, Option, none, some, List, [], ◌∷◌, All, arith, if◌then◌else◌,
}
use walmart_assignment.Base.Text.{str_eq_comm, ◌&◌, str_eq, eq_refl}
use walmart_assignment.Base.Js.{Returns, ok}
use walmart_assignment.Ledger.Contract.{
  LoggedEvent, Stub, ReadsBack, record_event, ledger_key, log_event, verify_hash,
  verify_hash-log_event, export_rows, export_row,
}
use mathlib.Core.Path.{fun_ext}
use walmart_assignment.Ledger.Contract.Refinement.{
  IsStore, Transaction, log, verify, submit_all, Conforms, submit_all-Conforms,
}
use walmart_assignment.Ledger.Contract.Keys.{
  log_event_replaces, Exported, Holds, export_rows-Exported,
}

abbrev State : Type 0
State = List (String × String)

abbrev find : String → State → Option String
find key [] = none
find key ((k, v) ∷ rest) = if str_eq k key then some v else find key rest

abbrev event : LoggedEvent
event = record { run_id = some "run-1"; timestamp = some "noon" }

abbrev stub : Stub State
stub = record {
  put_state = λ key value w. (ok tt, (key, value) ∷ w);
  get_state = λ key w. (ok (find key w), w);
  state_by_range = λ w. (ok w, w);
  parse = λ text. ok event;
  sha256_hex = λ text. "#" & text;
  stringify = λ rows. "";
}

stub-ReadsBack : ReadsBack stub
stub-ReadsBack key value w w' h = ground (arith, eq_refl key)

abbrev key : String
key = "#run-1|noon"

abbrev first_state : State
first_state = (key, "step one") ∷ []

abbrev second_state : State
second_state = (key, "step two") ∷ first_state

first_logged : log_event stub "step one" [] ≡ (ok key, first_state)
unfolding log_event record_event ledger_key
first_logged = refl

second_logged : log_event stub "step two" first_state ≡ (ok key, second_state)
unfolding log_event record_event ledger_key
second_logged = refl

verify_hash-log_event_example : verify_hash stub key "#step one" first_state ≡ (
  ok (record { valid = true; ledger_hash = "#step one"; provided_hash = "#step one" }),
  first_state,
)
verify_hash-log_event_example =
    verify_hash-log_event stub "step one" key "#step one" [] first_state stub-ReadsBack refl
      first_logged

log_event_replaces_example :
    (key ≡ key)
    × (verify_hash stub key "#step one" second_state ≡ (
      ok (record {
        valid = str_eq "#step two" "#step one";
        ledger_hash = "#step two";
        provided_hash = "#step one";
      }),
      second_state,
    ))
log_event_replaces_example =
    log_event_replaces stub "step one" "step two" key key event event [] first_state second_state
      stub-ReadsBack refl refl refl refl refl first_logged second_logged

exports :
    export_rows stub first_state first_state
    ≡ (ok ((key ∷ "noon" ∷ "step one" ∷ "#step one" ∷ []) ∷ []), first_state)
unfolding export_rows export_row
exports = refl

first_state-Holds : All (Holds stub first_state) first_state
first_state-Holds = ((refl, refl, (event, refl)), tt)

export_rows-Exported_example :
    Returns
      (λ rows t. Exported stub first_state first_state rows × (t ≡ first_state))
      (export_rows stub first_state first_state)
export_rows-Exported_example =
    export_rows-Exported stub first_state first_state first_state first_state-Holds

stub-IsStore : IsStore stub (λ w key. find key w)
stub-IsStore = record {
  put = λ key text w w' h. fun_ext λ x. ground (arith, str_eq_comm key x);
  put_failed = λ key text e w w' h. absurd (cc);
  get = λ key o w w' h. (ground arith, ground arith);
  get_failed = λ key e w w' h. absurd (cc);
}

-- An event that is logged, verified, and verified under a key that is not there.
abbrev transactions : List Transaction
transactions = log "step one" ∷ verify key "#step one" ∷ verify "none" "#step one" ∷ []

submit_all-Conforms_example :
    Conforms stub
      (λ x. none)
      (submit_all stub transactions []).0
      (λ x. find x (submit_all stub transactions []).1)
submit_all-Conforms_example = submit_all-Conforms stub stub-IsStore transactions []
