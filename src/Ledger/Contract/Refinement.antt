-- ===== src/Ledger/Contract/Refinement.antt =====
-- The ledger as a map from keys to texts, and runs of transactions against it.
use walmart_assignment.Base.{
  ◌≡◌, ◌⊎◌, refl, String, Option, none, some, List, [], ◌∷◌, ◌&&◌, if◌then◌else◌, Bool-cases, inl,
  inr,
}
use walmart_assignment.Base.Text.{◌&◌, str_eq, is_truthy}
use walmart_assignment.Base.Js.{Outcome, ok, thrown, Exn, error, Action, Run-cases, Outcome-cases}
use walmart_assignment.Ledger.Contract.{
  LoggedEvent, Stub, VerifyResult, text_of, ledger_key, record_event, log_event, compare_hash,
  verify_hash,
}

-- The abstract ledger, and the write of a text.
abbrev pub Ledger : Type 0
Ledger = String → Option String

abbrev pub update : Ledger → String → String → Ledger
update l key text k = if str_eq k key then some text else l k

pub data Transaction : Type 0 where
  log : String → Transaction
  verify : String → String → Transaction

pub data Receipt : Type 0 where
  logged : String → Receipt
  verified : VerifyResult → Receipt

-- What is promised of the world state, through a view of it as a map: a write that succeeds is an
-- update, a read gives the text of its key, and nothing else changes the view.
pub record IsStore {W : Type 0} (c : Stub W) (view : W → Ledger) : Type 0 where
  pub put :
      (key text : String) (w w' : W)
      → c.put_state key text w ≡ (ok tt, w')
      → view w' ≡ update (view w) key text
  pub put_failed :
      (key text : String) (e : Exn) (w w' : W)
      → c.put_state key text w ≡ (thrown e, w')
      → view w' ≡ view w
  pub get :
      (key : String) (o : Option String) (w w' : W)
      → c.get_state key w ≡ (ok o, w')
      → (o ≡ view w key) × (view w' ≡ view w)
  pub get_failed :
      (key : String) (e : Exn) (w w' : W) → c.get_state key w ≡ (thrown e, w') → view w' ≡ view w

module _ {W : Type 0} (c : Stub W) where
  abbrev receipt_of : {A : Type 0} → (A → Receipt) → Outcome A × W → Outcome Receipt × W
  receipt_of f (ok a, w) = (ok (f a), w)
  receipt_of f (thrown e, w) = (thrown e, w)

  -- A transaction with its receipt, and a sequence of them with theirs.
  unfoldable pub submit : Transaction → Action W Receipt
  submit (log text) w = receipt_of logged (log_event c text w)
  submit (verify key hash) w = receipt_of verified (verify_hash c key hash w)

  unfoldable pub submit_all : List Transaction → W → List (Transaction × Outcome Receipt) × W
  submit_all [] w = ([], w)
  submit_all (t ∷ ts) w =
      let (r, u) = submit t w in let (rs, end) = submit_all ts u in ((t, r) ∷ rs, end)

  -- What the abstract ledger answers: to a logged text the key of its event, under which it stands
  -- from then on; to a verification the comparison with the hash of the text under the key. A
  -- transaction that fails changes nothing.
  abbrev pub Conforms : Ledger → List (Transaction × Outcome Receipt) → Ledger → Type 0
  Conforms before [] after = after ≡ before
  Conforms before ((log text, ok (logged key)) ∷ rest) after =
      ((evt : LoggedEvent) × (c.parse text ≡ ok evt) × (key ≡ ledger_key c evt))
      × Conforms (update before key text) rest after
  Conforms before ((verify key hash, ok (verified r)) ∷ rest) after =
      ((text : String) × (before key ≡ some text)
        × (r ≡ record {
          valid = str_eq (c.sha256_hex text) hash;
          ledger_hash = c.sha256_hex text;
          provided_hash = hash;
        }))
      × Conforms before rest after
  Conforms before ((t, thrown e) ∷ rest) after = Conforms before rest after
  Conforms before ((log text, ok (verified r)) ∷ rest) after = ⊥
  Conforms before ((verify key hash, ok (logged k)) ∷ rest) after = ⊥

  module _ {view : W → Ledger} (store : IsStore c view) where
    -- How a transaction on the contract ends, in terms of the view.
    log_event-ends :
        (text : String) (w : W)
        → ((key : String) × (u : W) × (evt : LoggedEvent) × (log_event c text w ≡ (ok key, u))
            × (c.parse text ≡ ok evt)
            × (key ≡ ledger_key c evt)
            × (view u ≡ update (view w) key text))
          ⊎ ((e : Exn) × (u : W) × (log_event c text w ≡ (thrown e, u)) × (view u ≡ view w))
    unfolding log_event record_event
    log_event-ends text w = elim (Outcome-cases (c.parse text)) [
      | inr (e, b) ↦ inr (e, w, rw b refl, refl)
      | inl (evt, b) ↦
          elim (Bool-cases (is_truthy (text_of evt.run_id) && is_truthy (text_of evt.timestamp))) [
            | inr bad ↦
                inr (error "logJson must contain runId and timestamp", w, rw (b, bad) refl, refl)
            | inl good ↦ elim (Run-cases (c.put_state (ledger_key c evt) text w)) [
              | inr (e, u, d) ↦
                  inr (e, u, rw (b, good, d) refl, store.put_failed (ledger_key c evt) text e w u d)
              | inl (_, u, d) ↦ inl (
                ledger_key c evt,
                u,
                evt,
                rw (b, good, d) refl,
                b,
                refl,
                store.put (ledger_key c evt) text w u d,
              )
            ]
          ]
    ]

    verify_hash-ends :
        (key hash : String) (w : W)
        → ((u : W) × (text : String) × (view w key ≡ some text)
            × (view u ≡ view w)
            × (verify_hash c key hash w ≡ (
              ok (record {
                valid = str_eq (c.sha256_hex text) hash;
                ledger_hash = c.sha256_hex text;
                provided_hash = hash;
              }),
              u,
            )))
          ⊎ ((e : Exn) × (u : W) × (verify_hash c key hash w ≡ (thrown e, u)) × (view u ≡ view w))
    unfolding verify_hash compare_hash
    verify_hash-ends key hash w = elim (Run-cases (c.get_state key w)) [
      | inr (e, u, b) ↦ inr (e, u, rw b refl, store.get_failed key e w u b)
      | inl (none, u, b) ↦
          inr (error ("No record for key " & key), u, rw b refl, (store.get key none w u b).1)
      | inl (some text, u, b) ↦
          let (read, same) = store.get key (some text) w u b in
          elim (Bool-cases (is_truthy text)) [
            | inr empty ↦ inr (error ("No record for key " & key), u, rw (b, empty) refl, same)
            | inl given ↦ inl (u, text, rw (← read) refl, same, rw (b, given) refl)
          ]
    ]

    -- The contract refines the abstract ledger: whatever transactions are submitted, in whatever
    -- order, failures included, the receipts and the final view are those that the abstract ledger
    -- gives from the view of the first state.
    pub submit_all-Conforms :
        (ts : List Transaction) (w : W)
        → Conforms (view w) (submit_all ts w).0 (view (submit_all ts w).1)
    unfolding submit_all submit
    submit_all-Conforms [] w = refl
    submit_all-Conforms (log text ∷ ts) w = elim (log_event-ends text w) [
      | inl (key, u, evt, e, parsed, keyed, seen) ↦
          rw e ((evt, parsed, keyed), rw seen at (submit_all-Conforms ts u))
      | inr (x, u, e, seen) ↦ rw e (rw seen at (submit_all-Conforms ts u))
    ]
    submit_all-Conforms (verify key hash ∷ ts) w = elim (verify_hash-ends key hash w) [
      | inl (u, text, held, seen, e) ↦
          rw e ((text, held, refl), rw seen at (submit_all-Conforms ts u))
      | inr (x, u, e, seen) ↦ rw e (rw seen at (submit_all-Conforms ts u))
    ]
