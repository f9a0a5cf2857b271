-- ===== src/Ledger/Contract/Keys.antt =====
-- The keys of the ledger: events that share one, and the rows of an export.
use walmart_assignment.Base.{
  ◌≡◌, refl, sym, ap, ◌∙◌, String, true, Option, none, some, List, [], ◌∷◌, All,
}
use walmart_assignment.Base.Text.{str_eq, is_truthy, eq_refl}
use walmart_assignment.Base.Js.{ok, Returns, Returns-value}
use walmart_assignment.Ledger.Contract.{
  LoggedEvent, Stub, text_of, ledger_key, log_event, verify_hash, export_row, export_rows,
  ReadsBack, log_event-eq-ok, verify_hash-log_event,
}

module _ {W : Type 0} (c : Stub W) where
  ledger_key_eq :
      (e₁ e₂ : LoggedEvent)
      → e₁.run_id ≡ e₂.run_id
      → e₁.timestamp ≡ e₂.timestamp
      → ledger_key c e₁ ≡ ledger_key c e₂
  unfolding ledger_key
  ledger_key_eq e₁ e₂ run ts = rw (run, ts)

  -- Two events of one run with the same timestamp have one key, whatever else they say: logging the
  -- second replaces the first, and from then on verifying the first event's own hash under that key
  -- compares it with the hash of the second. The stub reads back what was put, and the second text is
  -- not empty.
  pub log_event_replaces :
      (first second k₁ k₂ : String) (e₁ e₂ : LoggedEvent) (w w₁ w₂ : W)
      → ReadsBack c
      → is_truthy second ≡ true
      → c.parse first ≡ ok e₁
      → c.parse second ≡ ok e₂
      → e₁.run_id ≡ e₂.run_id
      → e₁.timestamp ≡ e₂.timestamp
      → log_event c first w ≡ (ok k₁, w₁)
      → log_event c second w₁ ≡ (ok k₂, w₂)
      → (k₁ ≡ k₂)
        × (verify_hash c k₁ (c.sha256_hex first) w₂ ≡ (
          ok (record {
            valid = str_eq (c.sha256_hex second) (c.sha256_hex first);
            ledger_hash = c.sha256_hex second;
            provided_hash = c.sha256_hex first;
          }),
          w₂,
        ))
  log_event_replaces first second k₁ k₂ e₁ e₂ w w₁ w₂ law given p₁ p₂ run ts l₁ l₂ =
      let (f₁, q₁, same₁, _) = log_event-eq-ok c first k₁ w w₁ l₁ in
      let (f₂, q₂, same₂, _) = log_event-eq-ok c second k₂ w₁ w₂ l₂ in
      let one_key : k₁ ≡ k₂ =
        same₁
        ∙ ap (ledger_key c) (cc (q₁, p₁))
        ∙ ledger_key_eq e₁ e₂ run ts
        ∙ ap (ledger_key c) (cc (q₂, p₂))
        ∙ sym same₂ in
      (
        one_key,
        rw one_key (verify_hash-log_event c second k₂ (c.sha256_hex first) w₁ w₂ law given l₂),
      )

  -- The column of a timestamp; a missing one is empty.
  abbrev pub IsColumn : Option String → String → Type 0
  IsColumn none ts = ts ≡ ""
  IsColumn (some at) ts = ts ≡ at

  text_of-IsColumn : (o : Option String) → IsColumn o (text_of o)
  text_of-IsColumn none = refl
  text_of-IsColumn (some at) = refl

  -- A row of an export tells the state of its key, and verifies.
  abbrev pub Exported : W → List (String × String) → List (List String) → Type 0
  Exported w [] [] = Unit
  Exported w ((key, value) ∷ xs) (row ∷ rows) =
      ((evt : LoggedEvent) × (ts : String) × (c.parse value ≡ ok evt)
        × IsColumn evt.timestamp ts
        × (row ≡ key ∷ ts ∷ value ∷ c.sha256_hex value ∷ []))
      × (verify_hash c key (c.sha256_hex value) w ≡ (
        ok (record {
          valid = true;
          ledger_hash = c.sha256_hex value;
          provided_hash = c.sha256_hex value;
        }),
        w,
      ))
      × Exported w xs rows
  Exported w [] (row ∷ rows) = ⊥
  Exported w (x ∷ xs) [] = ⊥

  -- The stub reads this entry back, and it is not empty and parses.
  abbrev pub Holds : W → String × String → Type 0
  Holds w (key, value) =
      (c.get_state key w ≡ (ok (some value), w))
      × (is_truthy value ≡ true)
      × ((evt : LoggedEvent) × (c.parse value ≡ ok evt))

  export_row-eq-ok :
      (key value : String) (evt : LoggedEvent)
      → c.parse value ≡ ok evt
      → export_row c (key, value)
        ≡ ok (key ∷ text_of evt.timestamp ∷ value ∷ c.sha256_hex value ∷ [])
  unfolding export_row
  export_row-eq-ok key value evt b = rw (b, export_row) refl

  -- An export of entries that the world state holds, and that parse as events, succeeds and has one row
  -- for each, in order: its key, the timestamp of the event that its text is, which is empty where the
  -- event has none, its text and a hash that `VerifyHash` accepts for that key.
  pub export_rows-Exported :
      (entries : List (String × String)) (w u : W)
      → All (Holds w) entries
      → Returns (λ rows t. Exported w entries rows × (t ≡ u)) (export_rows c entries u)
  unfolding export_rows verify_hash
  export_rows-Exported [] w u h = (tt, refl)
  export_rows-Exported ((key, value) ∷ xs) w u ((read, given, (evt, b)), h) =
      let (rows, t, e, (ih, same)) =
        Returns-value (λ rows t. Exported w xs rows × (t ≡ u)) (export_rows c xs u)
          (export_rows-Exported xs w u h) in
      rw (export_row-eq-ok key value evt b, e)
        (
          (
            (evt, text_of evt.timestamp, b, text_of-IsColumn evt.timestamp, refl),
            rw (read, given, eq_refl (c.sha256_hex value)),
            ih,
          ),
          same,
        )
