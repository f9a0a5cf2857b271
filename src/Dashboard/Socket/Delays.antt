-- ===== src/Dashboard/Socket/Delays.antt =====
-- How long the hook waits, and that it rests after it is gone.
use native.Mathlib.Nat.{pow-suc}
use walmart_assignment.Base.{
  subst, Option-cases, inl, inr, ◌∙◌, ◌≡◌, refl, ap, ◌≤◌, ◌*◌, ◌^◌, ℕ, zero, suc, min, true, false,
  some, List, [], ◌∷◌, ◌++◌, arith, length, All,
}
use walmart_assignment.Dashboard.Socket.{
  Hook, start, Event, connected, disconnected, unmounted, rerun, timer, refused, take_out, connect,
  on_connect, on_connect_error, on_disconnect, fire, on_timer, unmount, run_again, step, run,
}

-- The delay after `n` failures from the delay `d`, as the comment of the hook has it: doubled each
-- time, up to 30 seconds.
abbrev pub doubled : ℕ → ℕ → ℕ
doubled d zero = d
doubled d (suc n) = min (doubled d n * 2) 30000

doubled_shift : (d n : ℕ) → doubled (min (d * 2) 30000) n ≡ doubled d (suc n)
doubled_shift d zero = refl
doubled_shift d (suc n) = ap (λ x. min (x * 2) 30000) (doubled_shift d n)

doubled_closed : (d n : ℕ) → d ≤ 30000 → doubled d n ≡ min (d * 2 ^ n) 30000
doubled_closed d zero h = omega arith
doubled_closed d (suc n) h = let ih = doubled_closed d n h in rw (ih, pow-suc) (omega arith)

All-push :
    (ds : List ℕ) (d : ℕ)
    → All (λ x. (1000 ≤ x) × (x ≤ 30000)) ds
    → 1000 ≤ d
    → d ≤ 30000
    → All (λ x. (1000 ≤ x) × (x ≤ 30000)) (ds ++ d ∷ [])
All-push [] d h p q = ((p, q), tt)
All-push (x ∷ ds) d h p q = (h.0, All-push ds d h.1 p q)

abbrev InRange : List ℕ → Type 0
InRange = All (λ x. (1000 ≤ x) × (x ≤ 30000))

take_out-InRange :
    (i : ℕ) (ds rest : List ℕ) → InRange ds → take_out i ds ≡ some rest → InRange rest
take_out-InRange i [] rest h e = absurd (cc)
take_out-InRange zero (d ∷ ds) rest h e =
    let same : ds ≡ rest = ground arith in subst InRange same h.1
take_out-InRange (suc i) (d ∷ ds) rest h e = elim (Option-cases (take_out i ds)) [
  | inl gone ↦ absurd (ground arith)
  | inr (r, left) ↦
      let same : d ∷ r ≡ rest = ground arith in
      subst InRange same (h.0, take_out-InRange i ds r h.1 left)
]

take_out-length : (i : ℕ) (ds rest : List ℕ) → take_out i ds ≡ some rest → length rest ≤ length ds
take_out-length i [] rest e = absurd (cc)
take_out-length zero (d ∷ ds) rest e =
    let same : ds ≡ rest = ground arith in
    subst (λ r. length r ≤ suc (length ds)) same (omega arith)
take_out-length (suc i) (d ∷ ds) rest e = elim (Option-cases (take_out i ds)) [
  | inl gone ↦ absurd (ground arith)
  | inr (r, left) ↦
      let same : d ∷ r ≡ rest = ground arith in
      subst (λ x. length x ≤ suc (length ds)) same (omega (arith, take_out-length i ds r left))
]

module _ {E : Type 0} where
  -- The delay stays within a second and half a minute, and so do those of the timers set.
  pub record IsBounded (h : Hook E) : Type 0 where
    pub low : 1000 ≤ h.delay
    pub high : h.delay ≤ 30000
    pub set : All (λ d. (1000 ≤ d) × (d ≤ 30000)) h.timers

  step-IsBounded : (e : Event E) (h : Hook E) → IsBounded h → IsBounded (step e h)
  unfolding step on_connect on_disconnect on_timer fire unmount run_again on_connect_error
  step-IsBounded connected h b = ground arith
  step-IsBounded disconnected h b = ground (arith, All-push h.timers h.delay b.set b.low b.high)
  step-IsBounded (timer i) h b = elim (Option-cases (take_out i h.timers)) [
    | inl none_left ↦ rw none_left b
    | inr (rest, left) ↦ ground (arith, take_out-InRange i h.timers rest b.set left)
  ]
  step-IsBounded unmounted h b = ground arith
  step-IsBounded (refused e) h b = ground arith
  step-IsBounded rerun h b = record { low = b.low; high = b.high; set = tt }

  run-IsBounded : (es : List (Event E)) (h : Hook E) → IsBounded h → IsBounded (run es h)
  unfolding run
  run-IsBounded [] h b = b
  run-IsBounded (e ∷ es) h b = run-IsBounded es (step e h) (step-IsBounded e h b)

  -- Whatever callbacks run, in whatever order: every reconnection of the hook waits at least a second
  -- and at most thirty.
  pub run-connect-IsBounded : (es : List (Event E)) → IsBounded (run es (connect start))
  unfolding connect
  run-connect-IsBounded es =
      run-IsBounded es (connect start) (record { low = omega arith; high = omega arith; set = tt })

  -- `n` failures in a row.
  abbrev pub failures : ℕ → List (Event E)
  failures zero = []
  failures (suc n) = disconnected ∷ failures n

  disconnect_delay :
      (h : Hook E) → h.mounted ≡ true → (step disconnected h).delay ≡ min (h.delay * 2) 30000
  unfolding step on_disconnect
  disconnect_delay h m = ground arith

  connect_delay : (h : Hook E) → h.mounted ≡ true → (step connected h).delay ≡ 1000
  unfolding step on_connect
  connect_delay h m = ground arith

  run-failures :
      (n : ℕ) (h : Hook E) → h.mounted ≡ true → (run (failures n) h).delay ≡ doubled h.delay n
  unfolding run
  run-failures zero h m = refl
  run-failures (suc n) h m =
      run-failures n (step disconnected h) (unfold step on_disconnect in ground arith)
      ∙ ap (λ d. doubled d n) (disconnect_delay h m)
      ∙ doubled_shift h.delay n

  -- The reconnection delay doubles with each failure and stops at 30 seconds, and a connection sets
  -- it back to one second: after a connection and `n` failures in a row it is the smaller of
  -- 1000 * 2 ^ n and 30000 milliseconds.
  pub reconnect_backoff :
      (n : ℕ) (h : Hook E)
      → h.mounted ≡ true
      → (run (connected ∷ failures n) h).delay ≡ min (1000 * 2 ^ n) 30000
  unfolding run
  reconnect_backoff n h m =
      run-failures n (step connected h) (unfold step on_connect in ground arith)
      ∙ ap (λ d. doubled d n) (connect_delay h m)
      ∙ doubled_closed 1000 n (omega arith)

  -- The callbacks that may run after the component is gone: React does not run its effect again.
  abbrev pub IsLate : Event E → Type 0
  IsLate rerun = ⊥
  IsLate _ = Unit

  step_quiet :
      (e : Event E) (h : Hook E)
      → IsLate e
      → h.mounted ≡ false
      → h.has_socket ≡ false
      → ((step e h).mounted ≡ false)
        × ((step e h).has_socket ≡ false)
        × (length (step e h).timers ≤ length h.timers)
  unfolding step on_connect on_disconnect on_timer fire unmount run_again on_connect_error
  step_quiet connected h l m q = ground arith
  step_quiet disconnected h l m q = ground arith
  step_quiet (timer i) h l m q = elim (Option-cases (take_out i h.timers)) [
    | inl none_left ↦ rw none_left (m, q, omega arith)
    | inr (rest, left) ↦ ground (arith, take_out-length i h.timers rest left)
  ]
  step_quiet unmounted h l m q = ground arith
  step_quiet (refused x) h l m q = ground arith
  step_quiet rerun h l m q = absurd l

  -- After the effect is cleaned up, no callback opens a socket again or sets a timer, in any order.
  pub unmounted_quiet :
      (es : List (Event E)) (h : Hook E)
      → All IsLate es
      → h.mounted ≡ false
      → h.has_socket ≡ false
      → ((run es h).has_socket ≡ false) × (length (run es h).timers ≤ length h.timers)
  unfolding run
  unmounted_quiet [] h l m q = (q, omega arith)
  unmounted_quiet (e ∷ es) h (l, ls) m q =
      let (still, off, fewer) = step_quiet e h l m q in
      let (end, left) = unmounted_quiet es (step e h) ls still off in (end, omega arith)
