-- ===== src/Dashboard/Socket.antt =====
-- ui-dashboard/hooks/useWebSocket.ts: the socket with automatic reconnection, as a state machine.
-- A step is a callback of the socket, of a timer or of React; socket.io is the environment.
pub mod Delays
use walmart_assignment.Base.{
  subst, Option-cases, inl, inr, ◌∙◌, ◌≡◌, refl, ap, ◌≤◌, ◌*◌, ◌^◌, ℕ, zero, suc, min, Bool, true,
  false, Option, none, some, List, [], ◌∷◌, ◌++◌, if◌then◌else◌, arith, length, All,
}

-- The refs, the state and the effect's flag; `timers` are the delays of the pending reconnections,
-- and `has_socket` whether `socketRef.current` is set.
pub record Hook (E : Type 0) : Type 0 where
  pub mounted : Bool
  pub has_socket : Bool
  pub connected : Bool
  pub error : Option E
  pub delay : ℕ
  pub timers : List ℕ

-- The hook before the effect runs.
abbrev pub start : {E : Type 0} → Hook E
start = record {
  mounted = true;
  has_socket = false;
  connected = false;
  error = none;
  delay = 1000;
  timers = [];
}

pub data Event (E : Type 0) : Type 0 where
  connected disconnected unmounted rerun : Event E
  timer : ℕ → Event E
  refused : E → Event E

-- A list without its `i`-th element.
abbrev pub take_out : ℕ → List ℕ → Option (List ℕ)
take_out i [] = none
take_out zero (d ∷ ds) = some ds
take_out (suc i) (d ∷ ds) = elim (take_out i ds) [ none ↦ none | some rest ↦ some (d ∷ rest) ]

module _ {E : Type 0} where
  -- `cleanup`: the listeners go with the socket.
  cleanup : Hook E → Hook E
  cleanup h = record h { has_socket = false }

  unfoldable pub connect : Hook E → Hook E
  unfolding cleanup
  connect h = record (cleanup h) { has_socket = true }

  unfoldable pub on_connect : Hook E → Hook E
  on_connect h = if h.mounted then record h { connected = true; error = none; delay = 1000 } else h

  unfoldable pub on_connect_error : E → Hook E → Hook E
  on_connect_error e h = if h.mounted then record h { error = some e } else h

  unfoldable pub on_disconnect : Hook E → Hook E
  on_disconnect h =
      if h.mounted
      then record h {
        connected = false;
        delay = min (h.delay * 2) 30000;
        timers = h.timers ++ h.delay ∷ [];
      }
      else h

  -- A callback of a timer, from the timers that are left; `none` if there is no such timer.
  pub fire : Option (List ℕ) → Hook E → Hook E
  unfolding connect
  fire none h = h
  fire (some rest) h =
      if h.mounted then connect (record h { timers = rest }) else record h { timers = rest }

  -- The callback of the `i`-th pending timer: they may run in any order.
  unfoldable pub on_timer : ℕ → Hook E → Hook E
  unfolding fire
  on_timer i h = fire (take_out i h.timers) h

  -- The cleanup function of the effect.
  unfoldable pub unmount : Hook E → Hook E
  unfolding cleanup
  unmount h = cleanup (record h { mounted = false })

  -- The effect runs again, for another address, other names of events or another callback: the old one
  -- is cleaned up first, and its timers find that it is gone and do nothing, so they are forgotten here.
  unfoldable pub run_again : Hook E → Hook E
  unfolding cleanup connect
  run_again h = connect (record (unmount h) { mounted = true; timers = [] })

  unfoldable pub step : Event E → Hook E → Hook E
  step connected h = on_connect h
  step disconnected h = on_disconnect h
  step (timer i) h = on_timer i h
  step unmounted h = unmount h
  step (refused e) h = on_connect_error e h
  step rerun h = run_again h

  unfoldable pub run : List (Event E) → Hook E → Hook E
  run [] h = h
  run (e ∷ es) h = run es (step e h)
