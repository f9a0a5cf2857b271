-- ===== src/Gateway/Sockets.antt =====
-- api-gateway/src/lib/socket.ts: the activity of the sockets and the sweep of the idle ones.
-- socket.io is the environment: it connects clients to a namespace, runs the middleware of `io.use`
-- for the main namespace `/` alone, and delivers messages to the listeners of a socket.
use walmart_assignment.Base.{
  ◌≡◌, refl, ap, String, ℕ, ◌+◌, ◌-◌, ◌*◌, Bool, true, false, ◌&&◌, Option, none, some, List, [],
  ◌∷◌, ltb, if◌then◌else◌, map, All, arith, Bool-cases, inl, inr,
}
use walmart_assignment.Base.Text.{str_eq, eq_iff}

-- `last_activity` is `socket.data.lastActivity`, `none` while it is not set.
pub record Socket : Type 0 where
  pub id : String
  pub namespace : String
  pub last_activity : Option ℕ

-- The sockets that are connected, and the clock in milliseconds.
pub record Server : Type 0 where
  pub sockets : List Socket
  pub clock : ℕ

abbrev pub start : Server
start = record { sockets = []; clock = 0 }

abbrev in_main : String → Bool
in_main namespace = str_eq namespace "/"

-- A connection, with the middleware of `io.use`.
unfoldable pub connect : String → String → Server → Server
connect id namespace s = record s {
  sockets =
      record {
        id = id;
        namespace = namespace;
        last_activity = if in_main namespace then some s.clock else none;
      }
      ∷ s.sockets;
}

-- The listener of `onAny`, which the middleware has set.
abbrev touch : String → ℕ → Socket → Socket
touch id now x =
    if str_eq x.id id && in_main x.namespace then record x { last_activity = some now } else x

unfoldable pub message : String → Server → Server
message id s = record s { sockets = map (touch id s.clock) s.sockets }

-- `Date.now() - lastActivity > 30 * 60_000`, which is false where `lastActivity` is not set.
abbrev is_idle : ℕ → Option ℕ → Bool
is_idle now none = false
is_idle now (some at) = ltb (30 * 60000) (now - at)

-- The loop over `io.of('/socket').sockets`: the idle ones are disconnected.
abbrev pub kept : ℕ → List Socket → List Socket
kept now [] = []
kept now (x ∷ xs) =
    let rest = kept now xs in
    if str_eq x.namespace "/socket" && is_idle now x.last_activity then rest else x ∷ rest

unfoldable pub sweep : Server → Server
sweep s = record s { sockets = kept s.clock s.sockets }

pub data Event : Type 0 where
  connected : String → String → Event
  messaged : String → Event
  swept : Event
  passed : ℕ → Event

unfoldable pub step : Event → Server → Server
step (connected id namespace) s = connect id namespace s
step (messaged id) s = message id s
step swept s = sweep s
step (passed ms) s = record s { clock = s.clock + ms }

unfoldable pub run : List Event → Server → Server
run [] s = s
run (e ∷ es) s = run es (step e s)

-- No activity is recorded outside the main namespace.
abbrev pub Untracked : Socket → Type 0
Untracked x = in_main x.namespace ≡ false → x.last_activity ≡ none

touch-Untracked :
    (id : String) (now : ℕ) (xs : List Socket)
    → All Untracked xs
    → All Untracked (map (touch id now) xs)
touch-Untracked id now [] h = tt
touch-Untracked id now (x ∷ xs) h = elim (Bool-cases (str_eq x.id id && in_main x.namespace)) [
  | inl hit ↦ (rw hit (λ off. absurd (ground arith)), touch-Untracked id now xs h.1)
  | inr miss ↦ (rw miss h.0, touch-Untracked id now xs h.1)
]

kept-Untracked : (now : ℕ) (xs : List Socket) → All Untracked xs → All Untracked (kept now xs)
kept-Untracked now [] h = tt
kept-Untracked now (x ∷ xs) h =
    elim (Bool-cases (str_eq x.namespace "/socket" && is_idle now x.last_activity)) [
      | inl idle ↦ rw idle (kept-Untracked now xs h.1)
      | inr live ↦ rw live (h.0, kept-Untracked now xs h.1)
    ]

step-Untracked :
    (e : Event) (s : Server) → All Untracked s.sockets → All Untracked (step e s).sockets
unfolding step connect message sweep
step-Untracked (connected id namespace) s h = ((λ off. rw off refl), h)
step-Untracked (messaged id) s h = touch-Untracked id s.clock s.sockets h
step-Untracked swept s h = kept-Untracked s.clock s.sockets h
step-Untracked (passed ms) s h = h

run-Untracked :
    (es : List Event) (s : Server) → All Untracked s.sockets → All Untracked (run es s).sockets
unfolding run
run-Untracked [] s h = h
run-Untracked (e ∷ es) s h = run-Untracked es (step e s) (step-Untracked e s h)

outside : (namespace : String) → str_eq namespace "/socket" ≡ true → in_main namespace ≡ false
outside namespace h = outside_of namespace ((eq_iff namespace "/socket").0 h)
  where
    outside_of : (n : String) → n ≡ "/socket" → in_main n ≡ false
    outside_of n e = rw e refl

kept-all : (now : ℕ) (xs : List Socket) → All Untracked xs → kept now xs ≡ xs
kept-all now [] h = refl
kept-all now (x ∷ xs) h = elim (Bool-cases (str_eq x.namespace "/socket")) [
  | inr other ↦ rw (other, kept-all now xs h.1) refl
  | inl here ↦ rw (here, h.0 (outside x.namespace here), kept-all now xs h.1) refl
]

-- No idle client is ever disconnected: after any connections, messages, sweeps and time, the sweep
-- leaves the sockets as they are.
pub sweep-run : (es : List Event) → sweep (run es start) ≡ run es start
unfolding sweep
sweep-run es =
    let same = kept-all (run es start).clock (run es start).sockets (run-Untracked es start tt) in
    ap (λ xs. record { sockets = xs; clock = (run es start).clock }) same
