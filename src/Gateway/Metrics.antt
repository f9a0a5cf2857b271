-- ===== src/Gateway/Metrics.antt =====
-- api-gateway/src/middleware/metrics.ts: the trackers of the routes and what they count.
-- The clock and the conversion of the times are parameters.
pub mod Globals
use walmart_assignment.Base.{
  ◌≡◌, refl, String, ℕ, ◌-◌, ◌&&◌, List, [], ◌∷◌, leb, ltb, if◌then◌else◌, map, arith,
}
use walmart_assignment.Base.Text.{str_eq}

-- The labels `route` and `status` of an increment or an observation.
pub record Label : Type 0 where
  pub route : String
  pub status : ℕ

pub data LedgerStatus : Type 0 where
  success error : LedgerStatus

-- `api_gateway_requests_total`, `api_gateway_latency_ms` and `ledger_log_total`: the latest first;
-- and the clock, in nanoseconds. `Ms` is a number of milliseconds.
pub record Metrics (Ms : Type 0) : Type 0 where
  pub requests : List Label
  pub latencies : List (Label × Ms)
  pub ledger_logs : List LedgerStatus
  pub clock : ℕ

-- A request that a `finish` listener sees: its path and the status of its response.
pub record Finished : Type 0 where
  pub path : String
  pub status_code : ℕ

-- The listener that `trackRoute` adds for its route, with the time at which it was added.
pub record Listener : Type 0 where
  pub route : String
  pub start : ℕ

-- `to_ms` is `Number(elapsed) / 1_000_000`, and `tick` the time after a reading of the clock.
module _ {Ms : Type 0} (to_ms : ℕ → Ms) (tick : ℕ → ℕ) where
  unfoldable pub on_finish : Finished → Listener → Metrics Ms → Metrics Ms
  on_finish f l m =
      let label : Label = record { route = l.route; status = f.status_code } in
      let counted : Metrics Ms = record m {
        requests = label ∷ m.requests;
        latencies = (label, to_ms (m.clock - l.start)) ∷ m.latencies;
        clock = tick m.clock;
      } in
      if str_eq l.route "ledger" && str_eq f.path "/log-event"
      then record counted {
        ledger_logs =
            (if leb 200 f.status_code && ltb f.status_code 400 then success else error)
            ∷ m.ledger_logs;
      }
      else counted

  -- The listeners run in the order in which they were added.
  unfoldable pub finish : Finished → List Listener → Metrics Ms → Metrics Ms
  finish f [] m = m
  finish f (l ∷ ls) m = finish f ls (on_finish f l m)

-- The increments of a finished request, the latest first.
abbrev pub increments : ℕ → List String → List Label → List Label
increments status [] ls = ls
increments status (id ∷ ids) ls =
    increments status ids (record { route = id; status = status } ∷ ls)

abbrev pub routes_of : List Listener → List String
routes_of = map (λ l. l.route)

module _ {Ms : Type 0} (to_ms : ℕ → Ms) (tick : ℕ → ℕ) where
  on_finish-requests :
      (f : Finished) (l : Listener) (m : Metrics Ms)
      → (on_finish to_ms tick f l m).requests
        ≡ record { route = l.route; status = f.status_code } ∷ m.requests
  unfolding on_finish
  on_finish-requests f l m = ground arith

  -- A finished request is counted once under the route of each of its listeners.
  pub finish-requests :
      (f : Finished) (ls : List Listener) (m : Metrics Ms)
      → (finish to_ms tick f ls m).requests ≡ increments f.status_code (routes_of ls) m.requests
  unfolding finish
  finish-requests f [] m = refl
  finish-requests f (l ∷ ls) m =
      rw (finish-requests f ls (on_finish to_ms tick f l m), on_finish-requests f l m) refl
