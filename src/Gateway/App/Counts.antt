-- ===== src/Gateway/App/Counts.antt =====
-- Under which routes a request is counted.
use mathlib.Core.List.{append-nil, append_assoc}
use walmart_assignment.Base.{
  ◌≡◌, refl, sym, ap, ◌∙◌, inl, inr, String, ℕ, List, [], ◌∷◌, ◌++◌, if◌then◌else◌, Bool-cases,
}
use walmart_assignment.Base.Js.{Outcome, ok, Run-cases}
use walmart_assignment.Gateway.Metrics.{
  Metrics, Listener, Finished, finish, finish-requests, increments, routes_of,
}
use walmart_assignment.Gateway.Proxy.{proxy}
use walmart_assignment.Gateway.App.{
  ServiceName, ledger, alerts, sessions, users, soar, route_of, mount_of, routers, AppServices,
  AppRequest, App, Sent, get_service_url, go_on, track, track_inside, forward, router,
  route_through,
}
use walmart_assignment.Gateway.App.Requests.{auth-AuthEnds}

-- The routes that a list of listeners counts under grow with the list.
routes_of-append : (xs ys : List Listener) → routes_of (xs ++ ys) ≡ routes_of xs ++ routes_of ys
routes_of-append [] ys = refl
routes_of-append (x ∷ xs) ys = ap (λ r. x.route ∷ r) (routes_of-append xs ys)

module _ {Decoded Num V W : Type 0} (v : AppServices Decoded Num V W) where
  -- The routes whose trackers a request meets: those of the routers up to the one that is mounted on
  -- its path, and the tracker inside that one.
  abbrev inside : ServiceName → List String
  inside ledger = "ledger" ∷ []
  inside name = []

  abbrev pub reached : String → List ServiceName → List String
  reached url [] = []
  reached url (name ∷ rest) =
      let others = reached url rest in
      route_of name ∷ (if v.mounted (mount_of name) url then inside name else others)

  abbrev Counted : List String → Outcome (Sent V) × App W → Type 0
  Counted ids r = routes_of r.1.listeners ≡ ids

  track_inside-Counted :
      (name : ServiceName) (s : App W)
      → routes_of (track_inside v name s).1.listeners ≡ routes_of s.listeners ++ inside name
  unfolding track_inside track
  track_inside-Counted ledger s = routes_of-append s.listeners _
  track_inside-Counted alerts s = sym (append-nil _)
  track_inside-Counted sessions s = sym (append-nil _)
  track_inside-Counted users s = sym (append-nil _)
  track_inside-Counted soar s = sym (append-nil _)

  track_inside-ok :
      (name : ServiceName) (s : App W) → (u : App W) × (track_inside v name s ≡ (ok tt, u))
  unfolding track_inside track
  track_inside-ok ledger s = ((track v "ledger" s).1, refl)
  track_inside-ok alerts s = (s, refl)
  track_inside-ok sessions s = (s, refl)
  track_inside-ok users s = (s, refl)
  track_inside-ok soar s = (s, refl)

  router-Counted :
      (req : AppRequest) (name : ServiceName) (s : App W)
      → Counted (routes_of s.listeners ++ inside name) (router v req name s)
  unfolding router go_on forward
  router-Counted req name s =
      let inner = track_inside-Counted name s in
      let (u, e) = track_inside-ok name s in
      let at_u : routes_of u.listeners ≡ routes_of s.listeners ++ inside name = rw e at inner in
      elim (auth-AuthEnds v req.proxied.authorization u) [
        | inr (n, b, x, d, kept) ↦ rw (e, d, kept) at_u
        | inl (x, d, kept, _) ↦
            elim (Run-cases
              (proxy (v.upstream name) (get_service_url v name) req.proxied x.world)) [
                | inr (err, w, c) ↦ rw (e, d, c, kept) at_u
                | inl (out, w, c) ↦ rw (e, d, c, kept) at_u
              ]
      ]

  route_through-Counted :
      (names : List ServiceName) (req : AppRequest) (s : App W)
      → Counted
          (routes_of s.listeners ++ reached req.proxied.original_url names)
          (route_through v names req s)
  unfolding route_through track
  route_through-Counted [] req s = sym (append-nil _)
  route_through-Counted (name ∷ rest) req s =
      let (start, w) = v.hrtime s.world in
      let tracked : App W = record s {
        listeners = s.listeners ++ record { route = route_of name; start = start } ∷ [];
        world = w;
      } in
      let one : routes_of tracked.listeners ≡ routes_of s.listeners ++ route_of name ∷ [] =
        routes_of-append s.listeners _ in
      elim (Bool-cases (v.mounted (mount_of name) req.proxied.original_url)) [
        | inl here ↦ rw here (
            router-Counted req name tracked
            ∙ ap (λ ids. ids ++ inside name) one
            ∙ append_assoc (routes_of s.listeners) (route_of name ∷ []) (inside name))
        | inr other ↦ rw other (
            route_through-Counted rest req tracked
            ∙ ap (λ ids. ids ++ reached req.proxied.original_url rest) one
            ∙ append_assoc (routes_of s.listeners) (route_of name ∷ [])
                (reached req.proxied.original_url rest))
      ]

  -- When the response of a request that came to the routers is finished, the request is counted once
  -- under each route whose tracker it met, and not only under the one that served it: under those of
  -- all the routers before it, and under `ledger` twice where the ledger's router is mounted.
  pub finish-route_through :
      {Ms : Type 0} (to_ms : ℕ → Ms) (tick : ℕ → ℕ) (req : AppRequest) (s : App W) (f : Finished)
      (m : Metrics Ms)
      → s.listeners ≡ []
      → (finish to_ms tick f (route_through v routers req s).1.listeners m).requests
        ≡ increments f.status_code (reached req.proxied.original_url routers) m.requests
  finish-route_through to_ms tick req s f m fresh =
      let met : routes_of (route_through v routers req s).1.listeners
          ≡ reached req.proxied.original_url routers =
        route_through-Counted routers req s
        ∙ ap (λ ls. routes_of ls ++ reached req.proxied.original_url routers) fresh in
      finish-requests to_ms tick f (route_through v routers req s).1.listeners m
      ∙ ap (λ ids. increments f.status_code ids m.requests) met
