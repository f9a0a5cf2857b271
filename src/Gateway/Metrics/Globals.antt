-- ===== src/Gateway/Metrics/Globals.antt =====
-- api-gateway/src/middleware/metrics.ts: what the module sets up when it is loaded, kept on `global` so
-- that it is set up once for all copies of the module. The registry of prom-client is a parameter.
use walmart_assignment.Base.{
  ◌≡◌, refl, sym, ap, ◌⊎◌, ◌∙◌, String, ℕ, zero, suc, ◌+◌, ◌*◌, Bool, true, List, [], ◌∷◌,
  if◌then◌else◌, Bool-cases, inl, inr,
}
use walmart_assignment.Base.Js.{ok, Action, pure, ◌>>◌, and_then-eq-ok, Run-cases}

-- `collectDefaultMetrics()`, and `new Counter` or `new Histogram` of a name and its buckets.
pub record Registry (W : Type 0) : Type 0 where
  pub collect_default_metrics : Action W (Unit {0})
  pub new_metric : String → List ℕ → Action W (Unit {0})

-- `global.metricsInitialized`, and whether each of the three metrics is there.
pub record Globals (W : Type 0) : Type 0 where
  pub metrics_initialized : Bool
  pub api_request_counter : Bool
  pub ledger_log_counter : Bool
  pub api_latency_histogram : Bool
  pub world : W

-- `Array.from({ length: n }, (_v, i) => (i + 1) * 200)`, from an index on.
abbrev pub steps_from : ℕ → ℕ → List ℕ
steps_from i zero = []
steps_from i (suc n) = (i + 1) * 200 ∷ steps_from (i + 1) n

abbrev pub buckets : List ℕ
buckets = steps_from 0 10

module _ {W : Type 0} (r : Registry W) where
  abbrev pub on_world : Action W (Unit {0}) → Action (Globals W) (Unit {0})
  on_world m s = let (o, w) = m s.world in (o, record s { world = w })

  abbrev pub set_globals : (Globals W → Globals W) → Action (Globals W) (Unit {0})
  set_globals f s = (ok tt, f s)

  -- What is done unless it was done before.
  abbrev pub unless : Bool → Action (Globals W) (Unit {0}) → Action (Globals W) (Unit {0})
  unless done m = if done then pure tt else m

  unfoldable pub init_defaults : Action (Globals W) (Unit {0})
  init_defaults s =
      unless s.metrics_initialized
        (on_world r.collect_default_metrics
          >> set_globals (λ t. record t { metrics_initialized = true }))
        s

  unfoldable pub init_requests : Action (Globals W) (Unit {0})
  init_requests s =
      unless s.api_request_counter
        (on_world (r.new_metric "api_gateway_requests_total" [])
          >> set_globals (λ t. record t { api_request_counter = true }))
        s

  unfoldable pub init_ledger : Action (Globals W) (Unit {0})
  init_ledger s =
      unless s.ledger_log_counter
        (on_world (r.new_metric "ledger_log_total" [])
          >> set_globals (λ t. record t { ledger_log_counter = true }))
        s

  unfoldable pub init_latency : Action (Globals W) (Unit {0})
  init_latency s =
      unless s.api_latency_histogram
        (on_world (r.new_metric "api_gateway_latency_ms" buckets)
          >> set_globals (λ t. record t { api_latency_histogram = true }))
        s

  -- The module is loaded.
  unfoldable pub load : Action (Globals W) (Unit {0})
  load = do init_defaults; init_requests; init_ledger; init_latency

  -- Loaded again and again.
  unfoldable pub load_again : ℕ → Action (Globals W) (Unit {0})
  load_again zero = pure tt
  load_again (suc n) = let rest = load_again n in load >> rest

  -- Everything is there.
  pub record IsLoaded (s : Globals W) : Type 0 where
    pub defaults : s.metrics_initialized ≡ true
    pub requests : s.api_request_counter ≡ true
    pub ledger : s.ledger_log_counter ≡ true
    pub latency : s.api_latency_histogram ≡ true

  -- One of the parts of the set-up.
  abbrev part :
      (Globals W → Bool)
      → Action W (Unit {0})
      → (Globals W → Globals W)
      → Action (Globals W) (Unit {0})
  part done m f s = unless (done s) (on_world m >> set_globals f) s

  part-cases :
      (done : Globals W → Bool) (m : Action W (Unit {0})) (f : Globals W → Globals W)
      (s t : Globals W) (a : Unit {0})
      → part done m f s ≡ (ok a, t)
      → ((done s ≡ true) × (t ≡ s)) ⊎ ((w : W) × (t ≡ f (record s { world = w })))
  part-cases done m f s t a h = elim (Bool-cases (done s)) [
    | inl old ↦ inl (old, ap (λ x. x.1) (sym (rw old at h)))
    | inr new ↦ elim (Run-cases (m s.world)) [
      | inr (e, w, k) ↦ absurd (let x = rw (new, k) at h in cc)
      | inl (b, w, k) ↦ inr (w, ap (λ x. x.1) (sym (rw (new, k) at h)))
    ]
  ]

  part-sets :
      (done : Globals W → Bool) (m : Action W (Unit {0})) (f : Globals W → Globals W)
      → ((s : Globals W) → done (f s) ≡ true)
      → (s t : Globals W) (a : Unit {0}) → part done m f s ≡ (ok a, t)
      → done t ≡ true
  part-sets done m f sets s t a h = elim (part-cases done m f s t a h) [
    | inl (old, e) ↦ rw e old
    | inr (w, e) ↦ rw e (sets (record s { world = w }))
  ]

  part-keeps :
      (done : Globals W → Bool) (m : Action W (Unit {0})) (f : Globals W → Globals W)
      (g : Globals W → Bool)
      → ((s : Globals W) (w : W) → g (f (record s { world = w })) ≡ g s)
      → (s t : Globals W) (a : Unit {0}) → part done m f s ≡ (ok a, t)
      → g t ≡ g s
  part-keeps done m f g keeps s t a h = elim (part-cases done m f s t a h) [
    | inl (old, e) ↦ ap g e
    | inr (w, e) ↦ ap g e ∙ keeps s w
  ]

  load-IsLoaded : (s t : Globals W) → load s ≡ (ok tt, t) → IsLoaded t
  unfolding load init_defaults init_requests init_ledger init_latency
  load-IsLoaded s t h =
      let (a₁, s₁, e₁, h₁) = and_then-eq-ok (init_defaults s) _ h in
      let (a₂, s₂, e₂, h₂) = and_then-eq-ok (init_requests s₁) _ h₁ in
      let (a₃, s₃, e₃, e₄) = and_then-eq-ok (init_ledger s₂) _ h₂ in
      record {
        defaults =
            part-keeps (λ x. x.api_latency_histogram) _ _ (λ x. x.metrics_initialized) (λ x w. refl)
              s₃ t tt e₄
            ∙ (part-keeps (λ x. x.ledger_log_counter) _ _ (λ x. x.metrics_initialized) (λ x w. refl)
                  s₂ s₃ a₃ e₃
                ∙ (part-keeps (λ x. x.api_request_counter) _ _ (λ x. x.metrics_initialized)
                      (λ x w. refl) s₁ s₂ a₂ e₂
                    ∙ part-sets (λ x. x.metrics_initialized) _ _ (λ x. refl) s s₁ a₁ e₁));
        requests =
            part-keeps (λ x. x.api_latency_histogram) _ _ (λ x. x.api_request_counter) (λ x w. refl)
              s₃ t tt e₄
            ∙ (part-keeps (λ x. x.ledger_log_counter) _ _ (λ x. x.api_request_counter) (λ x w. refl)
                  s₂ s₃ a₃ e₃
                ∙ part-sets (λ x. x.api_request_counter) _ _ (λ x. refl) s₁ s₂ a₂ e₂);
        ledger =
            part-keeps (λ x. x.api_latency_histogram) _ _ (λ x. x.ledger_log_counter) (λ x w. refl)
              s₃ t tt e₄
            ∙ part-sets (λ x. x.ledger_log_counter) _ _ (λ x. refl) s₂ s₃ a₃ e₃;
        latency = part-sets (λ x. x.api_latency_histogram) _ _ (λ x. refl) s₃ t tt e₄;
      }

  IsLoaded-load : (s : Globals W) → IsLoaded s → load s ≡ (ok tt, s)
  unfolding load init_defaults init_requests init_ledger init_latency
  IsLoaded-load s l = rw (l.defaults, l.requests, l.ledger, l.latency) refl

  -- Once the module was loaded without an exception, loading further copies of it neither throws nor
  -- registers anything: however many there are, the globals and the registry stay as they are.
  pub load-load_again :
      (s t : Globals W) (n : ℕ) → load s ≡ (ok tt, t) → load_again n t ≡ (ok tt, t)
  unfolding load_again
  load-load_again s t zero h = refl
  load-load_again s t (suc n) h =
      rw (IsLoaded-load t (load-IsLoaded s t h)) (load-load_again s t n h)
