-- ===== src/Gateway/Proxy.antt =====
-- api-gateway/src/lib/proxy.ts: the proxy to a service behind a circuit breaker.
-- The breaker, fetch, URLs, the JSON functions, the schema and the timer are parameters.
use walmart_assignment.Base.{
  ◌≡◌, refl, ◌⊎◌, inl, inr, String, ℕ, ◌<◌, ◌≤◌, Bool, true, false, ◌&&◌, Option, none, some, List,
  [], ◌∷◌, ◌++◌, leb, ltb, if◌then◌else◌, arith, Bool-cases,
}
use walmart_assignment.Base.Text.{is_truthy, includes}
use walmart_assignment.Base.Js.{
  Exn, Outcome, ok, thrown, error, Action, pure, throw, ◌>>=◌, ◌>>◌, Returns, Run-cases,
  Outcome-cases,
}

-- The upstream's response: its status, whether it is `ok`, and its text.
pub record Upstream : Type 0 where
  pub status : ℕ
  pub text : String

-- The `Result` of a fetch; `none` is `undefined`.
pub record Result (V : Type 0) : Type 0 where
  pub status : ℕ
  pub body : Option V

pub record Options : Type 0 where
  pub method : String
  pub headers : List (String × String)
  pub body : Option String

pub record Request : Type 0 where
  pub original_url : String
  pub method : String
  pub authorization : Option String
  pub content_type : Option String
  pub body_json : String

-- `resolve` is `new URL(originalUrl, target).toString()`; `fetch url options` is a fetch whose controller aborts it after ten seconds, `fire action` the
-- breaker's `fire` with the fallback of this code.
pub record ProxyServices (V W : Type 0) : Type 0 where
  pub resolve : String → String → Outcome String
  pub fetch : String → Options → Action W Upstream
  pub parse : String → Outcome V
  pub check_schema : V → Outcome (Unit {0})
  pub fire : Action W (Result V) → Result V → Action W (Result V)
  pub unavailable : V

module _ {V W : Type 0} (p : ProxyServices V W) (target : String) where
  -- `res.ok` of fetch: the statuses 200 to 299.
  abbrev is_ok : ℕ → Bool
  is_ok status = leb 200 status && ltb status 300

  -- `text ? JSON.parse(text) : undefined`, and the check of a body that is there.
  pub read_body : ℕ → String → Action W (Result V)
  read_body status text =
      if is_truthy text
      then (do
        body ← (λ w. (p.parse text, w))
        (if is_ok status then (λ w. (p.check_schema body, w)) else pure tt)
        pure (record { status = status; body = some body }))
      else pure (record { status = status; body = none })

  pub read_response : Upstream → Action W (Result V)
  read_response res =
      if leb 500 res.status then throw (error "upstream error") else read_body res.status res.text

  pub fetcher : String → Options → Action W (Result V)
  fetcher url options = p.fetch url options >>= read_response

  -- The result of `breaker.fallback`.
  abbrev pub fallback : Result V
  fallback = record { status = 503; body = some p.unavailable }

  -- `if (value) headers[name] = value`.
  abbrev header : String → Option String → List (String × String)
  header name none = []
  header name (some x) = if is_truthy x then (name, x) ∷ [] else []

  abbrev pub options_of : Request → Options
  options_of req = record {
    method = req.method;
    headers = header "Authorization" req.authorization ++ header "Content-Type" req.content_type;
    body = if includes req.method ("GET" ∷ "HEAD" ∷ []) then none else some req.body_json;
  }

  -- The `try` block's answer, and that of its `catch`.
  pub reply : Outcome (Result V) × W → Outcome (Result V) × W
  reply (ok r, w) = (ok r, w)
  reply (thrown e, w) = (ok fallback, w)

  -- From the address on.
  pub send : Request → String → Action W (Result V)
  unfolding reply
  send req url w = reply (p.fire (fetcher url (options_of req)) fallback w)

  -- The handler: the status and the body that it sends, `none` for a response without a body. An
  -- address that is none throws, outside the `try` block.
  unfoldable pub proxy : Request → Action W (Result V)
  unfolding send
  proxy req = do url ← (λ w. (p.resolve req.original_url target, w)); send req url

  -- What the breaker promises: firing ends as the action did, from the state it found, or in the
  -- fallback, or throws.
  abbrev pub IsBreaker : Type 0
  IsBreaker =
      (action : Action W (Result V)) (r : Result V) (w w' : W)
      → p.fire action fallback w ≡ (ok r, w')
      → (r ≡ fallback) ⊎ (action w ≡ (ok r, w'))

  -- What is asked of the upstream: the method of the request, its body but for `GET` and `HEAD`, and
  -- its authorization, if there is one.
  abbrev pub IsRequest : Request → Options → Type 0
  IsRequest req o =
      (o.method ≡ req.method)
      × (o.body ≡ (if includes req.method ("GET" ∷ "HEAD" ∷ []) then none else some req.body_json))
      × ((x : String)
          → req.authorization ≡ some x
          → is_truthy x ≡ true
          → (rest : List (String × String)) × (o.headers ≡ ("Authorization", x) ∷ rest))

  -- The body that may be sent for an upstream's response: none just if its text is empty, and
  -- otherwise the parsed text, which has the schema's shape where the status is a success.
  abbrev pub IsBody : Upstream → Option V → Type 0
  IsBody res none = is_truthy res.text ≡ false
  IsBody res (some v) =
      (is_truthy res.text ≡ true)
      × (p.parse res.text ≡ ok v)
      × (200 ≤ res.status → res.status < 300 → p.check_schema v ≡ ok tt)

  -- A result that is the upstream's for these options, fetched from this state.
  abbrev pub Relayed : String → Options → W → Result V → Type 0
  Relayed url o w r =
      (res : Upstream) × (u : W) × (p.fetch url o w ≡ (ok res, u))
      × (res.status < 500)
      × (r.status ≡ res.status)
      × IsBody res r.body

  -- The breaker, fired with the fetch for these options, throws or falls back.
  abbrev pub Broken : String → Options → W → Type 0
  Broken url o w =
      (u : W) × (((e : Exn) × (p.fire (fetcher url o) fallback w ≡ (thrown e, u)))
        ⊎ (p.fire (fetcher url o) fallback w ≡ (ok fallback, u)))

  -- A result that may be sent.
  abbrev pub IsSound : Request → String → W → Result V → Type 0
  IsSound req url w r =
      (o : Options) × IsRequest req o
      × (((r ≡ record { status = 503; body = some p.unavailable }) × Broken url o w)
          ⊎ Relayed url o w r)

  options_of-IsRequest : (req : Request) → IsRequest req (options_of req)
  options_of-IsRequest req =
      (refl, refl, λ x given full. (header "Content-Type" req.content_type, rw (given, full) refl))

  read_body-IsBody :
      (res : Upstream) (r : Result V) (w w' : W)
      → read_body res.status res.text w ≡ (ok r, w')
      → (r.status ≡ res.status) × IsBody res r.body
  unfolding read_body
  read_body-IsBody res r w w' h = elim (Bool-cases (is_truthy res.text)) [
    | inr empty ↦
        let same : record { status = res.status; body = none } ≡ r = ground arith in
        rw (← same) (refl, empty)
    | inl given ↦ elim (Outcome-cases (p.parse res.text)) [
      | inr (e, b) ↦ absurd (ground arith)
      | inl (v, b) ↦
          let same : record { status = res.status; body = some v } ≡ r = ground arith in
          rw (← same) (refl, (given, b, λ low high. ground arith))
    ]
  ]

  fetcher-Relayed :
      (url : String) (options : Options) (r : Result V) (w w' : W)
      → fetcher url options w ≡ (ok r, w')
      → Relayed url options w r
  unfolding fetcher read_response
  fetcher-Relayed url options r w w' h = elim (Run-cases (p.fetch url options w)) [
    | inr (e, u, b) ↦ absurd (ground arith)
    | inl (res, u, b) ↦ elim (Bool-cases (leb 500 res.status)) [
      | inl high ↦ absurd (ground arith)
      | inr low ↦
          let (status, body) = read_body-IsBody res r u w' (rw (b, low) at h) in
          (res, u, b, ground arith, status, body)
    ]
  ]

  -- Where the address of the service is one, the handler always answers. With a breaker that ends as
  -- the fetch did or in the fallback, the answer is 503 and the fixed body, where the breaker throws or
  -- falls back, or the upstream's to the request's method, body and authorization: then its status is the upstream's and below 500, and its
  -- body is the upstream's parsed text, if there is one, which for a success has the schema's shape.
  pub proxy-IsSound :
      (breaker : IsBreaker) (req : Request) (url : String) (w : W)
      → p.resolve req.original_url target ≡ ok url
      → Returns (λ r _. IsSound req url w r) (proxy req w)
  unfolding proxy
  proxy-IsSound breaker req url w address =
      let job = fetcher url (options_of req) in
      elim (Run-cases (p.fire job fallback w)) [
        | inr (e, u, b) ↦
            rw (address, b) (options_of req, options_of-IsRequest req, inl (refl, (u, inl (e, b))))
        | inl (r, u, b) ↦ elim (breaker job r w u b) [
          | inl fell ↦
              rw (address, b)
                (options_of req, options_of-IsRequest req, inl (fell, (u, inr (rw fell at b))))
          | inr run ↦
              rw (address, b)
                (options_of req, options_of-IsRequest req, inr (fetcher-Relayed _ _ r w u run))
        ]
      ]
