-- ===== src/Gateway/Server/Public.antt =====
-- What is answered in front of the authentication.
use walmart_assignment.Base.{◌≡◌, refl, ap, ◌∙◌, false, inl, inr, String, Bool-cases, arith}
use walmart_assignment.Base.Js.{ok, Run-cases, and_then-eq-ok, pure}
use walmart_assignment.Gateway.Proxy.{Result}
use walmart_assignment.Gateway.App.{
  ServiceName, AppServices, AppRequest, App, Sent, answered, handle,
}
use walmart_assignment.Gateway.App.Requests.{Verified, Forwarded, handle-answered}
use walmart_assignment.Gateway.Server.{routed, Front, serve, send_metrics, route_request}

module _ {Decoded Num V W : Type 0} (f : Front W) (v : AppServices Decoded Num V W) where
  route_request-routed :
      (req : AppRequest) (a : Sent V) (s t : App W)
      → route_request f v req s ≡ (ok (routed a), t)
      → handle v req s ≡ (ok a, t)
  route_request-routed req a s t h =
      let (b, u, r, e) = and_then-eq-ok (handle v req s) (λ sent. pure (routed sent)) h in
      let outcome : ok (routed b) ≡ ok (routed a) = ap (λ x. x.0) e in
      let same : b ≡ a = cc in let state : u ≡ t = ap (λ x. x.1) e in r ∙ rw (same, state) refl

  send_metrics-not_routed : (a : Sent V) (s t : App W) → ¬ (send_metrics f v s ≡ (ok (routed a), t))
  send_metrics-not_routed a s t h = elim (Run-cases (f.render_metrics s.world)) [
    | inr (e, u, r) ↦ ground arith
    | inl (b, u, r) ↦ ground arith
  ]

  -- Whatever the method and the URL are: a service answers only a request that is for none of the
  -- public routes `/healthz`, `/metrics`, `/docs-json` and `/docs`, and that has a bearer token that
  -- verifies under the configured secret; and it answers what was forwarded.
  pub serve-answered :
      (method url : String) (req : AppRequest) (name : ServiceName) (r : Result V) (s t : App W)
      → serve f v method url req s ≡ (ok (routed (answered name r)), t)
      → (f.gets "/healthz" method url ≡ false)
        × (f.gets "/metrics" method url ≡ false)
        × (f.gets "/docs-json" method url ≡ false)
        × (f.mounted "/docs" url ≡ false)
        × Verified v req.proxied.authorization s.world
        × Forwarded v req name r
  unfolding serve
  serve-answered method url req name r s t h = elim (Bool-cases (f.gets "/healthz" method url)) [
    | inl a ↦ absurd (let x = rw a at h in ground arith)
    | inr a ↦ elim (Bool-cases (f.gets "/metrics" method url)) [
      | inl b ↦ absurd (send_metrics-not_routed (answered name r) s t (rw (a, b) at h))
      | inr b ↦ elim (Bool-cases (f.gets "/docs-json" method url)) [
        | inl c ↦ absurd (let x = rw (a, b, c) at h in ground arith)
        | inr c ↦ elim (Bool-cases (f.mounted "/docs" url)) [
          | inl d ↦ absurd (let x = rw (a, b, c, d) at h in ground arith)
          | inr d ↦
              let routed_there =
                route_request-routed req (answered name r) s t (rw (a, b, c, d) at h) in
              let (token, sent) = handle-answered v req name r s t routed_there in
              (a, b, c, d, token, sent)
        ]
      ]
    ]
  ]
