-- ===== src/Dashboard/Overview/Render/Titles.antt =====
-- The cards of the page against the alerts, and when they can be drawn.
use mathlib.Core.Option.{some_inj}
use mathlib.Core.List.{append-nil}
use walmart_assignment.Base.{
  ◌≡◌, refl, ap, subst, ◌↔◌, String, Bool, true, false, Option, none, some, List, [], ◌∷◌, map,
  take, All, if◌then◌else◌, Bool-cases, inl, inr,
}
use walmart_assignment.Dashboard.View.{Nodes, nil, >>=-eq-some, join_nodes}
use walmart_assignment.Dashboard.View.Shown.{in_nodes, texts}
use walmart_assignment.Dashboard.Heatmap.{Calendar}
use walmart_assignment.Dashboard.Heatmap.Render.{Numbers, Event, Tooltip}
use walmart_assignment.Dashboard.Overview.{Alert, Dates, cards, incident_cards, newest_first}
use walmart_assignment.Dashboard.Overview.Render.{
  Metrics, heat_dates, alert_card, alert_cards, card_grid, grid_view, page_view, dashboard_view,
}

-- The titles of the cards.
abbrev pub titles : {E : Type 0} → Nodes E → List (List String)
titles ns = map (λ x. texts x.1) (in_nodes "h3" ns)

alert_cards-titles :
    {E : Type 0} (distance : String → Option String) (alerts : List Alert) (ns : Nodes E)
    → alert_cards distance alerts ≡ some ns
    → titles ns ≡ map (λ a. a.title ∷ []) alerts
unfolding alert_cards in_nodes texts
alert_cards-titles {E} distance [] ns e = subst (λ x. titles {E = E} x ≡ []) (some_inj.0 e) refl
alert_cards-titles {E} distance (a ∷ rest) ns e =
    let (text, t, e₁) = >>=-eq-some (distance a.timestamp) _ e in
    let (more, m, e₂) = >>=-eq-some (alert_cards distance rest) _ e₁ in
    subst (λ x. titles {E = E} x ≡ (a.title ∷ []) ∷ map (λ b. b.title ∷ []) rest) (some_inj.0 e₂)
      (ap (λ ts. (a.title ∷ []) ∷ ts) (alert_cards-titles distance rest more m))

alert_cards-All :
    {E : Type 0} (distance : String → Option String) (alerts : List Alert)
    → ((ns : Nodes E) × (alert_cards distance alerts ≡ some ns))
      ↔ All (λ a. (text : String) × (distance a.timestamp ≡ some text)) alerts
unfolding alert_cards
alert_cards-All distance [] = ((λ h. tt), (λ h. (nil, refl)))
alert_cards-All {E} distance (a ∷ rest) = (
  (λ h.
      let (text, t, e₁) = >>=-eq-some (distance a.timestamp) _ h.1 in
      let (more, m, e₂) = >>=-eq-some (alert_cards {E = E} distance rest) _ e₁ in
      ((text, t), (alert_cards-All {E = E} distance rest).0 (more, m))),
  (λ h.
      let (more, m) = (alert_cards-All {E = E} distance rest).1 h.1 in
      (join_nodes (alert_card a h.0.0) more, rw (h.0.1, m) refl)),
)

module _ {N : Type 0} (n : Numbers N) (d : Dates) (c : Calendar)
    (distance : String → Option String) where
  -- The alerts that the page shows.
  abbrev pub newest : List Alert → List Alert
  newest alerts = take 6 (d.sort (newest_first d) alerts)

  abbrev pub IsDated : Alert → Type 0
  IsDated a = (text : String) × (distance a.timestamp ≡ some text)

  told_iff : {b : Bool} {u : Unit {0}} → (if b then some (tt {0}) else none) ≡ some u → b ≡ true
  told_iff {b} h = elim (Bool-cases b) [ inl t ↦ t | inr f ↦ absurd (let no = rw f at h in cc) ]

  -- With the alerts loaded, the page is rendered just if every high alert has a date that can be told,
  -- and each of the newest six too; an alert that has none takes away the whole page, gauges and
  -- heatmap included.
  pub dashboard_view-IsDated :
      (alerts : List Alert) (metrics : Option (Metrics N)) (size : N × N)
      (tooltip : Option (Tooltip N))
      → ((ns : Nodes Event) × (dashboard_view n d c distance alerts false false metrics size tooltip
            ≡ some ns))
        ↔ (heat_dates distance alerts ≡ true) × All IsDated (newest alerts)
  unfolding dashboard_view incident_cards
  dashboard_view-IsDated alerts metrics size tooltip = (
    (λ h.
        let (u, told, e₀) =
          >>=-eq-some (if heat_dates distance alerts then some (tt {0}) else none) _ h.1 in
        let (grid, g, e₁) =
          >>=-eq-some (grid_view {E = Event} distance (cards (newest alerts))) _ e₀ in
        let (shown, s, e₂) = >>=-eq-some (alert_cards {E = Event} distance (newest alerts)) _ g in
        (told_iff told, (alert_cards-All {E = Event} distance (newest alerts)).0 (shown, s))),
    (λ h.
        let (shown, s) = (alert_cards-All {E = Event} distance (newest alerts)).1 h.1 in
        (page_view n d c alerts metrics size tooltip (card_grid shown), rw (h.0, s) refl)),
  )

  -- The cards are headed by the titles of the newest alerts, at most six, in this order.
  pub grid_view-titles :
      (alerts : List Alert) (ns : Nodes Event)
      → grid_view distance (incident_cards d alerts false false) ≡ some ns
      → titles ns ≡ map (λ a. a.title ∷ []) (newest alerts)
  unfolding incident_cards in_nodes
  grid_view-titles alerts ns e =
      let (shown, s, e₁) = >>=-eq-some (alert_cards {E = Event} distance (newest alerts)) _ e in
      subst (λ x. titles {E = Event} x ≡ map (λ a. a.title ∷ []) (newest alerts)) (some_inj.0 e₁)
        (rw (append-nil (in_nodes "h3" shown))
          (alert_cards-titles {E = Event} distance (newest alerts) shown s))
