-- ===== src/Dashboard/Overview/Counts.antt =====
-- What the overview shows: the newest incidents, the alerts of each day, and how the heatmap draws
-- them.
use walmart_assignment.Base.{
  min, zero, suc, ◌≡◌, refl, ap, ◌∙◌, String, ℕ, ◌+◌, ◌≤◌, ◌&&◌, Bool, true, false, none, some,
  List, [], ◌∷◌, map, map-ext, take, drop, length, take-append-drop, count_by, count_by-append,
  count_by-all, All, leb, ◌-◌, Bool-cases, inl, inr, arith, length-take, sym,
}
use walmart_assignment.Base.Text.{str_eq, eq_iff}
use walmart_assignment.Base.Int.{pos}
use walmart_assignment.Base.Json.{Json}
use walmart_assignment.Dashboard.Heatmap.{color_class, stroke_needed}
use walmart_assignment.Dashboard.Overview.{
  Alert, is_high, Dates, count_at, or_zero, newest_first, incident_cards, cards, count_days,
  heat_data, heatmap_days, Page, on_data, on_message, on_messages,
}

count_at-add :
    (k key : String) (counts : List (String × ℕ))
    → str_eq k key ≡ true
    → or_zero (count_at key ((k, or_zero (count_at k counts) + 1) ∷ counts))
      ≡ or_zero (count_at key counts) + 1
count_at-add k key counts here =
    rw here (ap (λ x. or_zero (count_at x counts) + 1) ((eq_iff k key).0 here))

module _ (d : Dates) where
  -- A high alert of a day.
  abbrev pub is_high_on : String → Alert → Bool
  is_high_on key a = is_high a.severity && str_eq (d.day_key a.timestamp) key

  count_days-count_by :
      (key : String) (alerts : List Alert) (counts : List (String × ℕ))
      → or_zero (count_at key (count_days d alerts counts))
        ≡ or_zero (count_at key counts) + count_by (is_high_on key) alerts
  unfolding count_days
  count_days-count_by key [] counts = omega arith
  count_days-count_by key (a ∷ rest) counts = elim (Bool-cases (is_high a.severity)) [
    | inr other ↦ rw other (count_days-count_by key rest counts ∙ omega arith)
    | inl high ↦ elim (Bool-cases (str_eq (d.day_key a.timestamp) key)) [
      | inr elsewhere ↦
          let k = d.day_key a.timestamp in
          let ih = count_days-count_by key rest ((k, or_zero (count_at k counts) + 1) ∷ counts) in
          rw (high, elsewhere) ((rw elsewhere at ih) ∙ omega arith)
      | inl here ↦
          let k = d.day_key a.timestamp in
          let ih = count_days-count_by key rest ((k, or_zero (count_at k counts) + 1) ∷ counts) in
          let more = count_at-add k key counts here in
          rw (high, here) (ih ∙ (ap (λ n. n + count_by (is_high_on key) rest) more ∙ omega arith))
    ]
  ]

  -- The data of the heatmap has one entry for each of the days, in order, with the number of the high
  -- alerts whose timestamp is on that day.
  pub heat_data-count_by :
      (alerts : List Alert)
      → heat_data d alerts ≡ map (λ key. (key, count_by (is_high_on key) alerts)) d.last_days
  unfolding heat_data
  heat_data-count_by alerts =
      map-ext (λ key. ap (λ n. (key, n)) (count_days-count_by key alerts [] ∙ omega arith))
        d.last_days

  -- For every list of alerts, no day of the heatmap has a number of high alerts to draw: every day
  -- gets the class of seven and more of them, and no stroke.
  pub heatmap_days-Saturated :
      (alerts : List Alert)
      → All
          (λ x. (color_class x.high ≡ color_class (some 7)) × (stroke_needed x ≡ false))
          (heatmap_days d alerts)
  unfolding heatmap_days color_class stroke_needed
  heatmap_days-Saturated alerts = go (heat_data d alerts)
    where
      go :
          (xs : List (String × ℕ))
          → All
              (λ x. (color_class x.high ≡ color_class (some 7)) × (stroke_needed x ≡ false))
              (map (λ x. record { date = x.0; low = none; medium = none; high = none }) xs)
      go [] = tt
      go (x ∷ xs) = ((refl, refl), go xs)

  -- The order that `sort` is asked for: no alert stands before one that compares as greater.
  abbrev pub IsOrdered : List Alert → Type 0
  IsOrdered [] = Unit
  IsOrdered (a ∷ rest) =
      All (λ b. (n : ℕ) → newest_first d a b ≡ pos n → n ≡ 0) rest × IsOrdered rest

  -- What the specification of `sort` says of the sorted list.
  abbrev pub IsSorted : List Alert → List Alert → Type 0
  IsSorted sorted alerts =
      ((p : Alert → Bool) → count_by p sorted ≡ count_by p alerts) × IsOrdered sorted

  not_newer :
      (a b : Alert)
      → ((n : ℕ) → newest_first d a b ≡ pos n → n ≡ 0)
      → d.time b.timestamp ≤ d.time a.timestamp
  not_newer a b h = elim (Bool-cases (leb (d.time a.timestamp) (d.time b.timestamp))) [
    | inl le ↦
        let zero_apart = h (d.time b.timestamp - d.time a.timestamp) (rw le refl) in ground arith
    | inr gt ↦ ground arith
  ]

  -- Each alert of the second list is no newer than each of the first.
  abbrev pub NotNewer : List Alert → List Alert → Type 0
  NotNewer shown hidden = All (λ a. All (λ b. d.time b.timestamp ≤ d.time a.timestamp) hidden) shown

  all_not_newer :
      (a : Alert) (xs : List Alert)
      → All (λ b. (n : ℕ) → newest_first d a b ≡ pos n → n ≡ 0) xs
      → All (λ b. d.time b.timestamp ≤ d.time a.timestamp) xs
  all_not_newer a [] h = tt
  all_not_newer a (b ∷ xs) (h, hs) = (not_newer a b h, all_not_newer a xs hs)

  drop-All {ℓ} : (P : Alert → Type ℓ) (n : ℕ) (xs : List Alert) → All P xs → All P (drop n xs)
  drop-All P zero xs h = h
  drop-All P (suc n) [] h = tt
  drop-All P (suc n) (x ∷ xs) (h, hs) = drop-All P n xs hs

  take-NotNewer : (n : ℕ) (xs : List Alert) → IsOrdered xs → NotNewer (take n xs) (drop n xs)
  take-NotNewer zero xs h = tt
  take-NotNewer (suc n) [] h = tt
  take-NotNewer (suc n) (a ∷ xs) (h, hs) = (
    drop-All (λ b. d.time b.timestamp ≤ d.time a.timestamp) n xs (all_not_newer a xs h),
    take-NotNewer n xs hs,
  )

  -- If `sort` sorts the alerts as its specification says, then the grid shows the first six of the
  -- sorted alerts, all of them where there are fewer. With the hidden ones they are the alerts of the
  -- page, and no hidden alert is newer than a shown one.
  pub incident_cards-NotNewer :
      (alerts shown hidden : List Alert)
      → IsSorted (d.sort (newest_first d) alerts) alerts
      → shown ≡ take 6 (d.sort (newest_first d) alerts)
      → hidden ≡ drop 6 (d.sort (newest_first d) alerts)
      → (incident_cards d alerts false false ≡ cards shown)
        × ((length shown ≡ min 6 (length alerts))
            × (((p : Alert → Bool) → count_by p shown + count_by p hidden ≡ count_by p alerts)
                × NotNewer shown hidden))
  unfolding incident_cards
  incident_cards-NotNewer alerts shown hidden (same, ordered) is_shown is_hidden =
      let sorted : List Alert = d.sort (newest_first d) alerts in
      let count : (p : Alert → Bool)
          → count_by p (take 6 sorted) + count_by p (drop 6 sorted) ≡ count_by p alerts =
        λ p.
          sym (count_by-append p (take 6 sorted) (drop 6 sorted))
          ∙ (ap (count_by p) (take-append-drop 6 sorted) ∙ same p) in
      let size : length sorted ≡ length alerts =
        sym (count_by-all sorted) ∙ (same (λ x. true) ∙ count_by-all alerts) in
      rw (is_shown, is_hidden)
        (refl, ((length-take 6 sorted ∙ ap (min 6) size), (count, take-NotNewer 6 sorted ordered)))

-- Messages of any kind and number, each of an alert: every one of them makes the page load the
-- alerts again, and none of them the metrics, also where the alert is a high one.
pub on_messages-metrics :
    (messages : List (String × Json)) (p : Page)
    → ((on_messages messages p).invalidated ≡ p.invalidated + length messages)
      × ((on_messages messages p).refetched ≡ p.refetched)
unfolding on_messages on_message on_data
on_messages-metrics [] p = (omega arith, refl)
on_messages-metrics ((event, payload) ∷ rest) p =
    let ih = on_messages-metrics rest (on_message event payload p) in (ih.0 ∙ omega arith, ih.1)
