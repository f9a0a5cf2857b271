-- ===== src/Dashboard/Debounce.antt =====
-- ui-dashboard/hooks/useDebounce.ts, and its copy in pages/AnomalyViewer.tsx.
use walmart_assignment.Base.{
  ◌≡◌, refl, ℕ, ◌+◌, Bool, false, Option, none, some, List, [], ◌∷◌, leb, any_by, if◌then◌else◌,
  Bool-cases, inl, inr, ◌∙◌, ap,
}

-- The last value rendered, the debounced one, and the pending timer: when it is due, and its value.
pub record Debounced (A : Type 0) : Type 0 where
  pub value : A
  pub debounced : A
  pub timer : Option (ℕ × A)

module _ {A : Type 0} (same : A → A → Bool) (delay : ℕ) where
  -- A render with a value, at a time: the effect runs again only if the value is another one.
  unfoldable pub render : A → ℕ → Debounced A → Debounced A
  render v now s =
      if same s.value v then s else record s { value = v; timer = some (now + delay, v) }

-- The clock reaches a time.
module _ {A : Type 0} where
  abbrev expire : ℕ → Option (ℕ × A) → Debounced A → Debounced A
  expire now none s = s
  expire now (some x) s = if leb x.0 now then record s { debounced = x.1; timer = none } else s

  unfoldable pub tick : ℕ → Debounced A → Debounced A
  tick now s = expire now s.timer s

  unfoldable pub ticks : List ℕ → Debounced A → Debounced A
  ticks [] s = s
  ticks (now ∷ rest) s = ticks rest (tick now s)

  tick_idle : (now : ℕ) (s : Debounced A) → s.timer ≡ none → tick now s ≡ s
  unfolding tick
  tick_idle now s h = ap (λ o. expire now o s) h

  tick_pending :
      (now due : ℕ) (v : A) (s : Debounced A)
      → s.timer ≡ some (due, v)
      → tick now s ≡ (if leb due now then record s { debounced = v; timer = none } else s)
  unfolding tick
  tick_pending now due v s h = ap (λ o. expire now o s) h

  ticks_idle : (ts : List ℕ) (s : Debounced A) → s.timer ≡ none → ticks ts s ≡ s
  unfolding ticks
  ticks_idle [] s h = refl
  ticks_idle (now ∷ rest) s h = ap (ticks rest) (tick_idle now s h) ∙ ticks_idle rest s h

  ticks_pending :
      (ts : List ℕ) (s : Debounced A) (due : ℕ) (v : A)
      → s.timer ≡ some (due, v)
      → (ticks ts s).debounced ≡ (if any_by (leb due) ts then v else s.debounced)
  unfolding ticks
  ticks_pending [] s due v h = refl
  ticks_pending (now ∷ rest) s due v h =
      ap (λ x. (ticks rest x).debounced) (tick_pending now due v s h)
      ∙ elim (Bool-cases (leb due now)) [
        | inl reached ↦ rw reached (
            ap (λ x. x.debounced) (ticks_idle rest (record s { debounced = v; timer = none }) refl))
        | inr not_yet ↦ rw not_yet (ticks_pending rest s due v h)
      ]

-- A render with another value at a time `now`, and then no other: the debounced value becomes the new
-- one when the clock has reached `now + delay`, and is the old one until then, whatever was pending.
pub ticks-render :
    {A : Type 0} (same : A → A → Bool) (delay : ℕ) (v : A) (now : ℕ) (s : Debounced A) (ts : List ℕ)
    → same s.value v ≡ false
    → (ticks ts (render same delay v now s)).debounced
      ≡ (if any_by (leb (now + delay)) ts then v else s.debounced)
unfolding render
ticks-render same delay v now s ts other =
    rw other (
      ticks_pending ts (record s { value = v; timer = some (now + delay, v) }) (now + delay) v refl)
