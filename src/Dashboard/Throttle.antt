-- ===== src/Dashboard/Throttle.antt =====
-- ui-dashboard/pages/AuditLedger.tsx: `throttle`. The function takes no arguments here, and a run of
-- it is recorded by its time.
use walmart_assignment.Base.{
  ◌≡◌, refl, ℕ, ◌+◌, ◌-◌, ◌≤◌, Option, none, some, List, [], ◌∷◌, leb, if◌then◌else◌, Bool-cases,
  arith, inl, inr, ◌<◌,
}

-- `last`, the time at which the pending timer is due, and the times at which `fn` ran, newest first.
pub record Throttled : Type 0 where
  pub last : ℕ
  pub timer : Option ℕ
  pub runs : List ℕ

abbrev pub fresh : Throttled
fresh = record { last = 0; timer = none; runs = [] }

abbrev pub ran : ℕ → Throttled → Throttled
ran now t = record t { last = now; runs = now ∷ t.runs }

pub data Event : Type 0 where
  call fire : ℕ → Event

module _ (delay : ℕ) where
  -- A call at the time `now`; `now - last >= delay` is read in the integers.
  unfoldable pub called : ℕ → Throttled → Throttled
  called now t =
      if leb (t.last + delay) now
      then ran now t
      else record t { timer = some (now + (t.last + delay - now)) }

  abbrev expire : ℕ → Option ℕ → Throttled → Throttled
  expire now none t = t
  expire now (some due) t = if leb due now then record (ran now t) { timer = none } else t

  -- The timer's callback, which runs at the time `now`.
  unfoldable pub fired : ℕ → Throttled → Throttled
  fired now t = expire now t.timer t

  abbrev pub step : Event → Throttled → Throttled
  step (call now) = called now
  step (fire now) = fired now

  unfoldable pub run : List Event → Throttled → Throttled
  run [] t = t
  run (e ∷ es) t = run es (step e t)

  -- The timers are prompt: no call comes when the pending timer is already due.
  abbrev pub IsPrompt : List Event → Throttled → Type 0
  IsPrompt [] t = Unit
  IsPrompt (call now ∷ es) t =
      ((due : ℕ) → t.timer ≡ some due → now < due) × IsPrompt es (called now t)
  IsPrompt (fire now ∷ es) t = IsPrompt es (fired now t)

  -- Two runs of `fn` are at least the delay apart.
  abbrev pub IsSpaced : List ℕ → Type 0
  IsSpaced [] = Unit
  IsSpaced (b ∷ []) = Unit
  IsSpaced (b ∷ a ∷ rest) = (a + delay ≤ b) × IsSpaced (a ∷ rest)

  abbrev IsLast : ℕ → List ℕ → Type 0
  IsLast n [] = Unit
  IsLast n (b ∷ rest) = b ≡ n

  abbrev IsValid : Throttled → Type 0
  IsValid t =
      ((due : ℕ) → t.timer ≡ some due → due ≡ t.last + delay)
      × (IsLast t.last t.runs × IsSpaced t.runs)

  ran-IsSpaced :
      (now last : ℕ) (runs : List ℕ)
      → IsLast last runs
      → IsSpaced runs
      → last + delay ≤ now
      → IsSpaced (now ∷ runs)
  ran-IsSpaced now last [] l s h = tt
  ran-IsSpaced now last (b ∷ rest) l s h = (omega arith, s)

  called-IsValid :
      (now : ℕ) (t : Throttled)
      → ((due : ℕ) → t.timer ≡ some due → now < due)
      → IsValid t
      → IsValid (called now t)
  unfolding called
  called-IsValid now t prompt (due, (last, spaced)) = elim (Bool-cases (leb (t.last + delay) now)) [
    | inl late ↦ rw late (
      (λ d h. absurd (let a = prompt d h in let b = due d h in ground arith)),
      (refl, ran-IsSpaced now t.last t.runs last spaced (ground arith)),
    )
    | inr early ↦ rw early ((λ d h. ground arith), (last, spaced))
  ]

  expire-IsValid :
      (now : ℕ) (o : Option ℕ) (t : Throttled) → t.timer ≡ o → IsValid t → IsValid (expire now o t)
  expire-IsValid now none t pending v = v
  expire-IsValid now (some d) t pending (due, (last, spaced)) = elim (Bool-cases (leb d now)) [
    | inl reached ↦
        let e = due d pending in
        rw reached
          ((λ x h. absurd (cc)), (refl, ran-IsSpaced now t.last t.runs last spaced (ground arith)))
    | inr not_yet ↦ rw not_yet (due, (last, spaced))
  ]

  fired-IsValid : (now : ℕ) (t : Throttled) → IsValid t → IsValid (fired now t)
  unfolding fired
  fired-IsValid now t = expire-IsValid now t.timer t refl

  run-IsValid : (es : List Event) (t : Throttled) → IsPrompt es t → IsValid t → IsValid (run es t)
  unfolding run
  run-IsValid [] t p v = v
  run-IsValid (call now ∷ es) t (h, p) v =
      run-IsValid es (called now t) p (called-IsValid now t h v)
  run-IsValid (fire now ∷ es) t p v = run-IsValid es (fired now t) p (fired-IsValid now t v)

  -- With prompt timers, whatever calls are made and whenever the timers fire: two runs of the
  -- function are at least the delay apart.
  pub run-IsSpaced : (es : List Event) → IsPrompt es fresh → IsSpaced (run es fresh).runs
  run-IsSpaced es p = (run-IsValid es fresh p ((λ due h. absurd (cc)), (tt, tt))).1.1
