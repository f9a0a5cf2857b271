-- ===== src/Iam/Mfa/Interleaved/Late.antt =====
-- A challenge that is used up: which requests may still get a token for it.
use walmart_assignment.Base.{
  ◌≡◌, refl, String, ℕ, ◌==◌, true, Bool, Option, none, some, ltb, Bool-cases, Option-cases, inl,
  inr, ==_iff,
}
use walmart_assignment.Base.Text.{◌&◌}
use walmart_assignment.Base.Http.{respond, value}
use walmart_assignment.Base.Js.{Outcome, ok, thrown, Run-cases}
use walmart_assignment.Iam.Mfa.{
  Challenge, MfaServices, Mfa, Answer, token, invalid_code, given, refuse,
}
use walmart_assignment.Iam.Mfa.Interleaved.{
  Pc, arrived, marked, accepted, updated, deleted, with_roles, replied, settle, System, resume,
  advance, turn, Run, here, later, pick, test_found,
}
use walmart_assignment.Iam.Mfa.Interleaved.Used.{Row, used-advance}

-- Before the row is read.
abbrev pub Early : Pc → Type 0
Early (arrived code) = Unit
Early (marked code mark) = Unit
Early _ = ⊥

-- No token: still before the row is read, refused, or ended by an exception.
abbrev pub Refused : Outcome Answer → Type 0
Refused (ok a) = a ≡ invalid_code
Refused (thrown e) = Unit

abbrev pub Late : Pc → Type 0
Late (arrived code) = Unit
Late (marked code mark) = Unit
Late (replied r) = Refused r
Late _ = ⊥

-- Past the update of the row.
abbrev pub Past : Pc → Type 0
Past (updated c) = Unit
Past (deleted c) = Unit
Past (with_roles c roles) = Unit
Past (replied r) = (t : String) × (r ≡ ok (respond 200 (value (token t))))
Past _ = ⊥

Early-not_Past : (p : Pc) → Early p → ¬ Past p
Early-not_Past (arrived code) e q = q
Early-not_Past (marked code mark) e q = q
Early-not_Past (accepted c) e q = e
Early-not_Past (updated c) e q = e
Early-not_Past (deleted c) e q = e
Early-not_Past (with_roles c roles) e q = e
Early-not_Past (replied r) e q = e

module _ {Score W : Type 0} (v : MfaServices Score W) (id : String) (used : W → Bool)
    (row : Row v id used) where
  -- A row that is read as used is refused.
  test_found-Late :
      (code : String) (mark : Option String) (c : Challenge) (at : ℕ) (m : Mfa W)
      → c.verified_at ≡ some at
      → Late (settle (test_found v code mark (some c) m).0)
  unfolding refuse
  test_found-Late code mark c at m e = elim (Bool-cases (given mark)) [
    | inr gone ↦ rw gone refl
    | inl pending ↦ elim (Bool-cases (ltb c.expires_at (v.now m.world).0)) [
      | inl late ↦ rw (pending, late) refl
      | inr early ↦ rw (pending, early, e) refl
    ]
  ]

  advance-Late : (p : Pc) (m : Mfa W) → used m.world ≡ true → Late p → Late (advance v id p m).0
  unfolding resume refuse
  advance-Late (arrived code) m h l = elim (Run-cases (v.redis_get ("mfa:" & id) m.world)) [
    | inr (e, w, k) ↦ rw k tt
    | inl (mark, w, k) ↦ rw k tt
  ]
  advance-Late (marked code mark) m h l = elim (Run-cases (v.find_challenge id m.world)) [
    | inr (e, w, k) ↦ rw k tt
    | inl (none, w, k) ↦ rw k refl
    | inl (some c, w, k) ↦
        let (at, e) = row.read_used m.world w c h k in
        rw k (test_found-Late code mark c at (record m { world = w }) e)
  ]
  advance-Late (replied r) m h l = l
  advance-Late (accepted c) m h l = absurd l
  advance-Late (updated c) m h l = absurd l
  advance-Late (deleted c) m h l = absurd l
  advance-Late (with_roles c roles) m h l = absurd l

  -- Whoever is past the update of the row leaves it used.
  test_found-not_Past :
      (code : String) (mark : Option String) (o : Option Challenge) (m : Mfa W)
      → ¬ Past (settle (test_found v code mark o m).0)
  unfolding refuse
  test_found-not_Past code mark none m = λ q. let (t, e) = q in absurd (cc)
  test_found-not_Past code mark (some c) m = elim (Bool-cases (given mark)) [
    | inr gone ↦ rw gone (λ q. let (t, e) = q in absurd (cc))
    | inl pending ↦ elim (Bool-cases (ltb c.expires_at (v.now m.world).0)) [
      | inl late ↦ rw (pending, late) (λ q. let (t, e) = q in absurd (cc))
      | inr early ↦ elim (Option-cases c.verified_at) [
        | inr (at, u) ↦ rw (pending, early, u) (λ q. let (t, e) = q in absurd (cc))
        | inl fresh ↦ elim (Bool-cases (v.verify_totp c.secret code (v.now m.world).1).0) [
          | inl right ↦ rw (pending, early, fresh, right) (λ q. q)
          | inr wrong ↦ rw (pending, early, fresh, wrong) (λ q. let (t, e) = q in absurd (cc))
        ]
      ]
    ]
  ]

  advance-Past :
      (p : Pc) (m : Mfa W)
      → (Past p → used m.world ≡ true)
      → Past (advance v id p m).0
      → used (advance v id p m).1.world ≡ true
  unfolding resume
  advance-Past (arrived code) m h = elim (Run-cases (v.redis_get ("mfa:" & id) m.world)) [
    | inr (e, w, k) ↦ rw k (λ q. let (t, x) = q in absurd (cc))
    | inl (mark, w, k) ↦ rw k (λ q. absurd q)
  ]
  advance-Past (marked code mark) m h = elim (Run-cases (v.find_challenge id m.world)) [
    | inr (e, w, k) ↦ rw k (λ q. let (t, x) = q in absurd (cc))
    | inl (o, w, k) ↦
        rw k (λ q. absurd (test_found-not_Past code mark o (record m { world = w }) q))
  ]
  advance-Past (accepted c) m h =
      elim (Run-cases (v.mark_verified id (v.now m.world).0 (v.now m.world).1)) [
        | inr (e, w, k) ↦ rw k (λ q. let (t, x) = q in absurd (cc))
        | inl (a, w, k) ↦ rw k (λ _. row.mark_used _ _ w k)
      ]
  advance-Past (updated c) m h = λ _. used-advance v id used row (updated c) m (h tt)
  advance-Past (deleted c) m h = λ _. used-advance v id used row (deleted c) m (h tt)
  advance-Past (with_roles c roles) m h =
      λ _. used-advance v id used row (with_roles c roles) m (h tt)
  advance-Past (replied r) m h = h

  -- Every request that is past the update leaves the row used.
  abbrev pub IsSound : System W → Type 0
  IsSound s = (i : ℕ) → Past (s.pc i) → used s.shared.world ≡ true

  turn-IsSound : (i : ℕ) (s : System W) → IsSound s → IsSound (turn v id i s)
  unfolding turn
  turn-IsSound i s sound j = elim (Bool-cases (j == i)) [
    | inl own ↦ rw own (advance-Past (s.pc i) s.shared (sound i))
    | inr elsewhere ↦ rw elsewhere (λ p. used-advance v id used row (s.pc i) s.shared (sound j p))
  ]

  Run-IsSound : {s t : System W} → Run v id s t → IsSound s → IsSound t
  Run-IsSound here sound = sound
  Run-IsSound (later {t} r (pick i)) sound = turn-IsSound i t (Run-IsSound r sound)

  turn-used :
      (i : ℕ) (s : System W) → used s.shared.world ≡ true → used (turn v id i s).shared.world ≡ true
  unfolding turn
  turn-used i s h = used-advance v id used row (s.pc i) s.shared h

  turn-Late :
      (i j : ℕ) (s : System W)
      → used s.shared.world ≡ true
      → Late (s.pc j)
      → Late ((turn v id i s).pc j)
  unfolding turn
  turn-Late i j s h l = elim (Bool-cases (j == i)) [
    | inl own ↦
        let same : j ≡ i = (==_iff j i).0 own in
        rw own (advance-Late (s.pc i) s.shared h (rw same at l))
    | inr elsewhere ↦ rw elsewhere l
  ]

  Run-kept :
      {s t : System W} (j : ℕ)
      → Run v id s t
      → used s.shared.world ≡ true
      → Late (s.pc j)
      → (used t.shared.world ≡ true) × Late (t.pc j)
  Run-kept j here h l = (h, l)
  Run-kept j (later {t} r (pick i)) h l =
      let (h', l') = Run-kept j r h l in (turn-used i t h', turn-Late i j t h' l')

  Early-Late : (p : Pc) → Early p → Late p
  Early-Late (arrived code) e = tt
  Early-Late (marked code mark) e = tt
  Early-Late (accepted c) e = absurd e
  Early-Late (updated c) e = absurd e
  Early-Late (deleted c) e = absurd e
  Early-Late (with_roles c roles) e = absurd e
  Early-Late (replied r) e = absurd e

  -- Any number of requests verify one challenge, in any order of their turns. If one of them has
  -- updated the row, or even has its token, while another has not read the row yet, then that other
  -- one never gets a token, however the run goes on: it is refused, or ended by an exception. The row is
  -- read as used once it was marked, and no call takes the mark away.
  pub Run-Late :
      {s t u : System W} (i j : ℕ)
      → ((k : ℕ) → Early (s.pc k))
      → Run v id s t
      → Past (t.pc i)
      → Early (t.pc j)
      → Run v id t u
      → Late (u.pc j)
  Run-Late {s} {t} i j first r p e r' =
      let sound = Run-IsSound r (λ k q. absurd (Early-not_Past (s.pc k) (first k) q)) in
      (Run-kept j r' (sound i p) (Early-Late (t.pc j) e)).1
