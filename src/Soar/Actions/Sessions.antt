-- ===== src/Soar/Actions/Sessions.antt =====
-- What the actions report of their sessions, and that the sessions are closed.
use walmart_assignment.Base.{◌≡◌, refl, ◌⊎◌, inl, inr, String, ℕ, List, [], ◌∷◌}
use walmart_assignment.Base.Text.{◌&◌}
use walmart_assignment.Base.Js.{and_then, Outcome, ok, thrown, Exn, Returns, Run-cases}
use walmart_assignment.Soar.Playbook.{Playbook, StepType}
use walmart_assignment.Soar.Actions.{
  ActionStatus, success, failed, ActionResult, ActionServices, open_ssh, in_session, Metadata,
  isolation_commands, reset_commands, conclude, isolate_host, reset_password, isolation, reset,
  exit_code,
}

module _ {Ssh W : Type 0} (a : ActionServices Ssh W) where
  -- Commands that all succeed, one after the other, and commands of which one throws.
  abbrev pub Completed : Ssh → List String → W → W → Type 0
  Completed ssh [] w u = u ≡ w
  Completed ssh (c ∷ cs) w u = (v : W) × (a.exec ssh c w ≡ (ok tt, v)) × Completed ssh cs v u

  abbrev pub Stopped : Ssh → List String → W → W → Type 0
  Stopped ssh [] w u = ⊥
  Stopped ssh (c ∷ cs) w u =
      ((e : Exn) × (a.exec ssh c w ≡ (thrown e, u)))
      ⊎ ((v : W) × (a.exec ssh c w ≡ (ok tt, v)) × Stopped ssh cs v u)

  -- How a session ends: it succeeds where it is connected and its commands succeed, it fails where
  -- the connection or one of the commands throws, and it has been closed in any case.
  abbrev pub Closed : Ssh → List String → W → ActionStatus → W → Type 0
  Closed ssh commands w success t =
      (v : W) × (u : W) × (a.connect ssh w ≡ (ok tt, v))
      × Completed ssh commands v u
      × (t ≡ (a.close ssh u).1)
  Closed ssh commands w failed t =
      (u : W) × (((e : Exn) × (a.connect ssh w ≡ (thrown e, u)))
        ⊎ ((v : W) × (a.connect ssh w ≡ (ok tt, v)) × Stopped ssh commands v u))
      × (t ≡ (a.close ssh u).1)

  isolation-Closed :
      (ssh : Ssh) (w : W)
      → Returns
          (Closed ssh ("sudo iptables -A INPUT -j DROP" ∷ "sudo iptables -A OUTPUT -j DROP" ∷ []) w)
          (in_session a ssh (isolation_commands a ssh) w)
  unfolding in_session
  isolation-Closed ssh w = elim (Run-cases (a.connect ssh w)) [
    | inr (e, u, b) ↦ rw b (u, inl (e, b), refl)
    | inl (_, u, b) ↦ elim (Run-cases (a.exec ssh "sudo iptables -A INPUT -j DROP" u)) [
      | inr (e, v, d) ↦ rw (b, d) (v, inr (u, b, inl (e, d)), refl)
      | inl (_, v, d) ↦ elim (Run-cases (a.exec ssh "sudo iptables -A OUTPUT -j DROP" v)) [
        | inr (e, x, f) ↦ rw (b, d, f) (x, inr (u, b, inr (v, d, inl (e, f))), refl)
        | inl (_, x, f) ↦ rw (b, d, f) (u, x, b, (v, d, (x, f, refl)), refl)
      ]
    ]
  ]

  reset-Closed :
      (ssh : Ssh) (user pass : String) (w : W)
      → Returns
          (Closed ssh (("echo '" & user & ":" & pass & "' | sudo chpasswd") ∷ []) w)
          (in_session a ssh (reset_commands a ssh user pass) w)
  unfolding in_session
  reset-Closed ssh user pass w = elim (Run-cases (a.connect ssh w)) [
    | inr (e, u, b) ↦ rw b (u, inl (e, b), refl)
    | inl (_, u, b) ↦
        elim (Run-cases (a.exec ssh ("echo '" & user & ":" & pass & "' | sudo chpasswd") u)) [
          | inr (e, v, d) ↦ rw (b, d) (v, inr (u, b, inl (e, d)), refl)
          | inl (_, v, d) ↦ rw (b, d) (u, v, b, (v, d, refl), refl)
        ]
  ]

  -- The report of an action whose session ran from `w`.
  abbrev pub Reported :
      Ssh → List String → (ActionStatus → Metadata) → W → ActionResult → W → Type 0
  Reported ssh commands m w r t =
      (u : W) × Closed ssh commands w r.status u × (t ≡ (a.now u).1) × (r.metadata ≡ m r.status)

  conclude-Reported :
      (pb : Playbook) (id : String) (t : StepType) (start : ℕ) (m n : ActionStatus → Metadata)
      (ssh : Ssh) (commands : List String) (w : W) (r : Outcome ActionStatus × W)
      → ((status : ActionStatus) → m status ≡ n status)
      → Returns (Closed ssh commands w) r
      → Returns
          (Reported ssh commands n w)
          (and_then r (λ status. conclude a pb id t start status (m status)))
  unfolding conclude
  conclude-Reported pb id t start m n ssh commands w (ok status, u) same h =
      (u, h, refl, same status)
  conclude-Reported pb id t start m n ssh commands w (thrown e, u) same h = absurd h

  -- The metadata of an isolation: exit code 0 after a success, and 1 otherwise.
  abbrev pub isolated : String → ActionStatus → Metadata
  isolated host success = isolation host 0
  isolated host failed = isolation host 1

  exit_codes :
      (host : String) (status : ActionStatus)
      → isolation host (exit_code a status) ≡ isolated host status
  exit_codes host success = refl
  exit_codes host failed = refl

  -- Once its session could be made, an action on a host never throws. It reports `success` where the
  -- connection and then every command succeeded, and `failed` where one of them threw; the session is
  -- closed however they ended. This holds of isolating a host, whose commands drop its incoming and its
  -- outgoing packets and whose report has the exit code 0 or 1, and of resetting a password, whose
  -- command gives the user a random one.
  pub actions-Reported :
      (pb : Playbook) (id host user : String) (ssh : Ssh) (w u : W)
      → open_ssh a host (a.now w).1 ≡ (ok ssh, u)
      → Returns
          (Reported ssh
            ("sudo iptables -A INPUT -j DROP" ∷ "sudo iptables -A OUTPUT -j DROP" ∷ [])
            (isolated host)
            u)
          (isolate_host a pb id host w)
        × Returns
            (Reported ssh
              (("echo '" & user & ":" & (a.random_pass u).0 & "' | sudo chpasswd") ∷ [])
              (λ status. reset host user)
              (a.random_pass u).1)
            (reset_password a pb id host user w)
  unfolding isolate_host reset_password
  actions-Reported pb id host user ssh w u opened = (
    rw opened (
        conclude-Reported pb id StepType.isolate_host (a.now w).0
          (λ status. isolation host (exit_code a status)) (isolated host) ssh
          ("sudo iptables -A INPUT -j DROP" ∷ "sudo iptables -A OUTPUT -j DROP" ∷ []) u
          (in_session a ssh (isolation_commands a ssh) u) (exit_codes host)
          (isolation-Closed ssh u)),
    rw opened (
        conclude-Reported pb id StepType.reset_password (a.now w).0 (λ status. reset host user)
          (λ status. reset host user) ssh
          (("echo '" & user & ":" & (a.random_pass u).0 & "' | sudo chpasswd") ∷ [])
          (a.random_pass u).1
          (in_session a ssh (reset_commands a ssh user (a.random_pass u).0) (a.random_pass u).1)
          (λ status. refl) (reset-Closed ssh user (a.random_pass u).0 (a.random_pass u).1)),
  )
