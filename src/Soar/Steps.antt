-- ===== src/Soar/Steps.antt =====
-- soar-service/src/engine/steps: the step handlers notify.ts, isolateHost.ts and resetPassword.ts.
-- Slack, SNS, ssh2, fetch, the file system, the environment and the clock are parameters. A step is
-- given by its own fields, as the interfaces of the source have it.
mod Tests
use walmart_assignment.Base.{
  ◌≡◌, refl, ◌⊎◌, inl, inr, ◌==◌, String, ℕ, Bool, true, false, Option, none, some, List, [], ◌∷◌,
  if◌then◌else◌, Bool-cases, arith,
}
use walmart_assignment.Base.Text.{◌&◌, str_eq, is_truthy}
use walmart_assignment.Base.Int.{sub_ℕ}
use walmart_assignment.Base.Json.{Json, str}
use walmart_assignment.Base.Js.{
  Outcome, ok, thrown, Exn, message_of, Action, pure, ◌>>=◌, ◌>>◌, call, try_catch, Returns,
  Run-cases,
}
use walmart_assignment.Soar.Playbook.{StepType, Status, success, failed, StepResult}

-- How a remote command may end: the connection fails, the command does not start, or its stream
-- closes with a code (`none` is `null`).
pub data Remote : Type 0 where
  refused : String → Remote
  not_started : String → Remote
  closed : Option ℕ → Remote

-- The response to a reset, with the fields of its JSON that the handler reads; `error` is empty where
-- it is missing.
pub record ResetResponse : Type 0 where
  pub is_ok : Bool
  pub ticket : Json
  pub error : String
  pub status_text : String

-- `run_remote host key command` runs to one of the ends; `post url` fetches and reads the JSON.
pub record StepServices (W : Type 0) : Type 0 where
  pub now : W → ℕ × W
  pub post_slack : String → String → Action W (Unit {0})
  pub publish_sns : String → Action W (Unit {0})
  pub ssh_key_path : Option String
  pub read_file : String → Action W String
  pub run_remote : String → Option String → String → W → Remote × W
  pub code_text : Option ℕ → String
  pub iam_url : Option String
  pub post : String → Action W ResetResponse

abbrev or_else_text : String → String → String
or_else_text a b = if is_truthy a then a else b

abbrev or_default : Option String → String → String
or_default none d = d
or_default (some a) d = or_else_text a d

module _ {W : Type 0} (v : StepServices W) where
  -- The object that a handler returns.
  pub settled :
      String
      → StepType
      → ℕ
      → Status
      → Option (List (String × Json))
      → Option String
      → Action W StepResult
  settled id t start status output error = do
    end ← call v.now
    pure (record {
      of_step = id;
      of_type = t;
      status = status;
      attempts = 1;
      duration_ms = sub_ℕ end start;
      output = output;
      error = error;
    })

  deliver : String → String → String → Action W (Unit {0})
  deliver channel target message =
      if str_eq channel "slack"
      then v.post_slack target message
      else if str_eq channel "sns"
      then v.publish_sns message
      else pure tt

  unfoldable pub notify : String → String → String → String → Action W StepResult
  unfolding settled deliver
  notify id channel target message = do
    start ← call v.now
    try_catch
        (do deliver channel target message; settled id StepType.notify start success none none)
        (λ e. settled id StepType.notify start failed none (some (message_of e)))

  pub private_key : Option String → Action W (Option String)
  private_key none = pure none
  private_key (some path) =
      if is_truthy path then (do key ← v.read_file path; pure (some key)) else pure none

  isolation_end : String → ℕ → Remote → Action W StepResult
  unfolding settled
  isolation_end id start (refused m) = settled id StepType.isolate_host start failed none (some m)
  isolation_end id start (not_started m) =
      settled id StepType.isolate_host start failed none (some m)
  isolation_end id start (closed code) =
      if (elim code [ none ↦ false | some n ↦ n == 0 ])
      then settled id StepType.isolate_host start success none none
      else settled id StepType.isolate_host start failed none (some ("exit " & v.code_text code))

  unfoldable pub isolate_host : String → String → Action W StepResult
  unfolding private_key isolation_end
  isolate_host id host = do
    start ← call v.now
    key ← private_key v.ssh_key_path
    end ← call (v.run_remote host key ("/opt/trustvault/isolate.sh " & host))
    isolation_end id start end

  reset_end : String → ℕ → ResetResponse → Action W StepResult
  unfolding settled
  reset_end id start res =
      if res.is_ok
      then settled id StepType.reset_password start success (some (("ticket", res.ticket) ∷ []))
          none
      else settled id StepType.reset_password start failed none
          (some (or_else_text res.error res.status_text))

  unfoldable pub reset_password : String → String → Action W StepResult
  unfolding reset_end settled
  reset_password id user = do
    start ← call v.now
    try_catch
        (do
          res ←
              v.post
                (or_default v.iam_url "http://iam:8000" & "/v1/users/" & user & "/reset-password")
          reset_end id start res)
        (λ e. settled id StepType.reset_password start failed none (some (message_of e)))

  -- A result of this step after one attempt, which carries an error exactly if it is a failure.
  abbrev pub Settled : String → StepType → StepResult → Type 0
  Settled id t r =
      (r.of_step ≡ id)
      × (r.of_type ≡ t)
      × (r.attempts ≡ 1)
      × (((r.status ≡ success) × (r.error ≡ none))
          ⊎ ((r.status ≡ failed) × ((m : String) × (r.error ≡ some m))))

  isolation_end-Settled :
      (id : String) (start : ℕ) (end : Remote) (w : W)
      → Returns (λ r _. Settled id StepType.isolate_host r) (isolation_end id start end w)
  unfolding isolation_end settled
  isolation_end-Settled id start (refused m) w = (refl, refl, refl, inr (refl, (m, refl)))
  isolation_end-Settled id start (not_started m) w = (refl, refl, refl, inr (refl, (m, refl)))
  isolation_end-Settled id start (closed none) w = (refl, refl, refl, inr (refl, (_, refl)))
  isolation_end-Settled id start (closed (some n)) w = elim (Bool-cases (n == 0)) [
    | inl zero ↦ rw zero (refl, refl, refl, inl (refl, refl))
    | inr other ↦ rw other (refl, refl, refl, inr (refl, (_, refl)))
  ]

  notify-Settled :
      (id channel target message : String) (w : W)
      → Returns (λ r _. Settled id StepType.notify r) (notify id channel target message w)
  unfolding notify settled
  notify-Settled id channel target message w =
      elim (Run-cases (deliver channel target message (v.now w).1)) [
        | inl (_, u, b) ↦ rw b (refl, refl, refl, inl (refl, refl))
        | inr (e, u, b) ↦ rw b (refl, refl, refl, inr (refl, (_, refl)))
      ]

  reset_password-Settled :
      (id user : String) (w : W)
      → Returns (λ r _. Settled id StepType.reset_password r) (reset_password id user w)
  unfolding reset_password reset_end settled
  reset_password-Settled id user w =
      elim (Run-cases (
        v.post (or_default v.iam_url "http://iam:8000" & "/v1/users/" & user & "/reset-password")
          (v.now w).1)) [
            | inr (e, u, b) ↦ rw b (refl, refl, refl, inr (refl, (_, refl)))
            | inl (res, u, b) ↦ elim (Bool-cases res.is_ok) [
              | inl good ↦ rw (b, good) (refl, refl, refl, inl (refl, refl))
              | inr bad ↦ rw (b, bad) (refl, refl, refl, inr (refl, (_, refl)))
            ]
          ]

  -- Once the key of the environment could be read, no handler throws, whatever its service does: each
  -- returns a result of its step after one attempt, which carries an error exactly if it is a failure.
  pub steps-Settled :
      (id host user channel target message : String) (w u : W) (key : Option String)
      → private_key v.ssh_key_path (v.now w).1 ≡ (ok key, u)
      → Returns (λ r _. Settled id StepType.notify r) (notify id channel target message w)
        × Returns (λ r _. Settled id StepType.isolate_host r) (isolate_host id host w)
        × Returns (λ r _. Settled id StepType.reset_password r) (reset_password id user w)
  unfolding isolate_host
  steps-Settled id host user channel target message w u key read = (
    notify-Settled id channel target message w,
    (let (end, t) = v.run_remote host key ("/opt/trustvault/isolate.sh " & host) u in
        rw read (isolation_end-Settled id (v.now w).0 end t)),
    reset_password-Settled id user w,
  )
