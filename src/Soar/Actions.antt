-- ===== src/Soar/Actions.antt =====
-- soar-service/src/actions: the built-in actions isolateHost.ts, resetPassword.ts and notify.ts.
-- ssh2-promise, Slack, SNS, node's file system and random bytes, and the clock are parameters. A step
-- is given by its own fields, as the casts of the source have it.
pub mod Sessions
pub mod Registry
mod Tests
use walmart_assignment.Base.{String, ℕ, Bool, true, false, Option, none, some, if◌then◌else◌}
use walmart_assignment.Base.Text.{◌&◌, str_eq, is_truthy}
use walmart_assignment.Base.Int.{ℤ, sub_ℕ}
use walmart_assignment.Base.Js.{
  Outcome, ok, thrown, Exn, error, Action, pure, throw, ◌>>=◌, ◌>>◌, call, try_catch, finally,
  swallow,
}
use walmart_assignment.Soar.Playbook.{StepType, Playbook}

pub data ActionStatus : Type 0 where
  success failed : ActionStatus

-- The three shapes of `metadata`: host and exit code, host and user, channel and target.
pub data Metadata : Type 0 where
  isolation : String → ℕ → Metadata
  reset : String → String → Metadata
  notice : String → String → Metadata

pub record ActionResult : Type 0 where
  pub playbook_id : String
  pub step_id : String
  pub of_type : StepType
  pub status : ActionStatus
  pub duration_ms : ℤ
  pub metadata : Metadata

-- `ssh_key_path` is the variable of the environment; `new_ssh host key` makes a session that is not
-- connected; `random_pass` is `randomBytes(18).toString('base64')`.
pub record ActionServices (Ssh W : Type 0) : Type 0 where
  pub now : W → ℕ × W
  pub ssh_key_path : Option String
  pub read_file : String → Action W String
  pub new_ssh : String → Option String → Action W Ssh
  pub connect : Ssh → Action W (Unit {0})
  pub exec : Ssh → String → Action W (Unit {0})
  pub close : Ssh → Action W (Unit {0})
  pub random_pass : W → String × W
  pub post_slack : String → String → Action W (Unit {0})
  pub publish_sns : String → String → Action W (Unit {0})

module _ {Ssh W : Type 0} (a : ActionServices Ssh W) where
  -- `path ? readFileSync(path) : undefined`.
  pub key_at : Option String → Action W (Option String)
  key_at none = pure none
  key_at (some path) =
      if is_truthy path then (do key ← a.read_file path; pure (some key)) else pure none

  -- `new SSH({ host, username: 'root', privateKey })`.
  pub open_ssh : String → Action W Ssh
  unfolding key_at
  open_ssh host = do key ← key_at a.ssh_key_path; a.new_ssh host key

  -- `try { commands } catch { status = 'failed' } finally { await ssh.close().catch(...) }`.
  pub in_session : Ssh → Action W (Unit {0}) → Action W ActionStatus
  in_session ssh commands =
      finally (try_catch (do commands; pure success) (λ e. pure failed)) (swallow (a.close ssh))

  abbrev pub isolation_commands : Ssh → Action W (Unit {0})
  isolation_commands ssh = do
    a.connect ssh
    a.exec ssh "sudo iptables -A INPUT -j DROP"
    a.exec ssh "sudo iptables -A OUTPUT -j DROP"

  abbrev pub exit_code : ActionStatus → ℕ
  exit_code success = 0
  exit_code failed = 1

  -- The `return` of an action that began at `start`.
  pub conclude : Playbook → String → StepType → ℕ → ActionStatus → Metadata → Action W ActionResult
  conclude pb id t start status metadata = do
    end ← call a.now
    pure (record {
      playbook_id = pb.id;
      step_id = id;
      of_type = t;
      status = status;
      duration_ms = sub_ℕ end start;
      metadata = metadata;
    })

  unfoldable pub isolate_host : Playbook → String → String → Action W ActionResult
  isolate_host pb id host = do
    start ← call a.now
    ssh ← open_ssh host
    status ← in_session ssh (isolation_commands ssh)
    conclude pb id StepType.isolate_host start status (isolation host (exit_code status))

  abbrev pub reset_commands : Ssh → String → String → Action W (Unit {0})
  reset_commands ssh user pass = do
    a.connect ssh
    a.exec ssh ("echo '" & user & ":" & pass & "' | sudo chpasswd")

  unfoldable pub reset_password : Playbook → String → String → String → Action W ActionResult
  reset_password pb id host user = do
    start ← call a.now
    ssh ← open_ssh host
    pass ← call a.random_pass
    status ← in_session ssh (reset_commands ssh user pass)
    conclude pb id StepType.reset_password start status (reset host user)

  pub deliver : String → String → String → Action W (Unit {0})
  deliver channel target message =
      if str_eq channel "slack"
      then a.post_slack target message
      else if str_eq channel "sns"
      then a.publish_sns target message
      else throw (error ("unknown channel " & channel))

  unfoldable pub notify : Playbook → String → String → String → String → Action W ActionResult
  notify pb id channel target message = do
    start ← call a.now
    status ← try_catch (do deliver channel target message; pure success) (λ e. pure failed)
    conclude pb id StepType.notify start status (notice channel target)
