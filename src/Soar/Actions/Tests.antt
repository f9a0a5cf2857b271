-- ===== src/Soar/Actions/Tests.antt =====
-- A host that refuses the second command.
use walmart_assignment.Base.{◌≡◌, refl, String, ℕ, ◌+◌, none, ltb, if◌then◌else◌, [], ◌∷◌}
use walmart_assignment.Base.Js.{ok, thrown, error, Returns}
use walmart_assignment.Soar.Playbook.{Playbook, Step, notify_step, low, AlertEvent}
use walmart_assignment.Soar.Actions.Registry.{ActionHandler}
use walmart_assignment.Soar.Actions.{
  ActionServices, open_ssh, key_at, reset, isolate_host, reset_password,
}
use walmart_assignment.Soar.Actions.Sessions.{isolated, Reported, actions-Reported}

abbrev services : ActionServices String ℕ
services = record {
  now = λ w. (w, w + 1);
  ssh_key_path = none;
  read_file = λ path w. (ok path, w);
  new_ssh = λ host key w. (ok host, w + 1);
  connect = λ ssh w. (ok tt, w + 1);
  exec = λ ssh command w. if ltb 3 w then (thrown (error "refused"), w) else (ok tt, w + 1);
  close = λ ssh w. (ok tt, w + 1);
  random_pass = λ w. ("secret", w);
  post_slack = λ target text w. (ok tt, w);
  publish_sns = λ target text w. (ok tt, w);
}

abbrev pb : Playbook
pb = record {
  id = "pb-1";
  name = "contain";
  description = "";
  trigger_class = "malware";
  trigger_severity = [];
  steps = [];
  version = "1.0.0";
  created_at = none;
}

opened : open_ssh services "web-1" 1 ≡ (ok "web-1", 2)
unfolding open_ssh key_at
opened = refl

actions-Reported_example :
    Returns
      (Reported services "web-1"
        ("sudo iptables -A INPUT -j DROP" ∷ "sudo iptables -A OUTPUT -j DROP" ∷ [])
        (isolated services "web-1")
        2)
      (isolate_host services pb "s" "web-1" 0)
    × Returns
        (Reported services "web-1"
          ("echo 'ann:secret' | sudo chpasswd" ∷ [])
          (λ status. reset "web-1" "ann")
          2)
        (reset_password services pb "s" "web-1" "ann" 0)
actions-Reported_example = actions-Reported services pb "s" "web-1" "ann" "web-1" 0 2 opened

abbrev tell : Step
tell = notify_step "tell" "slack" "#soc" "isolated"

abbrev alert : AlertEvent
alert = record { id = "a-1"; class = "malware"; severity = low; context = []; ts = "noon" }

abbrev miscast : ActionHandler ℕ
miscast p step a w = (thrown (error "undefined"), w)
