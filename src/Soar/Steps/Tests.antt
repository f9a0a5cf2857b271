-- ===== src/Soar/Steps/Tests.antt =====
-- A host whose isolation script fails, and a reset that is refused.
use walmart_assignment.Base.{◌≡◌, refl, ℕ, ◌+◌, false, none, some}
use walmart_assignment.Base.Json.{Json}
use walmart_assignment.Base.Js.{ok, thrown, error}
use walmart_assignment.Soar.Steps.{StepServices, closed, private_key}

abbrev services : StepServices ℕ
services = record {
  now = λ w. (w, w + 1);
  post_slack = λ target text w. (thrown (error "no channel"), w);
  publish_sns = λ text w. (ok tt, w);
  ssh_key_path = none;
  read_file = λ path w. (ok path, w);
  run_remote = λ host key command w. (closed (some 2), w + 5);
  code_text = λ code. "2";
  iam_url = none;
  post = λ url w.
      (ok (record { is_ok = false; ticket = Json.null; error = ""; status_text = "Not Found" }), w);
}

read : private_key services none 1 ≡ (ok none, 1)
unfolding private_key
read = refl
