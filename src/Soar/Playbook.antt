-- ===== src/Soar/Playbook.antt =====
-- soar-service/src/playbook/types.ts and engine/types.ts: the data of a playbook run.
use walmart_assignment.Base.{String, ℕ, Bool, Option, List, true, false}
use walmart_assignment.Base.Int.{ℤ}
use walmart_assignment.Base.Json.{Json}

pub data StepType : Type 0 where
  isolate_host reset_password notify : StepType

abbrev pub same_type : StepType → StepType → Bool
same_type isolate_host isolate_host = true
same_type reset_password reset_password = true
same_type notify notify = true
same_type _ _ = false

-- The discriminated union `StepSchema`.
pub data Step : Type 0 where
  isolate_host_step : (id host : String) → Step
  reset_password_step : (id host user : String) → Step
  notify_step : (id channel target message : String) → Step

-- The fields `id` and `type`, which every step has.
abbrev pub step_id : Step → String
step_id (isolate_host_step i _) = i
step_id (reset_password_step i _ _) = i
step_id (notify_step i _ _ _) = i

abbrev pub step_type : Step → StepType
step_type (isolate_host_step _ _) = isolate_host
step_type (reset_password_step _ _ _) = reset_password
step_type (notify_step _ _ _ _) = notify

pub data Severity : Type 0 where
  low medium high : Severity

pub record Playbook : Type 0 where
  pub id : String
  pub name : String
  pub description : String
  pub trigger_class : String
  pub trigger_severity : List Severity
  pub steps : List Step
  pub version : String
  pub created_at : Option String

pub record AlertEvent : Type 0 where
  pub id : String
  pub class : String
  pub severity : Severity
  pub context : List (String × Json)
  pub ts : String

pub data Status : Type 0 where
  success failed skipped : Status

abbrev pub is_success : Status → Bool
is_success success = true
is_success _ = false

pub record StepResult : Type 0 where
  pub of_step : String
  pub of_type : StepType
  pub status : Status
  pub attempts : ℕ
  pub duration_ms : ℤ
  pub output : Option (List (String × Json))
  pub error : Option String

pub data Overall : Type 0 where
  all_success all_failed partial : Overall

pub record ExecutionResult : Type 0 where
  pub run_id : String
  pub playbook_id : String
  pub overall : Overall
  pub step_results : List StepResult
  pub started_at : String
  pub ended_at : String
