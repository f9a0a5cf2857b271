-- ===== src/Soar/Config.antt =====
-- soar-service/src/config/index.ts and the end of index.ts: the environment of the service, and the
-- command that the process is started with.
use walmart_assignment.Base.{String, Option, List, [], ◌∷◌, if◌then◌else◌}
use walmart_assignment.Base.Text.{str_eq}
use walmart_assignment.Base.Env.{Vars, or_text, or_default}

pub record Env : Type 0 where
  pub port : String
  pub broker_url : String
  pub slack_token : Option String
  pub aws_region : String
  pub aws_sns_topic : Option String
  pub ssh_key_path : String
  pub log_level : String
  pub kafka_client_id : String
  pub kafka_transaction_timeout : Option String

-- `envSchema.parse(process.env)`.
unfoldable pub env_of : Vars → Env
env_of v = record {
  port = or_default (v "PORT") (or_text (v "METRICS_PORT") "8083");
  broker_url = or_default (v "BROKER_URL") (or_text (v "KAFKA_BROKERS") "kafka:9092");
  slack_token = v "SLACK_TOKEN";
  aws_region = or_default (v "AWS_REGION") "us-east-1";
  aws_sns_topic = v "AWS_SNS_TOPIC";
  ssh_key_path = or_default (v "SSH_KEY_PATH") "/keys/soar_rsa";
  log_level = or_default (v "LOG_LEVEL") "info";
  kafka_client_id = or_default (v "KAFKA_CLIENT_ID") "soar-service";
  kafka_transaction_timeout = v "KAFKA_TRANSACTION_TIMEOUT";
}

-- What the process does: the server, or the command line with its arguments.
pub data Command : Type 0 where
  start_server : Command
  run_playbook_cli : List String → Command

-- The command for `process.argv.slice(2)`.
unfoldable pub command_of : List String → Command
command_of [] = start_server
command_of (cmd ∷ rest) =
    if str_eq cmd "run-playbook" then run_playbook_cli (cmd ∷ rest) else start_server
