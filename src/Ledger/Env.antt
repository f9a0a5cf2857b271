-- ===== src/Ledger/Env.antt =====
-- ledger-service/src/env.ts: the environment of the ledger's service.
use walmart_assignment.Base.{String}
use walmart_assignment.Base.Env.{Vars, Numeric, or_text, or_number}

pub record Env (N : Type 0) : Type 0 where
  pub fabric_connection_profile : String
  pub fabric_wallet_path : String
  pub fabric_identity : String
  pub channel_name : String
  pub contract_name : String
  pub port : N
  pub metrics_port : N
  pub log_level : String

unfoldable pub env_of : {N : Type 0} → Numeric N → Vars → Env N
env_of n v = record {
  fabric_connection_profile = or_text (v "FABRIC_CONNECTION_PROFILE") "./fabric/connection.json";
  fabric_wallet_path = or_text (v "FABRIC_WALLET_PATH") "./wallet";
  fabric_identity = or_text (v "FABRIC_IDENTITY") "appUser";
  channel_name = or_text (v "CHANNEL_NAME") "trustvault";
  contract_name = or_text (v "CONTRACT_NAME") "ledger";
  port = or_number n (v "PORT") 8084;
  metrics_port = or_number n (v "METRICS_PORT") 8003;
  log_level = or_text (v "LOG_LEVEL") "info";
}
