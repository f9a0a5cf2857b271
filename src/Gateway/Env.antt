-- ===== src/Gateway/Env.antt =====
-- api-gateway/src/config/env.ts: the environment of the gateway. `coerce` is `z.coerce.number()`, with
-- `none` for a text that is no number, for which the process does not start.
use walmart_assignment.Base.{String, ℕ, Option, none, some}
use walmart_assignment.Base.Env.{Vars, or_default}

pub record Env (N : Type 0) : Type 0 where
  pub port : N
  pub cors_origins : String
  pub log_level : String

abbrev pub port_of : {N : Type 0} → (String → Option N) → (ℕ → N) → Option String → Option N
port_of coerce whole none = some (whole 8080)
port_of coerce whole (some s) = coerce s

abbrev pub with_port : {N : Type 0} → Vars → Option N → Option (Env N)
with_port v none = none
with_port v (some port) = some (record {
  port = port;
  cors_origins = or_default (v "CORS_ORIGINS") "";
  log_level = or_default (v "LOG_LEVEL") "info";
})

-- `envSchema.parse(process.env)`.
unfoldable pub env_of : {N : Type 0} → (String → Option N) → (ℕ → N) → Vars → Option (Env N)
env_of coerce whole v = with_port v (port_of coerce whole (v "PORT"))
