-- ===== src/Base/Http.antt =====
-- What a request handler ends with: it passes the request on, or sends one response.
use Prim.Native.Nat.{ℕ}
use Prim.Native.String.{String}

pub data Reply (B : Type 0) : Type 0 where
  next : Reply B
  respond : ℕ → B → Reply B

-- The bodies `{ error }` and `{ error, reason }`, a value, and no body.
pub data Body (V : Type 0) : Type 0 where
  failure : String → Body V
  refusal : String → String → Body V
  value : V → Body V
  nothing : Body V
