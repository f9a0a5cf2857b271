-- ===== src/Base/Env.antt =====
-- The variables of the environment, and the ways in which the services fill in the missing ones.
use Prim.Native.Nat.{ℕ}
use Prim.Native.String.{String}
use mathlib.Core.Bool.{Bool}
use mathlib.Core.Option.{Option, none, some}
use walmart_assignment.Base.Tests.{if◌then◌else◌}
use walmart_assignment.Base.Text.{is_truthy}

-- `process.env`.
abbrev pub Vars : Type 0
Vars = String → Option String

-- `value || fallback`: an empty text counts as missing.
abbrev pub or_text : Option String → String → String
or_text none fallback = fallback
or_text (some s) fallback = if is_truthy s then s else fallback

-- `z.string().default(fallback)`: an empty text does not.
abbrev pub or_default : Option String → String → String
or_default none fallback = fallback
or_default (some s) fallback = s

-- JavaScript numbers: `Number(value)`, whether one is neither zero nor `NaN`, and a whole one.
pub record Numeric (N : Type 0) : Type 0 where
  pub number : Option String → N
  pub is_truthy : N → Bool
  pub whole : ℕ → N

-- `Number(value) || fallback`.
abbrev pub or_number : {N : Type 0} → Numeric N → Option String → ℕ → N
or_number n o fallback = if n.is_truthy (n.number o) then n.number o else n.whole fallback
