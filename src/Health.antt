-- ===== src/Health.antt =====
-- src/health.rs: how far along a half is, and whether anything gets through it.
pub mod Progress
use Prim.Native.String.{String, ◌++◌}
use lwd_mixnet_proxy.Common.{ℕ, Bool, true, false, ◌==◌, if◌then◌else◌, max}

pub data State : Type 0 where
  starting registered serving : State

-- `state as u8`.
abbrev pub code_of : State → ℕ
code_of starting = 0
code_of registered = 1
code_of serving = 2

unfoldable pub from_code : ℕ → State
from_code code = if code == 1 then registered else if code == 2 then serving else starting

abbrev pub as_str : State → String
as_str starting = "starting"
as_str registered = "registered"
as_str serving = "serving"

unfoldable pub is_ready : State → Bool
is_ready serving = true
is_ready _ = false

-- The two atomics that the clones of a `Health` share.
pub record Health : Type 0 where
  pub state : ℕ
  pub degraded : Bool

-- `Health::starting`.
unfoldable pub start : Health
start = record { state = 0; degraded = false }

unfoldable pub state_of : Health → State
unfolding from_code
state_of h = from_code h.state

-- `fetch_max`.
unfoldable pub advance_to : Health → State → Health
advance_to h state = record h { state = max h.state (code_of state) }

unfoldable pub set_degraded : Health → Bool → Health
set_degraded h degraded = record h { degraded = degraded }

unfoldable pub is_degraded : Health → Bool
is_degraded h = h.degraded

-- The two formats of `Health::as_json`.
abbrev pub body : State → Bool → String
body state true = "{\"state\":\"" ++ as_str state ++ "\",\"degraded\":true}\n"
body state false = "{\"state\":\"" ++ as_str state ++ "\"}\n"

unfoldable pub as_json : Health → String
unfolding state_of
as_json h = body (state_of h) h.degraded
