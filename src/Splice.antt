-- ===== src/Splice.antt =====
-- src/splice.rs: copying bytes both ways under a deadline. Durations are nanoseconds, moments are
-- milliseconds since the splice began, and a chunk is a list of bytes.
pub mod Loop
pub mod Deadlines
pub mod Silence
pub mod Copies
pub mod Polls
pub mod Prefixes
pub mod Reaping
use lwd_mixnet_proxy.Common.{
  ℕ, ◌+◌, ◌-◌, ◌*◌, ◌/◌, ◌%◌, Bool, true, false, List, ltb, leb, if◌then◌else◌, Option, none, some,
  min, max,
}
use lwd_mixnet_proxy.Common.Words.{u64_mod, u64_max}

abbrev pub copy_buffer : ℕ
copy_buffer = 8 * 1024

abbrev pub nanos_per_milli : ℕ
nanos_per_milli = 1_000_000

-- `Duration::from_secs` and `Duration::from_millis`.
abbrev pub from_secs : ℕ → ℕ
from_secs n = n * 1_000_000_000

abbrev pub from_millis : ℕ → ℕ
from_millis n = n * nanos_per_milli

pub record Watchdog : Type 0 where
  pub stall : Option ℕ
  pub idle : Option ℕ

pub data Ended (IoError : Type 0) : Type 0 where
  closed : Ended IoError
  stalled : ℕ → Ended IoError
  idle : ℕ → Ended IoError
  failed : IoError → Ended IoError

pub record Transfer : Type 0 where
  pub to_remote : ℕ
  pub from_remote : ℕ

pub record StallClock : Type 0 where
  pub since_millis : Option ℕ

pub record Direction : Type 0 where
  pub bytes : ℕ
  pub last_at_millis : ℕ

pub record Activity : Type 0 where
  pub to_remote : Direction
  pub from_remote : Direction

-- `u64::try_from(duration.as_millis()).unwrap_or(u64::MAX)`.
unfoldable pub as_millis : ℕ → ℕ
as_millis duration = min (duration / nanos_per_milli) u64_max

unfoldable pub moved_at : Direction → Option ℕ
moved_at d = if ltb 0 d.bytes then some d.last_at_millis else none

-- `Direction::record`: the stamp, then the count, which wraps as `fetch_add` does.
unfoldable pub record_moved : Direction → ℕ → ℕ → Direction
record_moved d moved now = record { bytes = (d.bytes + moved) % u64_mod; last_at_millis = now }

unfoldable pub transfer : Activity → Transfer
transfer a = record { to_remote = a.to_remote.bytes; from_remote = a.from_remote.bytes }

abbrev pub or_zero : Option ℕ → ℕ
or_zero none = 0
or_zero (some n) = n

-- `wrote.filter(|wrote| heard.is_none_or(|heard| heard < *wrote))`.
abbrev pub outstanding : Option ℕ → Option ℕ → Option ℕ
outstanding none heard = none
outstanding (some wrote) none = some wrote
outstanding (some wrote) (some heard) = if ltb heard wrote then some wrote else none

-- `since_millis.get_or_insert(wrote)`, then its maximum with the last answer.
abbrev pub since : StallClock → ℕ → Option ℕ → ℕ
since clock wrote heard =
    max (elim clock.since_millis [ some start ↦ start | none ↦ wrote ]) (or_zero heard)

module _ {E : Type 0} where
  -- A deadline that is set and has been reached ends the splice; else the next check decides.
  abbrev pub deadline : Option ℕ → ℕ → (ℕ → Ended E) → Option (Ended E) → Option (Ended E)
  deadline none quiet reason next = next
  deadline (some d) quiet reason next = if leb (as_millis d) quiet then some (reason d) else next

  -- Nothing having moved at all counts from the beginning of the splice.
  abbrev pub idle_check : Watchdog → Activity → ℕ → Option (Ended E)
  idle_check w a now =
      deadline w.idle
        (now - max (or_zero (moved_at a.to_remote)) (or_zero (moved_at a.from_remote))) idle none

  abbrev pub stall_check :
      Watchdog → StallClock → Activity → ℕ → Option ℕ → Option (Ended E) × StallClock
  stall_check w clock a now none = (idle_check w a now, record { since_millis = none })
  stall_check w clock a now (some wrote) =
      let start = since clock wrote (moved_at a.from_remote) in
      (
        deadline w.stall (now - start) stalled (idle_check w a now),
        record { since_millis = some start },
      )

  -- `Watchdog::tripped`: the clock is handed in and out, and `now` is `millis_since(started)`.
  unfoldable pub tripped : Watchdog → StallClock → Activity → ℕ → Option (Ended E) × StallClock
  tripped w clock a now =
      stall_check w clock a now (outstanding (moved_at a.to_remote) (moved_at a.from_remote))

abbrev pub idle_period : ℕ
idle_period = from_secs 3600

abbrev pub floor_period : ℕ
floor_period = from_millis 100

abbrev pub ceiling_period : ℕ
ceiling_period = from_secs 5

abbrev clamp : ℕ → ℕ
clamp period = min (max period floor_period) ceiling_period

abbrev shortest : Option ℕ → Option ℕ → ℕ
shortest none none = idle_period
shortest (some s) none = s
shortest none (some i) = i
shortest (some s) (some i) = min s i

abbrev period_for : Option ℕ → Option ℕ → ℕ
period_for none none = idle_period
period_for a b = clamp (shortest a b / 4)

unfoldable pub check_period : Watchdog → ℕ
check_period w = period_for w.stall w.idle
