-- ===== src/Splice/Polls.antt =====
-- src/splice.rs, `splice` and `pump`, poll by poll: a pump waits for its read, for its writer to take
-- what is left of a chunk, or for its flush, and between any two polls the other pump or a check may come.
pub mod Kept
pub mod Passes
pub mod Pumps
pub mod Runs
use lwd_mixnet_proxy.Common.{
  ℕ, List, [], ◌∷◌, ◌++◌, take, drop, length, Option, none, some, Result, ok, err,
}
use lwd_mixnet_proxy.Splice.{
  Watchdog, Ended, Transfer, StallClock, Direction, Activity, record_moved, transfer, tripped,
}
use lwd_mixnet_proxy.Splice.Loop.{ended}

-- Where a pump waits: with `writing`, the part of its chunk that was taken and the part that was not.
pub data Pc : Type 0 where
  reading : Pc
  writing : List ℕ → List ℕ → Pc
  flushing : List ℕ → Pc

pub record Pump : Type 0 where
  pub direction : Direction
  pub written : List ℕ
  pub at : Pc

-- What the read, the writer and the flush answer when they are polled: a writer with the bytes that it
-- takes. What the pump does not wait for is not looked at.
pub record Answers (E : Type 0) : Type 0 where
  pub read : Result E (List ℕ)
  pub write : Result E ℕ
  pub flush : Result E (Unit {0})

-- A chunk that is taken whole is flushed.
unfoldable pub on_taken : List ℕ → List ℕ → Pc
on_taken taken [] = flushing taken
on_taken taken (b ∷ rest) = writing taken (b ∷ rest)

module _ {E : Type 0} where
  abbrev pub poll_read : Pump → Result E (List ℕ) → Pump × Option (Result E (Unit {0}))
  poll_read p (err e) = (p, some (err e))
  poll_read p (ok []) = (p, some (ok tt))
  poll_read p (ok (b ∷ bs)) = (record p { at = writing [] (b ∷ bs) }, none)

  abbrev pub poll_write : Pump → List ℕ → List ℕ → Result E ℕ → Pump × Option (Result E (Unit {0}))
  poll_write p taken rest (err e) = (p, some (err e))
  poll_write p taken rest (ok n) = (
    record p {
      written = p.written ++ take n rest;
      at = on_taken (taken ++ take n rest) (drop n rest);
    },
    none,
  )

  abbrev pub poll_flush :
      Pump → List ℕ → ℕ → Result E (Unit {0}) → Pump × Option (Result E (Unit {0}))
  poll_flush p chunk now (err e) = (p, some (err e))
  poll_flush p chunk now (ok _) =
      (record p { direction = record_moved p.direction (length chunk) now; at = reading }, none)

  unfoldable pub poll : Pump → ℕ → Answers E → Pump × Option (Result E (Unit {0}))
  poll p now a = elim p.at [
    | reading ↦ poll_read p a.read
    | writing taken rest ↦ poll_write p taken rest a.write
    | flushing chunk ↦ poll_flush p chunk now a.flush
  ]

pub record Polling : Type 0 where
  pub outbound : Pump
  pub inbound : Pump
  pub clock : StallClock

abbrev pub fresh_pump : Pump
fresh_pump = record {
  direction = record { bytes = 0; last_at_millis = 0 };
  written = [];
  at = reading;
}

unfoldable pub begin_polling : Polling
begin_polling = record {
  outbound = fresh_pump;
  inbound = fresh_pump;
  clock = record { since_millis = none };
}

-- A poll of a pump, or a check that comes due.
pub data Woken (E : Type 0) : Type 0 where
  polls_outbound : Answers E → Woken E
  polls_inbound : Answers E → Woken E
  checks : Woken E

abbrev pub activity_of : Polling → Activity
activity_of s = record { to_remote = s.outbound.direction; from_remote = s.inbound.direction }

module _ {E : Type 0} where
  abbrev pub returned : Polling → Option (Result E (Unit {0})) → Option (Transfer × Ended E)
  returned s none = none
  returned s (some result) = some (transfer (activity_of s), ended result)

  abbrev pub returned_for : Polling → Option (Ended E) → Option (Transfer × Ended E)
  returned_for s none = none
  returned_for s (some reason) = some (transfer (activity_of s), reason)

  unfoldable pub wake : Watchdog → Polling → ℕ → Woken E → Polling × Option (Transfer × Ended E)
  unfolding poll
  wake w s now (polls_outbound a) =
      let (pump, result) = poll s.outbound now a in
      let s' : Polling = record s { outbound = pump } in (s', returned s' result)
  wake w s now (polls_inbound a) =
      let (pump, result) = poll s.inbound now a in
      let s' : Polling = record s { inbound = pump } in (s', returned s' result)
  wake w s now checks =
      let (reason, clock) = tripped w s.clock (activity_of s) now in
      let s' : Polling = record s { clock = clock } in (s', returned_for s' reason)

  abbrev pub or_go_on :
      Polling × Option (Transfer × Ended E)
      → Polling × Option (Transfer × Ended E)
      → Polling × Option (Transfer × Ended E)
  or_go_on (s, none) rest = rest
  or_go_on (s, some result) rest = (s, some result)

  unfoldable pub run_polls :
      Watchdog → Polling → List (ℕ × Woken E) → Polling × Option (Transfer × Ended E)
  unfolding wake
  run_polls w s [] = (s, none)
  run_polls w s ((now, woken) ∷ later) =
      let rest = run_polls w (wake w s now woken).0 later in or_go_on (wake w s now woken) rest
