-- ===== src/Splice/Loop.antt =====
-- src/splice.rs, `splice` and `pump`: the loop over what becomes ready, and one pass of a pump.
use lwd_mixnet_proxy.Common.{ℕ, List, [], ◌∷◌, ◌++◌, Option, none, some, Result, ok, err, length}
use lwd_mixnet_proxy.Splice.{
  Watchdog, Ended, closed, failed, Transfer, StallClock, Direction, Activity, record_moved,
  transfer, tripped,
}

-- One direction as it is pumped: what it counts, and the bytes that the writer has been handed.
pub record Pipe : Type 0 where
  pub direction : Direction
  pub written : List ℕ

-- How the three calls of one pass end: `read` with the bytes it put in the buffer, `write_all` and
-- `flush`. The outcome of a call that is not made is not looked at.
pub record Pass (E : Type 0) : Type 0 where
  pub read : Result E (List ℕ)
  pub write : Result E (Unit {0})
  pub flush : Result E (Unit {0})

module _ {E : Type 0} where
  abbrev pub after_flush :
      Pipe → List ℕ → ℕ → Result E (Unit {0}) → Pipe × Option (Result E (Unit {0}))
  after_flush pipe chunk now (err e) =
      (record pipe { written = pipe.written ++ chunk }, some (err e))
  after_flush pipe chunk now (ok _) = (
    record {
      direction = record_moved pipe.direction (length chunk) now;
      written = pipe.written ++ chunk;
    },
    none,
  )

  abbrev pub after_write :
      Pipe
      → List ℕ
      → ℕ
      → Result E (Unit {0})
      → Result E (Unit {0})
      → Pipe × Option (Result E (Unit {0}))
  after_write pipe chunk now flush (err e) = (pipe, some (err e))
  after_write pipe chunk now flush (ok _) = after_flush pipe chunk now flush

  -- One pass of `pump`; its result where it returns.
  unfoldable pub pump : Pipe → ℕ → Pass E → Pipe × Option (Result E (Unit {0}))
  pump pipe now pass = elim pass.read [
    | err e ↦ (pipe, some (err e))
    | ok [] ↦ (pipe, some (ok tt))
    | ok (b ∷ bs) ↦ after_write pipe (b ∷ bs) now pass.flush pass.write
  ]

  unfoldable pub ended : Result E (Unit {0}) → Ended E
  ended (ok _) = closed
  ended (err e) = failed e

pub record Splice : Type 0 where
  pub outbound : Pipe
  pub inbound : Pipe
  pub clock : StallClock

abbrev pub fresh_pipe : Pipe
fresh_pipe = record { direction = record { bytes = 0; last_at_millis = 0 }; written = [] }

unfoldable pub begin : Splice
begin = record {
  outbound = fresh_pipe;
  inbound = fresh_pipe;
  clock = record { since_millis = none };
}

abbrev pub activity : Splice → Activity
activity s = record { to_remote = s.outbound.direction; from_remote = s.inbound.direction }

-- The branches of `select!`, whichever becomes ready.
pub data Ready (E : Type 0) : Type 0 where
  outbound : Pass E → Ready E
  inbound : Pass E → Ready E
  tick : Ready E

module _ {E : Type 0} where
  abbrev pub returned : Splice → Option (Result E (Unit {0})) → Option (Transfer × Ended E)
  returned s none = none
  returned s (some result) = some (transfer (activity s), ended result)

  abbrev pub returned_for : Splice → Option (Ended E) → Option (Transfer × Ended E)
  returned_for s none = none
  returned_for s (some reason) = some (transfer (activity s), reason)

  -- One turn of the loop, at `now`.
  unfoldable pub turn : Watchdog → Splice → ℕ → Ready E → Splice × Option (Transfer × Ended E)
  unfolding pump ended
  turn w s now (outbound pass) =
      let (pipe, result) = pump s.outbound now pass in
      let s' : Splice = record s { outbound = pipe } in (s', returned s' result)
  turn w s now (inbound pass) =
      let (pipe, result) = pump s.inbound now pass in
      let s' : Splice = record s { inbound = pipe } in (s', returned s' result)
  turn w s now tick =
      let (reason, clock) = tripped w s.clock (activity s) now in
      let s' : Splice = record s { clock = clock } in (s', returned_for s' reason)

  abbrev pub or_continue :
      Splice × Option (Transfer × Ended E)
      → Splice × Option (Transfer × Ended E)
      → Splice × Option (Transfer × Ended E)
  or_continue (s, none) rest = rest
  or_continue (s, some result) rest = (s, some result)

  -- The loop over what becomes ready and when; no result where it still runs after that.
  unfoldable pub run : Watchdog → Splice → List (ℕ × Ready E) → Splice × Option (Transfer × Ended E)
  unfolding turn
  run w s [] = (s, none)
  run w s ((now, ready) ∷ later) =
      let rest = run w (turn w s now ready).0 later in or_continue (turn w s now ready) rest
