-- ===== src/Examples/Splices.antt =====
-- Splices on concrete events, and the theorems of `Splice` at concrete inputs.
use lwd_mixnet_proxy.Common.{
  ℕ, ◌-◌, ◌*◌, ◌≤◌, ◌≡◌, refl, true, inl, inr, List, [], ◌∷◌, ◌++◌, none, some, ok, max, arith,
}
use lwd_mixnet_proxy.Splice.{
  Watchdog, stalled, StallClock, Activity, as_millis, moved_at, or_zero, record_moved, tripped,
  check_period, from_millis, from_secs, transfer,
}
use lwd_mixnet_proxy.Splice.Loop.{Pass, Splice, Ready, outbound, inbound, tick, run, begin}
use lwd_mixnet_proxy.Splice.Deadlines.{Waiting, tripped-stalled, check_period_bounds}
use lwd_mixnet_proxy.Splice.Silence.{Stalls, stall_after, unanswered-Stalls}
use lwd_mixnet_proxy.Splice.Reaping.{
  idle_after, IsMoved, is_reaped, reason_of, reaped_or_on, last_moved, run-reaped,
}
use lwd_mixnet_proxy.Splice.Copies.{IsCounted, run-transparent}

abbrev thirty : ℕ
thirty = from_secs 30

abbrev copied : List ℕ → Pass ℕ
copied chunk = record { read = ok chunk; write = ok tt; flush = ok tt }

-- A request of two bytes at 1 s, which nothing answers.
abbrev asked : Splice
asked = record {
  outbound = record {
    direction = record { bytes = 2; last_at_millis = 1000 };
    written = 1 ∷ 2 ∷ [];
  };
  inbound = record { direction = record { bytes = 0; last_at_millis = 0 }; written = [] };
  clock = record { since_millis = none };
}

-- Pings at 12 s and 22 s, and a check at 17 s.
abbrev pings : List (ℕ × Ready ℕ)
pings =
    (12000, outbound (copied (9 ∷ []))) ∷ (17000, tick) ∷ (22000, outbound (copied (9 ∷ []))) ∷ []

chatty_stalls :
    (run (stall_after thirty) asked ((5000, tick) ∷ (pings ++ ((35000, tick) ∷ [])))).1
    ≡ some (record { to_remote = 4; from_remote = 0 }, stalled thirty)
unfolding run tripped moved_at as_millis transfer record_moved
chatty_stalls = refl

unanswered-Stalls_example :
    Stalls thirty
      (run {E = ℕ} (stall_after thirty) asked ((5000, tick) ∷ (pings ++ ((35000, tick) ∷ []))))
unfolding as_millis
unanswered-Stalls_example =
    unanswered-Stalls ℕ thirty asked 1000 5000
      (record { asked = omega arith; latest = omega arith; silent = inl refl }) (omega arith)
      (omega arith) 35000 pings
      (
        omega arith,
        (9 ∷ [], refl, omega arith),
        refl,
        refl,
        (omega arith, (omega arith, (9 ∷ [], refl, omega arith), refl, refl, (omega arith, tt))),
      )
      (omega arith) (omega arith)

abbrev quiet : Activity
quiet = record {
  to_remote = record { bytes = 2; last_at_millis = 1000 };
  from_remote = record { bytes = 0; last_at_millis = 0 };
}

abbrev unstarted : StallClock
unstarted = record { since_millis = none }

tripped-stalled_example :
    (Watchdog.stall (stall_after thirty) ≡ some thirty)
    × Waiting quiet
    × (as_millis thirty ≤ 31000 - or_zero (moved_at quiet.from_remote))
unfolding tripped moved_at as_millis
tripped-stalled_example =
    tripped-stalled {E = ℕ} (stall_after thirty) unstarted quiet 31000 thirty refl

abbrev reaper : Watchdog
reaper = record { stall = none; idle = some thirty }

-- A byte each way, and checks at 20, 40 and 55 s.
abbrev lull : List (ℕ × Ready ℕ)
lull =
    (1000, outbound (copied (7 ∷ [])))
    ∷ (20000, tick)
    ∷ (25000, inbound (copied (5 ∷ [])))
    ∷ (40000, tick)
    ∷ (55000, tick)
    ∷ []

lull_reaped : is_reaped thirty 0 lull ≡ true
unfolding as_millis
lull_reaped = refl

copied-IsMoved : (b : ℕ) → IsMoved (copied (b ∷ []))
copied-IsMoved b = record { byte = b; bytes = []; reads = refl; writes = refl; flushes = refl }

run-reaped_example :
    reason_of (run (idle_after thirty) begin lull).1
    ≡ reaped_or_on thirty (is_reaped thirty (last_moved begin) lull)
unfolding begin moved_at
run-reaped_example =
    run-reaped ℕ thirty lull begin 0
      (
        omega arith,
        copied-IsMoved 7,
        (omega arith, (omega arith, copied-IsMoved 5, (omega arith, (omega arith, tt)))),
      )
      (omega arith) (omega arith)

check_period_bounds_example :
    (from_millis 100 ≤ check_period reaper)
    × (check_period reaper ≤ from_secs 5)
    × (check_period reaper * 4 ≤ max thirty (from_millis 400))
check_period_bounds_example = check_period_bounds reaper thirty (inr refl)

abbrev carried : List (ℕ × Ready ℕ)
carried = (10, outbound (copied (7 ∷ 8 ∷ []))) ∷ (20, inbound (copied (5 ∷ []))) ∷ (5000, tick) ∷ []

run-transparent_example :
    ((run (stall_after thirty) begin carried).0.outbound.written ≡ 7 ∷ 8 ∷ [])
    × ((run (stall_after thirty) begin carried).0.inbound.written ≡ 5 ∷ [])
    × IsCounted (run (stall_after thirty) begin carried).0
unfolding begin run tripped moved_at as_millis record_moved
run-transparent_example =
    run-transparent (stall_after thirty) carried begin refl (record { out = refl; back = refl })
