-- ===== src/Examples/Polls.antt =====
-- A splice poll by poll, with a chunk that its writer takes in two parts, and the theorems of
-- `Splice.Polls` at it.
use lwd_mixnet_proxy.Common.{ℕ, ◌≡◌, refl, List, [], ◌∷◌, ◌++◌, none, some, ok, err}
use lwd_mixnet_proxy.Splice.{
  Watchdog, failed, tripped, transfer, moved_at, as_millis, record_moved, from_secs,
}
use lwd_mixnet_proxy.Splice.Loop.{begin, run, ended}
use lwd_mixnet_proxy.Splice.Polls.{
  Answers, begin_polling, Woken, polls_outbound, polls_inbound, checks, run_polls, on_taken,
}
use lwd_mixnet_proxy.Splice.Polls.Passes.{passes}
use lwd_mixnet_proxy.Splice.Polls.Runs.{Nears, run_polls-run}
use lwd_mixnet_proxy.Splice.Polls.Kept.{to_remote, kept, reads_in, run_polls-kept}

abbrev deadlines : Watchdog
deadlines = record { stall = some (from_secs 60); idle = none }

abbrev comes : List ℕ → Answers ℕ
comes chunk = record { read = ok chunk; write = ok 0; flush = ok tt }

abbrev takes : ℕ → Answers ℕ
takes n = record { read = ok []; write = ok n; flush = ok tt }

-- The wallet's four bytes go in two parts, an answer comes between them, and a second chunk fails
-- after two bytes of it.
abbrev polls : List (ℕ × Woken ℕ)
polls =
    (5, polls_outbound (comes (1 ∷ 2 ∷ 3 ∷ 4 ∷ [])))
    ∷ (6, polls_outbound (takes 1))
    ∷ (7, polls_inbound (comes (9 ∷ [])))
    ∷ (8, polls_outbound (takes 7))
    ∷ (9, polls_outbound (takes 0))
    ∷ (5000, checks)
    ∷ (5001, polls_outbound (comes (5 ∷ 6 ∷ 7 ∷ [])))
    ∷ (5002, polls_outbound (takes 2))
    ∷ (5003, polls_outbound (record { read = ok []; write = err 32; flush = ok tt }))
    ∷ []

four_counted :
    (run_polls deadlines begin_polling polls).1
    ≡ some (record { to_remote = 4; from_remote = 0 }, failed 32)
unfolding run_polls begin_polling tripped moved_at record_moved as_millis transfer on_taken ended
four_counted = refl

six_written :
    (run_polls deadlines begin_polling polls).0.outbound.written ≡ 1 ∷ 2 ∷ 3 ∷ 4 ∷ 5 ∷ 6 ∷ []
unfolding run_polls begin_polling tripped moved_at record_moved as_millis transfer on_taken
six_written = refl

run_polls-run_example :
    ((run_polls deadlines begin_polling polls).1
      ≡ (run deadlines begin (passes deadlines begin_polling polls)).1)
    × Nears
        (run_polls deadlines begin_polling polls).0
        (run deadlines begin (passes deadlines begin_polling polls)).0
run_polls-run_example = run_polls-run deadlines polls

run_polls-kept_example :
    kept (run_polls deadlines begin_polling polls).0.outbound
    ≡ kept begin_polling.outbound ++ reads_in deadlines to_remote begin_polling polls
run_polls-kept_example = run_polls-kept deadlines to_remote polls begin_polling
