-- ===== src/Examples/Lines.antt =====
-- Signals, connections to the endpoint and numbers to report, and what is known of them at these.
use lwd_mixnet_proxy.Common.{
  ℕ, ◌+◌, ◌*◌, ◌/◌, ◌≤◌, ◌≡◌, refl, true, false, List, [], ◌∷◌, none, some, arith, if◌then◌else◌,
}
use Prim.Native.String.{String}
use native.Mathlib.Nat.{mul-le-mul_left}
use lwd_mixnet_proxy.Health.{start}
use lwd_mixnet_proxy.Shutdown.{terminate, interrupt, requested}
use lwd_mixnet_proxy.Endpoint.Serving.{
  Event, accepted, refused, shutdown, asked, begin_endpoint, serve_events, accepted_in, stops_in,
  answers_to, serve_events-answers_to,
}
use lwd_mixnet_proxy.Bench.{Arguments, arms, trial_cancelled}
use lwd_mixnet_proxy.Dial.{attempted, cancelled}
use lwd_mixnet_proxy.Splice.{as_millis}
use lwd_mixnet_proxy.Bench.Rates.{group_of}
use lwd_mixnet_proxy.Bench.Percentiles.{Nearest, percentile, sort}
use lwd_mixnet_proxy.Bench.Percentiles.Printed.{Printed, print_percentiles-Printed}
use lwd_mixnet_proxy.Bench.Report.{
  report, arm_title, trials_line, first_round_line, visible_line, opened_line, reduction,
  conditional_row, latency_row, timeout_note,
}
use lwd_mixnet_proxy.Examples.Benches.{arguments, one_at_a_time, three_trials}
use lwd_mixnet_proxy.Examples.Replies.{registered_half, health_check, gathered}

only_interrupts :
    requested true false (terminate ∷ interrupt ∷ terminate ∷ [])
    ≡ some (interrupt ∷ terminate ∷ [])
unfolding requested
only_interrupts = refl

-- A request before there is a connection cannot be; one after the shutdown is still answered.
abbrev scraped : List (Event String)
scraped =
    refused
    ∷ accepted
    ∷ asked health_check gathered registered_half
    ∷ shutdown
    ∷ accepted
    ∷ asked health_check gathered start
    ∷ []

serve_events-answers_to_example :
    ((serve_events begin_endpoint scraped).open_still ≡ (if stops_in scraped then false else true))
    × ((serve_events begin_endpoint scraped).connections ≡ accepted_in scraped)
    × ((serve_events begin_endpoint scraped).replies ≡ answers_to true false scraped)
serve_events-answers_to_example = serve_events-answers_to scraped

-- Rounding half up, in whole numbers.
abbrev half_up_nearest : ℕ → ℕ → ℕ
half_up_nearest n f = (n * f + 50) / 100

nearest_below : (n f : ℕ) → f ≤ 100 → half_up_nearest n f ≤ n
nearest_below n f h = omega (arith, mul-le-mul_left n h)

nearest_whole : (n : ℕ) → half_up_nearest n 100 ≡ n
nearest_whole n = omega arith

nearest_mono : (n f g : ℕ) → f ≤ g → half_up_nearest n f ≤ half_up_nearest n g
nearest_mono n f g h = omega (arith, mul-le-mul_left n h)

abbrev whole_numbers : Nearest
whole_numbers = record {
  nearest = half_up_nearest;
  nearest_below = λ n f room part. nearest_below n f part;
  nearest_whole = λ n room. nearest_whole n;
  nearest_mono = λ n f g room le. nearest_mono n f g le;
}

abbrev samples : List ℕ
samples = 30 ∷ 10 ∷ 20 ∷ 10 ∷ []

median : percentile whole_numbers samples 50 ≡ some 20
unfolding percentile sort
median = refl

print_percentiles-Printed_example : Printed whole_numbers samples
print_percentiles-Printed_example =
    print_percentiles-Printed whole_numbers samples (omega arith) (omega arith)

abbrev in_series : Arguments
in_series = record arguments { concurrency = 1 ∷ []; gap_secs = none }

-- Of three trials two failed their first round and one gave up, whose time is in no percentile. Streams
-- that were neither discarded nor answered count as cancelled.
series_report :
    report whole_numbers three_trials in_series
    ≡ arm_title one_at_a_time
      ∷ trials_line 3
      ∷ first_round_line (record { part = 2; whole = 3 })
      ∷ visible_line (record { part = 1; whole = 3 })
      ∷ opened_line 5 (record { part = 5; whole = 3 }) 3
      ∷ reduction (record { part = 2; whole = 3 }) (record { part = 1; whole = 3 })
      ∷ conditional_row (1, 3, 2)
      ∷ conditional_row (2, 2, 1)
      ∷ latency_row "round that answered" (some 2 ∷ some 2 ∷ some 2 ∷ some 2 ∷ [])
      ∷ latency_row "establishment seen by the wallet" (some 9 ∷ some 9 ∷ some 9 ∷ some 9 ∷ [])
      ∷ latency_row "time spent on a discarded stream" []
      ∷ timeout_note 1
      ∷ []
unfolding report arms group_of attempted cancelled trial_cancelled as_millis
series_report = refl
