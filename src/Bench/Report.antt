-- ===== src/Bench/Report.antt =====
-- src/bin/bench.rs, `report` and what it calls: the report as data, line by line. A rate is kept as
-- the two numbers whose quotient it is, and how numbers and quotients print is left out.
pub mod Groups
use Prim.Native.String.{String}
use lwd_mixnet_proxy.Common.{
  ℕ, suc, ◌+◌, ◌*◌, ◌/◌, Bool, true, false, not, ◌&&◌, List, [], ◌∷◌, ◌++◌, ◌==◌, ltb,
  if◌then◌else◌, Option, none, some, map, length, max, sum,
}
use lwd_mixnet_proxy.Splice.{as_millis}
use lwd_mixnet_proxy.Dial.{Round, Discarded}
use lwd_mixnet_proxy.Bench.{Arm, Arguments, Trial, arms, refused_opens}
use lwd_mixnet_proxy.Bench.Rates.{
  select, group_of, first_round_failures, visible_failures, streams_opened, streams_cancelled,
  conditional_rates, establishment,
}
use lwd_mixnet_proxy.Bench.Spread.{Key, within_round}
use lwd_mixnet_proxy.Bench.Percentiles.{Nearest, percentile, print_percentiles}

-- `part as f64 / whole.max(1) as f64`.
pub record Ratio : Type 0 where
  pub part : ℕ
  pub whole : ℕ

unfoldable pub ratio : ℕ → ℕ → Ratio
ratio part whole = record { part = part; whole = max whole 1 }

-- A quotient is 0.0 for 0 alone.
abbrev pub is_zero : Ratio → Bool
is_zero r = r.part == 0

pub data Cell : Type 0 where
  percent : Ratio → Cell
  millis : Option ℕ → Cell
  average : Ratio → Cell

pub data Line : Type 0 where
  invalid : ℕ → Line
  arm_title : Arm → Line
  trials_line : ℕ → Line
  first_round_line : Ratio → Line
  visible_line : Ratio → Line
  opened_line : ℕ → Ratio → ℕ → Line
  reduction : Ratio → Ratio → Line
  reduction_over : ℕ → Line
  not_per_stream : ℕ → Line
  quiet_note : Line
  conditional_row : ℕ × ℕ × ℕ → Line
  spread_row : Key × ℕ → Line
  latency_row : String → List (Option ℕ) → Line
  timeout_note : ℕ → Line
  comparison_row : String → List Cell → Line
  per_stream_line : Ratio → Line
  prediction : ℕ → Ratio → Ratio → Line

abbrev pub when : Bool → List Line → List Line
when b lines = if b then lines else []

abbrev pub concat : {A : Type 0} → List (List A) → List A
concat [] = []
concat (xs ∷ xss) = xs ++ concat xss

abbrev pub reduction_lines : Ratio → Ratio → ℕ → List Line
reduction_lines first visible total =
    if not (is_zero visible)
    then reduction first visible ∷ []
    else when (ltb 0 first.part) (reduction_over total ∷ [])

abbrev pub Grouped : Type 0 → Type 0 → Type 0
Grouped E N = List (Arm × List (Trial E N))

module _ {E N : Type 0} where
  abbrev pub all_rounds : List (Trial E N) → List (Round E N)
  all_rounds group = concat (map (λ (trial : Trial E N). trial.rounds) group)

  abbrev pub answering_times : List (Trial E N) → List ℕ
  answering_times [] = []
  answering_times (trial ∷ trials) = elim trial.answering_round [
    | none ↦ answering_times trials
    | some elapsed ↦ as_millis elapsed ∷ answering_times trials
  ]

  abbrev pub discarded_times : List (Round E N) → List ℕ
  discarded_times rounds =
      map (λ (stream : Discarded E N). as_millis stream.elapsed)
        (concat (map (λ (round : Round E N). round.discarded) rounds))

  abbrev pub first_round_rate : List (Trial E N) → Ratio
  first_round_rate group = ratio (first_round_failures group) (length group)

  abbrev pub visible_rate : List (Trial E N) → Ratio
  visible_rate group = ratio (visible_failures group) (length group)

  abbrev pub row : String → (List (Trial E N) → Cell) → Grouped E N → Line
  row label value grouped = comparison_row label (map (λ g. value g.1) grouped)

  abbrev pub all_sequential : Grouped E N → Bool
  all_sequential [] = true
  all_sequential ((arm, group) ∷ more) = arm.concurrency == 1 && all_sequential more

  abbrev pub find_sequential : Grouped E N → Option (List (Trial E N))
  find_sequential [] = none
  find_sequential ((arm, group) ∷ more) =
      let rest = find_sequential more in if arm.concurrency == 1 then some group else rest

  -- The rate of rounds of one to the power of the size, beside what was observed.
  abbrev pub predictions : Ratio → Grouped E N → List Line
  predictions per_stream [] = []
  predictions per_stream ((arm, group) ∷ more) =
      when (ltb 1 arm.concurrency)
        (prediction arm.concurrency per_stream (first_round_rate group) ∷ [])
      ++ predictions per_stream more

  abbrev pub independence_from : Option (List (Trial E N)) → Grouped E N → List Line
  independence_from none grouped = []
  independence_from (some sequential) grouped =
      let per_stream = first_round_rate sequential in
      if is_zero per_stream then [] else per_stream_line per_stream ∷ predictions per_stream grouped

  abbrev pub independence : Grouped E N → List Line
  independence grouped =
      if all_sequential grouped then [] else independence_from (find_sequential grouped) grouped

  abbrev pub grouped_by : List Arm → List (Trial E N) → Grouped E N
  grouped_by configured trials = map (λ arm. (arm, group_of arm trials)) configured

  abbrev pub refused_total : List (Trial E N) → ℕ
  refused_total trials = sum (map refused_opens trials)

  module _ (float : Nearest) where
    unfoldable pub latency : List (Trial E N) → ℕ → List Line
    unfolding establishment print_percentiles
    latency group timeout =
        latency_row "round that answered" (print_percentiles float (answering_times group))
        ∷ latency_row "establishment seen by the wallet"
            (print_percentiles float (establishment group))
        ∷ latency_row "time spent on a discarded stream"
            (print_percentiles float (discarded_times (all_rounds group)))
        ∷ timeout_note timeout
        ∷ []

    abbrev pub arm_lines : Arm → List (Trial E N) → ℕ → List Line
    arm_lines arm group timeout =
        let total = length group in
        (arm_title arm
          ∷ trials_line total
          ∷ first_round_line (first_round_rate group)
          ∷ visible_line (visible_rate group)
          ∷ opened_line (streams_opened group) (ratio (streams_opened group) total)
              (streams_cancelled group)
          ∷ [])
        ++ (reduction_lines (first_round_rate group) (visible_rate group) total
            ++ (when (ltb 1 arm.concurrency) (not_per_stream arm.concurrency ∷ [])
                ++ (when (ltb (first_round_failures group * 10) total) (quiet_note ∷ [])
                    ++ (map conditional_row (conditional_rates group)
                        ++ (map spread_row (within_round (all_rounds group))
                            ++ latency group timeout)))))

    unfoldable pub report_arm : Arm → List (Trial E N) → ℕ → List Line
    unfolding first_round_failures visible_failures streams_opened streams_cancelled
        conditional_rates within_round latency ratio
    report_arm arm group timeout = if length group == 0 then [] else arm_lines arm group timeout

    unfoldable pub compare_arms : Grouped E N → List Line
    unfolding first_round_failures visible_failures establishment percentile streams_opened ratio
    compare_arms grouped =
        row "first-round failure rate" (λ g. percent (first_round_rate g)) grouped
        ∷ row "wallet-visible failure rate" (λ g. percent (visible_rate g)) grouped
        ∷ row "establishment p50" (λ g. millis (percentile float (establishment g) 50)) grouped
        ∷ row "establishment p99" (λ g. millis (percentile float (establishment g) 99)) grouped
        ∷ row "streams opened per trial" (λ g. average (ratio (streams_opened g) (length g)))
            grouped
        ∷ independence grouped

    abbrev pub reported : Grouped E N → ℕ → List Line
    reported grouped timeout = concat (map (λ g. report_arm g.0 g.1 timeout) grouped)

    unfoldable pub report : List (Trial E N) → Arguments → List Line
    unfolding report_arm compare_arms refused_opens group_of arms
    report trials arguments =
        let grouped = grouped_by (arms arguments) trials in
        when (ltb 0 (refused_total trials)) (invalid (refused_total trials) ∷ [])
        ++ (reported grouped arguments.probe_timeout_secs
            ++ when (ltb 1 (length grouped)) (compare_arms grouped))
