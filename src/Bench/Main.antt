-- ===== src/Bench/Main.antt =====
-- src/bin/bench.rs, `main` as a whole, with what it prints: numbers are kept as numbers.
pub mod Printing
use Prim.Native.String.{String}
use lwd_mixnet_proxy.Common.{
  ℕ, zero, suc, Bool, true, false, List, [], ◌∷◌, ◌++◌, leb, if◌then◌else◌, Option, none, some, map,
  length, last?, Result, ok, err,
}
use lwd_mixnet_proxy.Splice.{as_millis}
use lwd_mixnet_proxy.Half.{Failure, context}
use lwd_mixnet_proxy.Dial.Run.{Network}
use lwd_mixnet_proxy.Bench.{
  Arm, Arguments, Trial, answered, trial_unanswered, refused_opens, refusal_streak_limit,
}
use lwd_mixnet_proxy.Bench.Trials.{Measured, measure_one}
use lwd_mixnet_proxy.Bench.Percentiles.{Nearest}
use lwd_mixnet_proxy.Bench.Report.{Line, report}

-- The arguments where only the server's address is given.
abbrev pub defaults : Arguments
defaults = record {
  trials = 300;
  attempts = 6;
  concurrency = 1 ∷ 3 ∷ [];
  gap_secs = none;
  probe_timeout_secs = 10;
  reply_surbs = none;
}

-- A text with numbers in it.
pub data Piece : Type 0 where
  literal : String → Piece
  numeral : ℕ → Piece

-- `Display for Arm`.
abbrev pub with_gap : ℕ → Option ℕ → List Piece
with_gap concurrency (some gap) =
    literal "rounds of " ∷ numeral concurrency ∷ literal ", " ∷ numeral gap ∷ literal "s gap" ∷ []
with_gap concurrency none = literal "rounds of " ∷ numeral concurrency ∷ []

unfoldable pub fmt : Arm → List Piece
fmt arm = with_gap arm.concurrency arm.gap_secs

-- The columns of a trial's line; no gap leaves its column empty.
pub record Row : Type 0 where
  pub ordinal : ℕ
  pub concurrency : ℕ
  pub gap : Option ℕ
  pub outcome : String
  pub rounds : ℕ
  pub unanswered : ℕ
  pub refused : ℕ
  pub millis : ℕ

pub data Output : Type 0 where
  dialling : String → Output
  heading : ℕ → ℕ → List ℕ → ℕ → Option ℕ → Output
  trial_line : Row → Output
  stopping : ℕ → ℕ → Output
  report_line : Line → Output

abbrev pub outcome_word : Bool → String
outcome_word true = "answered"
outcome_word false = "gave-up"

module _ {E N : Type 0} where
  unfoldable pub trial_concurrency : Trial E N → ℕ
  trial_concurrency trial = Arm.concurrency trial.arm

  unfoldable pub row_of : ℕ → Trial E N → Row
  unfolding trial_concurrency answered trial_unanswered refused_opens as_millis
  row_of number trial = record {
    ordinal = number;
    concurrency = trial_concurrency trial;
    gap = Arm.gap_secs trial.arm;
    outcome = outcome_word (answered trial);
    rounds = length trial.rounds;
    unanswered = trial_unanswered trial;
    refused = refused_opens trial;
    millis = as_millis trial.total;
  }

  -- The line of the trial that was pushed last.
  abbrev pub progress : ℕ → Option (Trial E N) → List Output
  progress number none = []
  progress number (some trial) = trial_line (row_of number trial) ∷ []

abbrev pub heading_for : Arguments → Output
heading_for a = heading a.trials a.attempts a.concurrency a.probe_timeout_secs a.reply_surbs

module _ {C W E N : Type 0} (net : Network C W E N) where
  abbrev pub after_lines :
      List Output → Option (Measured C E N × List Output) → Option (Measured C E N × List Output)
  after_lines lines none = none
  after_lines lines (some (m, later)) = some (m, lines ++ later)

  -- The loop with what each pass of it prints.
  unfoldable pub measure_aloud :
      Arguments → ℕ → ℕ → Measured C E N → Option (Measured C E N × List Output)
  unfolding row_of
  measure_aloud arguments zero number m = some (m, [])
  measure_aloud arguments (suc left) number m = elim (measure_one net arguments number m) [
    | none ↦ none
    | some m' ↦
        let rest = measure_aloud arguments left (suc number) m' in
        after_lines (progress number (last? m'.trials)) (
          if leb refusal_streak_limit m'.refusing_streak
          then some (m', stopping number m'.refusing_streak ∷ [])
          else rest)
  ]

  -- A run that has no trial yet.
  abbrev pub no_trials : C → ℕ → Measured C E N
  no_trials c token = record { client = c; next_token = token; refusing_streak = 0; trials = [] }

  module _ {F : Type 0} (float : Nearest) (server : String) (parsed : Result F (Unit {0}))
      (connected : Result F C) where
    abbrev pub finish_run :
        Arguments
        → Option (Measured C E N × List Output)
        → Option (Result (Failure F) (Unit {0}) × List Output)
    finish_run arguments none = none
    finish_run arguments (some (m, lines)) = some (
      ok tt,
      dialling server
          ∷ heading_for arguments
          ∷ (lines ++ map report_line (report float m.trials arguments)),
    )

    abbrev pub run_connected :
        Arguments → ℕ → Result F C → Option (Result (Failure F) (Unit {0}) × List Output)
    run_connected arguments token (err e) = some (err (context "connecting to the mixnet" e), [])
    run_connected arguments token (ok c) =
        finish_run arguments (measure_aloud arguments arguments.trials 1 (no_trials c token))

    abbrev pub run_parsed :
        Arguments → ℕ → Result F (Unit {0}) → Option (Result (Failure F) (Unit {0}) × List Output)
    run_parsed arguments token (err e) =
        some (err (context "parsing the server's Nym address" e), [])
    run_parsed arguments token (ok _) = run_connected arguments token connected

    -- `main`, with how the server's address parses and how connecting ends; `none` where a dial runs
    -- out of fuel.
    unfoldable pub bench_main : Arguments → ℕ → Option (Result (Failure F) (Unit {0}) × List Output)
    unfolding measure_aloud report
    bench_main arguments token = run_parsed arguments token parsed
