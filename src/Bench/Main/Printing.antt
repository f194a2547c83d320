-- ===== src/Bench/Main/Printing.antt =====
-- src/bin/bench.rs, `main`: what a whole measurement prints.
use Prim.Native.String.{String}
use lwd_mixnet_proxy.Common.{
  ℕ, suc, ◌≡◌, List, [], ◌∷◌, ◌++◌, leb, if◌then◌else◌, Option, some, map, length, Result, ok, err,
}
use lwd_mixnet_proxy.Half.{Failure, context}
use lwd_mixnet_proxy.Dial.Run.{Network}
use lwd_mixnet_proxy.Bench.{Arguments, Trial, refusal_streak_limit}
use lwd_mixnet_proxy.Bench.Trials.{Measured, run_trials}
use lwd_mixnet_proxy.Bench.Percentiles.{Nearest}
use lwd_mixnet_proxy.Bench.Report.{report}
use lwd_mixnet_proxy.Bench.Main.{
  Output, dialling, trial_line, stopping, report_line, row_of, heading_for,
}

-- One line for each trial, numbered from here on.
abbrev pub rows : {E N : Type 0} → ℕ → List (Trial E N) → List Output
rows number [] = []
rows number (t ∷ ts) = trial_line (row_of number t) ∷ rows (suc number) ts

-- The last word of a run that is abandoned after this trial.
abbrev pub abandoned : ℕ → ℕ → List Output
abandoned number streak =
    if leb refusal_streak_limit streak then stopping number streak ∷ [] else []

-- The number of the last of these trials.
last_number : {E N : Type 0} → ℕ → List (Trial E N) → ℕ
last_number number [] = number
last_number number (t ∷ ts) = last_number (suc number) ts

module _ {C W E N : Type 0} (net : Network C W E N) where
  module _ {F : Type 0} (float : Nearest) (server : String) (arguments : Arguments)
      (token : ℕ) where
    -- What `main` comes to, by how its two first steps end.
    abbrev pub Concludes :
        Result F (Unit {0})
        → Result F C
        → Option (Result (Failure F) (Unit {0}) × List Output)
        → Type 0
    Concludes (err e) connected out =
        out ≡ some (err (context "parsing the server's Nym address" e), [])
    Concludes (ok _) (err e) out = out ≡ some (err (context "connecting to the mixnet" e), [])
    Concludes (ok _) (ok c) out =
        (m : Measured C E N) × (run_trials net arguments c token ≡ some m)
        × (out
            ≡ some (
              ok tt,
              dialling server
                  ∷ heading_for arguments
                  ∷ ((rows 1 m.trials ++ abandoned (length m.trials) m.refusing_streak)
                      ++ map report_line (report float m.trials arguments)),
            ))
