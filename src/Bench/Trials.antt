-- ===== src/Bench/Trials.antt =====
-- src/bin/bench.rs, `main` from `arms` to `report`: the run of trials, and when it is abandoned.
use lwd_mixnet_proxy.Common.{
  ℕ, zero, suc, ◌+◌, List, [], ◌∷◌, ◌++◌, ◌==◌, leb, if◌then◌else◌, Option, none, some,
}
use lwd_mixnet_proxy.Dial.Run.{Network}
use lwd_mixnet_proxy.Bench.{
  Arm, Arguments, Trial, arms, arm_of, opened, settings_for, run_trial, prepare,
  refusal_streak_limit,
}

-- The run between two trials.
pub record Measured (C E N : Type 0) : Type 0 where
  pub client : C
  pub next_token : ℕ
  pub refusing_streak : ℕ
  pub trials : List (Trial E N)

module _ {C W E N : Type 0} (net : Network C W E N) where
  abbrev pub keep_trial : Measured C E N → Trial E N × C × ℕ → Measured C E N
  keep_trial m (trial, c, token) = record {
    client = c;
    next_token = token;
    refusing_streak = if opened trial == 0 then m.refusing_streak + 1 else 0;
    trials = m.trials ++ (trial ∷ []);
  }

  abbrev pub measure_kept : Measured C E N → Option (Trial E N × C × ℕ) → Option (Measured C E N)
  measure_kept m none = none
  measure_kept m (some end) = some (keep_trial m end)

  abbrev pub measure_prepared :
      Arguments → Arm → Measured C E N → Option (C × ℕ) → Option (Measured C E N)
  measure_prepared arguments arm m none = none
  measure_prepared arguments arm m (some (c, token)) =
      measure_kept m (run_trial net (settings_for arguments arm) arm c token)

  abbrev pub measure_arm : Arguments → Option Arm → Measured C E N → Option (Measured C E N)
  measure_arm arguments none m = none
  measure_arm arguments (some arm) m =
      measure_prepared arguments arm m
        (prepare net (settings_for arguments arm) arm.gap_secs m.client m.next_token)

  -- One pass of the loop, on the arm that the number picks.
  unfoldable pub measure_one : Arguments → ℕ → Measured C E N → Option (Measured C E N)
  unfolding opened settings_for
  measure_one arguments number m = measure_arm arguments (arm_of (arms arguments) number) m

  -- `for number in 1..=arguments.trials`, of which `left` passes are to come.
  unfoldable pub measure : Arguments → ℕ → ℕ → Measured C E N → Option (Measured C E N)
  measure arguments zero number m = some m
  measure arguments (suc left) number m = elim (measure_one arguments number m) [
    | none ↦ none
    | some m' ↦
        let rest = measure arguments left (suc number) m' in
        if leb refusal_streak_limit m'.refusing_streak then some m' else rest
  ]

  unfoldable pub run_trials : Arguments → C → ℕ → Option (Measured C E N)
  run_trials arguments c token =
      measure arguments arguments.trials 1
        (record { client = c; next_token = token; refusing_streak = 0; trials = [] })
