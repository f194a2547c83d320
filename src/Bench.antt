-- ===== src/Bench.antt =====
-- src/bin/bench.rs: a measurement of how often a probed stream answers. Here its configurations, one
-- trial and what is counted of it; `Trials` is the run and `Rates` what is reported of it.
pub mod Trials
pub mod Rotation
pub mod Ending
pub mod Rates
pub mod Spread
pub mod Opens
pub mod Percentiles
pub mod Report
pub mod Main
use lwd_mixnet_proxy.Common.{
  ℕ, zero, suc, ◌+◌, ◌-◌, ◌*◌, ◌/◌, ◌%◌, Bool, true, false, not, List, [], ◌∷◌, ◌++◌, ◌==◌, ltb,
  if◌then◌else◌, Option, none, some, ok, err, map, length, sum, Result,
}
use lwd_mixnet_proxy.Dial.{
  ProbeSettings, DialSettings, Round, GaveUp, attempted, unanswered, cancelled,
}
use lwd_mixnet_proxy.Dial.Run.{Network, Dialled, DialEnd, dial}

abbrev pub refusal_streak_limit : ℕ
refusal_streak_limit = 5

pub record Arm : Type 0 where
  pub concurrency : ℕ
  pub gap_secs : Option ℕ

-- The arguments that the measurement depends on. `attempts` and `concurrency` are `NonZeroU32`.
pub record Arguments : Type 0 where
  pub trials : ℕ
  pub attempts : ℕ
  pub concurrency : List ℕ
  pub gap_secs : Option (List ℕ)
  pub probe_timeout_secs : ℕ
  pub reply_surbs : Option ℕ

abbrev pub gaps_of : Option (List ℕ) → List (Option ℕ)
gaps_of (some gaps) = map some gaps
gaps_of none = none ∷ []

abbrev pub arms_with : ℕ → List (Option ℕ) → List Arm
arms_with concurrency [] = []
arms_with concurrency (gap ∷ gaps) =
    record { concurrency = concurrency; gap_secs = gap } ∷ arms_with concurrency gaps

abbrev pub arms_over : List ℕ → List (Option ℕ) → List Arm
arms_over [] gaps = []
arms_over (concurrency ∷ more) gaps = arms_with concurrency gaps ++ arms_over more gaps

unfoldable pub arms : Arguments → List Arm
arms arguments = arms_over arguments.concurrency (gaps_of arguments.gap_secs)

pub record Trial (E N : Type 0) : Type 0 where
  pub arm : Arm
  pub rounds : List (Round E N)
  pub total : ℕ
  pub answering_round : Option ℕ

module _ {E N : Type 0} where
  unfoldable pub answered : Trial E N → Bool
  answered trial = elim trial.answering_round [ none ↦ false | some elapsed ↦ true ]

  abbrev pub first_failed : List (Round E N) → Bool
  first_failed [] = false
  first_failed (round ∷ rounds) = not round.answered

  unfoldable pub first_round_failed : Trial E N → Bool
  first_round_failed trial = first_failed trial.rounds

  abbrev pub opened_over : List (Round E N) → ℕ
  opened_over rounds = sum (map (λ (round : Round E N). round.opened) rounds)

  unfoldable pub opened : Trial E N → ℕ
  opened trial = opened_over trial.rounds

  -- The subtraction does not saturate in the source: it panics or wraps below 0.
  unfoldable pub refused_opens : Trial E N → ℕ
  unfolding opened
  refused_opens trial = sum (map attempted trial.rounds) - opened trial

  unfoldable pub trial_unanswered : Trial E N → ℕ
  trial_unanswered trial = sum (map unanswered trial.rounds)

  unfoldable pub trial_cancelled : Trial E N → ℕ
  trial_cancelled trial = sum (map cancelled trial.rounds)

abbrev pub nanos : ℕ
nanos = 1_000_000_000

-- The settings of an arm; a concurrency of 0 would be taken for 1.
unfoldable pub settings_for : Arguments → Arm → DialSettings
settings_for arguments arm = record {
  reply_surbs = arguments.reply_surbs;
  probe = some (record {
    timeout = arguments.probe_timeout_secs * nanos;
    attempts = arguments.attempts;
    concurrency = if arm.concurrency == 0 then 1 else arm.concurrency;
  });
}

-- `arms[(number - 1) % arms.len()]`, and `none` where that panics.
abbrev pub arm_from : List Arm → ℕ → Option Arm
arm_from [] i = none
arm_from (arm ∷ later) zero = some arm
arm_from (arm ∷ later) (suc i) = arm_from later i

unfoldable pub arm_of : List Arm → ℕ → Option Arm
arm_of [] number = none
arm_of (arm ∷ later) number = arm_from (arm ∷ later) ((number - 1) % length (arm ∷ later))

module _ {C W E N : Type 0} (net : Network C W E N) where
  open net use {clock, client_at}

  abbrev pub trial_of : Arm → ℕ → DialEnd C W E N → Result (GaveUp E N) (Dialled W E N) → Trial E N
  trial_of arm started end (ok dialled) = record {
    arm = arm;
    rounds = dialled.rounds;
    total = clock end.client - started;
    answering_round = some dialled.answering_round;
  }
  trial_of arm started end (err gave_up) = record {
    arm = arm;
    rounds = gave_up.rounds;
    total = clock end.client - started;
    answering_round = none;
  }

  -- `none` only where `dial` runs out of fuel; so below.
  unfoldable pub run_trial : DialSettings → Arm → C → ℕ → Option (Trial E N × C × ℕ)
  run_trial settings arm c token = elim (dial net settings c token) [
    | none ↦ none
    | some end ↦ some (trial_of arm (clock c) end end.result, end.client, end.next_token)
  ]

  -- What the client and the token counter are after it.
  unfoldable pub warm_up : DialSettings → C → ℕ → Option (C × ℕ)
  warm_up settings c token = elim (dial net (record settings { probe = none }) c token) [
    | none ↦ none
    | some end ↦ some (end.client, end.next_token)
  ]

  abbrev pub wait : ℕ → Option (C × ℕ) → Option (C × ℕ)
  wait gap none = none
  wait gap (some (c, token)) = some (client_at (clock c + gap * nanos) c, token)

  -- The warm-up and the gap, if the arm has one.
  abbrev pub prepare : DialSettings → Option ℕ → C → ℕ → Option (C × ℕ)
  prepare settings none c token = some (c, token)
  prepare settings (some gap) c token = wait gap (warm_up settings c token)
