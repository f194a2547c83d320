-- ===== src/Examples/Benches.antt =====
-- Measurements on a concrete client, and the theorems of `Bench` at concrete inputs.
use lwd_mixnet_proxy.Common.{
  ℕ, ◌≡◌, refl, true, false, List, [], ◌∷◌, none, some, arith, All, length,
}
use lwd_mixnet_proxy.Handshake.{foreign_stream}
use lwd_mixnet_proxy.Dial.{Round, attempted, unanswered, probe_error, open_error}
use lwd_mixnet_proxy.Bench.Spread.{within_round}
use lwd_mixnet_proxy.Bench.{refused_opens, Arm, Arguments, Trial, arms, answered}
use lwd_mixnet_proxy.Bench.Trials.{Measured, run_trials}
use lwd_mixnet_proxy.Bench.Rotation.{IsMeasurable, IsSound, IsRun}
use lwd_mixnet_proxy.Bench.Ending.{run_trials-IsRun}
use lwd_mixnet_proxy.Bench.Rates.{conditional_rates}
use lwd_mixnet_proxy.Examples.Peer.{Opener, peer_net}
use lwd_mixnet_proxy.Examples.Dials.{opener}

-- Two trials, with one and with two streams at a time.
abbrev pub arguments : Arguments
arguments = record {
  trials = 2;
  attempts = 3;
  concurrency = 1 ∷ 2 ∷ [];
  gap_secs = some (0 ∷ []);
  probe_timeout_secs = 1;
  reply_surbs = none;
}

two_arms : length (arms arguments) ≡ 2
unfolding arms
two_arms = refl

pub arguments-IsMeasurable : IsMeasurable arguments
arguments-IsMeasurable = omega (arith, two_arms)

run_trials-IsRun_example :
    (m : Measured Opener ℕ ℕ) × (run_trials peer_net arguments opener 1 ≡ some m)
    × IsRun arguments 2 1 0 m.trials m
run_trials-IsRun_example = run_trials-IsRun peer_net arguments opener 1 arguments-IsMeasurable

abbrev silent_round : Round ℕ ℕ
silent_round = record { opened = 1; discarded = []; answered = false }

abbrev good_round : Round ℕ ℕ
good_round = record { opened = 1; discarded = []; answered = true }

abbrev pub one_at_a_time : Arm
one_at_a_time = record { concurrency = 1; gap_secs = none }

-- One trial answers in its second round, one at once, and one gives up after two rounds.
abbrev pub three_trials : List (Trial ℕ ℕ)
three_trials =
    record {
      arm = one_at_a_time;
      rounds = silent_round ∷ good_round ∷ [];
      total = 9_000_000;
      answering_round = some 2_000_000;
    }
    ∷ record {
      arm = one_at_a_time;
      rounds = good_round ∷ [];
      total = 1_000_000;
      answering_round = some 1_000_000;
    }
    ∷ record {
      arm = one_at_a_time;
      rounds = silent_round ∷ silent_round ∷ [];
      total = 20_000_000;
      answering_round = none;
    }
    ∷ []

three_trials-IsSound : All IsSound three_trials
unfolding answered
three_trials-IsSound = ((refl, refl), (refl, ((refl, refl), tt)))

three_trials_table : conditional_rates three_trials ≡ (1, 3, 2) ∷ (2, 2, 1) ∷ []
unfolding conditional_rates
three_trials_table = refl

-- A round of three of which one went unanswered before another answered.
abbrev mixed_round : Round ℕ ℕ
mixed_round = record {
  opened = 3;
  discarded = record { elapsed = 7; error = probe_error foreign_stream } ∷ [];
  answered = true;
}

mixed_table : within_round (mixed_round ∷ silent_round ∷ mixed_round ∷ []) ≡ ((3, 1), 2) ∷ []
unfolding within_round attempted unanswered
mixed_table = refl

-- Two refusals, then a stream that answers.
abbrev refused_trial : Trial ℕ ℕ
refused_trial = record {
  arm = one_at_a_time;
  rounds =
      record {
        opened = 0;
        discarded = record { elapsed = 1; error = open_error 9 } ∷ [];
        answered = false;
      }
      ∷ record {
        opened = 1;
        discarded = record { elapsed = 1; error = open_error 9 } ∷ [];
        answered = true;
      }
      ∷ [];
  total = 5_000_000;
  answering_round = some 4_000_000;
}

two_refused : refused_opens refused_trial ≡ 2
unfolding refused_opens attempted
two_refused = refl
