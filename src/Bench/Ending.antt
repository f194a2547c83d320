-- ===== src/Bench/Ending.antt =====
-- src/bin/bench.rs, `main`: that the run of trials comes to its end.
use lwd_mixnet_proxy.Common.{
  ℕ, zero, suc, ◌<◌, ◌≡◌, refl, ◌∙◌, inl, inr, List, [], ◌∷◌, ◌++◌, leb, some, arith, Bool-cases,
}
use mathlib.Core.List.{append_assoc, append-nil}
use mathlib.Core.Path.{sym}
use lwd_mixnet_proxy.Dial.Run.{Network}
use lwd_mixnet_proxy.Bench.{Arguments, Trial, refusal_streak_limit}
use lwd_mixnet_proxy.Bench.Trials.{Measured, keep_trial, measure, run_trials}
use lwd_mixnet_proxy.Bench.Rotation.{IsMeasurable, IsRun, Unstopped-more, measure_one-IsSound}

module _ {C W E N : Type 0} (net : Network C W E N) where
  abbrev Goes : Arguments → ℕ → ℕ → Measured C E N → Type 0
  Goes arguments left number m =
      (new : List (Trial E N)) × (m' : Measured C E N) × (measure net arguments left number m
        ≡ some m')
      × (m'.trials ≡ m.trials ++ new)
      × IsRun arguments left number m.refusing_streak new m'

  measure-nothing :
      (arguments : Arguments) (number : ℕ) (m : Measured C E N)
      → m.refusing_streak < refusal_streak_limit
      → Goes arguments zero number m
  unfolding measure
  measure-nothing arguments number m few = (
    [],
    m,
    refl,
    sym (append-nil m.trials),
    record {
      sound = tt;
      rotates = tt;
      streak = refl;
      short = omega arith;
      fits = omega arith;
      unstopped = tt;
      cut = inl refl;
    },
  )

  measure-IsRun :
      (arguments : Arguments) (left number : ℕ) (m : Measured C E N)
      → IsMeasurable arguments
      → m.refusing_streak < refusal_streak_limit
      → Goes arguments left number m
  unfolding measure
  measure-IsRun arguments zero number m valid few = measure-nothing arguments number m few
  measure-IsRun arguments (suc left) number m valid few =
      let (t, c, token, ran, picked, sound) = measure_one-IsSound net arguments number m valid in
      let m1 : Measured C E N = keep_trial net m (t, c, token) in
      elim (Bool-cases (leb refusal_streak_limit m1.refusing_streak)) [
        | inl stop ↦ (
          t ∷ [],
          m1,
          rw (ran, measure, stop) refl,
          refl,
          record {
            sound = (sound, tt);
            rotates = (picked, tt);
            streak = refl;
            short = ground arith;
            fits = omega arith;
            unstopped = tt;
            cut = inr (ground arith);
          },
        )
        | inr go ↦
            let (new, m', found, all, run) =
              measure-IsRun arguments left (suc number) m1 valid (ground arith) in
            (
              t ∷ new,
              m',
              rw (ran, measure, go) found,
              all ∙ append_assoc m.trials (t ∷ []) new,
              record {
                sound = (sound, run.sound);
                rotates = (picked, run.rotates);
                streak = run.streak;
                short = run.short;
                fits = omega (arith, run.fits);
                unstopped = Unstopped-more m.refusing_streak t new (ground arith) run.unstopped;
                cut = ground (arith, run.cut);
              },
            )
      ]

  -- With at least one arm and 1 to 2^32 - 1 attempts, a run always comes to its end. Its trials
  -- are on the arms in turn, each with at least one round, all but the last unanswered, and the
  -- last answered if and only if the trial is. There are as many trials as were asked for, or
  -- fewer where the latest five in a row opened no stream; no five in a row before the last trial
  -- did.
  pub run_trials-IsRun :
      (arguments : Arguments) (c : C) (token : ℕ)
      → IsMeasurable arguments
      → (m : Measured C E N) × (run_trials net arguments c token ≡ some m)
        × IsRun arguments arguments.trials 1 0 m.trials m
  unfolding run_trials
  run_trials-IsRun arguments c token valid =
      let m0 : Measured C E N = record {
        client = c;
        next_token = token;
        refusing_streak = 0;
        trials = [];
      } in
      let (new, m, found, all, run) =
        measure-IsRun arguments arguments.trials 1 m0 valid (omega arith) in
      (m, found, rw all run)
