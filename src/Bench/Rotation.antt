-- ===== src/Bench/Rotation.antt =====
-- src/bin/bench.rs, `main`: the trials of a run, their arms and where the run ends.
use lwd_mixnet_proxy.Common.{
  ℕ, zero, suc, ◌+◌, ◌-◌, ◌*◌, ◌%◌, ◌≤◌, ◌<◌, ◌≡◌, refl, sym, ◌∙◌, ap, ◌⊎◌, Bool, true, false, List,
  [], ◌∷◌, ◌++◌, ◌==◌, if◌then◌else◌, Option, none, some, Result, ok, err, length, All, arith,
}
use native.Mathlib.Nat.{mod-lt}
use lwd_mixnet_proxy.Common.Words.{u32_mod}
use lwd_mixnet_proxy.Dial.{Round, GaveUp, DialSettings, attempts_of}
use lwd_mixnet_proxy.Dial.Run.{Network, Dialled, DialEnd}
use lwd_mixnet_proxy.Dial.Accounting.{IsValid}
use lwd_mixnet_proxy.Dial.Budget.{Unanswered, Spent, dial-Spent}
use lwd_mixnet_proxy.Bench.{
  Arm, Arguments, Trial, arms, arm_from, arm_of, answered, opened, settings_for, trial_of,
  run_trial, warm_up, prepare, refusal_streak_limit, nanos,
}
use lwd_mixnet_proxy.Bench.Trials.{Measured, keep_trial, measure_one}

-- The rounds of a trial: at least one, all but the last without an answer, and the last with one if
-- and only if the trial has.
abbrev pub Runs : {E N : Type 0} → Bool → List (Round E N) → Type 0
Runs answered [] = ⊥
Runs answered (r ∷ []) = r.answered ≡ answered
Runs answered (r ∷ s ∷ rs) = (r.answered ≡ false) × Runs answered (s ∷ rs)

abbrev pub IsSound : {E N : Type 0} → Trial E N → Type 0
IsSound t = Runs (answered t) t.rounds

module _ {E N : Type 0} where
  Runs-silent : (r : Round E N) (rs : List (Round E N)) → Unanswered (r ∷ rs) → Runs false (r ∷ rs)
  Runs-silent r [] un = un.0
  Runs-silent r (s ∷ rs) un = (un.0, Runs-silent s rs un.1)

  Runs-gave_up : (rs : List (Round E N)) → Unanswered rs → 0 < attempts_of rs → Runs false rs
  unfolding attempts_of
  Runs-gave_up [] un pos = absurd (omega arith)
  Runs-gave_up (r ∷ rs) un pos = Runs-silent r rs un

  Runs-dialled :
      (front : List (Round E N)) (last : Round E N)
      → Unanswered front
      → last.answered ≡ true
      → Runs true (front ++ (last ∷ []))
  Runs-dialled [] last un a = a
  Runs-dialled (r ∷ []) last un a = (un.0, a)
  Runs-dialled (r ∷ s ∷ rs) last un a = (un.0, Runs-dialled (s ∷ rs) last un.1 a)

-- What the command line makes sure of.
pub record IsMeasurable (arguments : Arguments) : Type 0 where
  pub tries : 0 < arguments.attempts
  pub word : arguments.attempts < u32_mod
  pub configured : 0 < length (arms arguments)

settings_for-IsValid :
    (arguments : Arguments) (arm : Arm)
    → IsMeasurable arguments
    → IsValid (settings_for arguments arm)
unfolding settings_for
settings_for-IsValid arguments arm m = record {
  tries = m.tries;
  sizes = ground arith;
  word = m.word;
}

module _ {C W E N : Type 0} (net : Network C W E N) where
  trial_of-IsSound :
      (arm : Arm) (started : ℕ) (end : DialEnd C W E N) (r : Result (GaveUp E N) (Dialled W E N))
      (concurrency remaining : ℕ)
      → 0 < remaining
      → Spent concurrency remaining [] r
      → IsSound (trial_of net arm started end r)
  unfolding answered
  trial_of-IsSound arm started end (ok d) c n pos (front, last, same, un, a, full, left, tot) =
      rw same (Runs-dialled front last un a)
  trial_of-IsSound arm started end (err g) c n pos (ran, same, un, tot, lo, hi) =
      rw same (Runs-gave_up ran un (omega (arith, tot)))

  arm_kept :
      (arm : Arm) (started : ℕ) (end : DialEnd C W E N) (r : Result (GaveUp E N) (Dialled W E N))
      → (trial_of net arm started end r).arm ≡ arm
  arm_kept arm started end (ok d) = refl
  arm_kept arm started end (err g) = refl

  run_trial-IsSound :
      (settings : DialSettings) (arm : Arm) (c : C) (token : ℕ)
      → IsValid settings
      → (t : Trial E N) × (c' : C) × (token' : ℕ) × (run_trial net settings arm c token
          ≡ some (t, c', token'))
        × (t.arm ≡ arm)
        × IsSound t
  unfolding run_trial
  run_trial-IsSound settings arm c token valid =
      let (e, found, spent) = dial-Spent net settings c token valid in
      (
        trial_of net arm (net.clock c) e e.result,
        e.client,
        e.next_token,
        rw (found, run_trial) refl,
        arm_kept arm _ e e.result,
        trial_of-IsSound arm _ e e.result _ _ valid.tries spent,
      )

  prepared :
      (settings : DialSettings) (gap : Option ℕ) (c : C) (token : ℕ)
      → (c' : C) × (token' : ℕ) × (prepare net settings gap c token ≡ some (c', token'))
  unfolding warm_up
  prepared settings none c token = (c, token, refl)
  prepared settings (some gap) c token =
      let (e, found, spent) =
        dial-Spent net (record settings { probe = none }) c token
          (record { tries = omega arith; sizes = omega arith; word = omega arith }) in
      (
        net.client_at (net.clock e.client + gap * nanos) e.client,
        e.next_token,
        rw (found, warm_up) refl,
      )

arm_from-some : (xs : List Arm) (i : ℕ) → i < length xs → (a : Arm) × (arm_from xs i ≡ some a)
arm_from-some [] i h = absurd (omega arith)
arm_from-some (x ∷ xs) zero h = (x, refl)
arm_from-some (x ∷ xs) (suc i) h = arm_from-some xs i (omega arith)

arm_of-some : (xs : List Arm) (n : ℕ) → 0 < length xs → (a : Arm) × (arm_of xs n ≡ some a)
unfolding arm_of
arm_of-some [] n h = absurd (omega arith)
arm_of-some (x ∷ xs) n h = arm_from-some (x ∷ xs) ((n - 1) % length (x ∷ xs)) (mod-lt (n - 1) h)

-- The trials from this number on, each on the arm of its number.
abbrev pub Rotates : {E N : Type 0} → Arguments → ℕ → List (Trial E N) → Type 0
Rotates arguments number [] = Unit {0}
Rotates arguments number (t ∷ ts) =
    (arm_of (arms arguments) number ≡ some t.arm) × Rotates arguments (suc number) ts

-- How many of the latest trials opened nothing, `before` of them before these.
abbrev pub refusing : {E N : Type 0} → ℕ → List (Trial E N) → ℕ
refusing before [] = before
refusing before (t ∷ ts) = refusing (if opened t == 0 then before + 1 else 0) ts

-- None of these trials but the last brings the run of refusals to five.
abbrev pub Unstopped : {E N : Type 0} → ℕ → List (Trial E N) → Type 0
Unstopped before [] = Unit {0}
Unstopped before (t ∷ []) = Unit {0}
Unstopped before (t ∷ u ∷ ts) =
    ((if opened t == 0 then before + 1 else 0) < refusal_streak_limit)
    × Unstopped (if opened t == 0 then before + 1 else 0) (u ∷ ts)

pub Unstopped-more :
    {E N : Type 0} (before : ℕ) (t : Trial E N) (ts : List (Trial E N))
    → (if opened t == 0 then before + 1 else 0) < refusal_streak_limit
    → Unstopped (if opened t == 0 then before + 1 else 0) ts
    → Unstopped before (t ∷ ts)
Unstopped-more before t [] few rest = tt
Unstopped-more before t (u ∷ ts) few rest = (few, rest)

-- A run of at most `left` trials from this number on: all sound, in rotation, and cut short exactly
-- where the latest five opened nothing.
pub record IsRun {C E N : Type 0} (arguments : Arguments) (left number before : ℕ)
    (new : List (Trial E N)) (m : Measured C E N) : Type 0 where
  pub sound : All IsSound new
  pub rotates : Rotates arguments number new
  pub streak : m.refusing_streak ≡ refusing before new
  pub short : m.refusing_streak ≤ refusal_streak_limit
  pub unstopped : Unstopped before new
  pub fits : length new ≤ left
  pub cut : (length new ≡ left) ⊎ (m.refusing_streak ≡ refusal_streak_limit)

module _ {C W E N : Type 0} (net : Network C W E N) where
  pub measure_one-IsSound :
      (arguments : Arguments) (number : ℕ) (m : Measured C E N)
      → IsMeasurable arguments
      → (t : Trial E N) × (c : C) × (token : ℕ) × (measure_one net arguments number m
          ≡ some (keep_trial net m (t, c, token)))
        × (arm_of (arms arguments) number ≡ some t.arm)
        × IsSound t
  unfolding measure_one
  measure_one-IsSound arguments number m ok_args =
      let (arm, picked) = arm_of-some (arms arguments) number ok_args.configured in
      let (c, token, ready) =
        prepared net (settings_for arguments arm) arm.gap_secs m.client m.next_token in
      let (t, c', token', ran, same, sound) =
        run_trial-IsSound net (settings_for arguments arm) arm c token
          (settings_for-IsValid arguments arm ok_args) in
      (t, c', token', rw (picked, ready, ran, measure_one) refl, picked ∙ ap some (sym same), sound)
