-- ===== src/Bench/Rates.antt =====
-- src/bin/bench.rs, `report_arm` and `conditional_rates`: the numbers that are printed of the trials
-- of one arm. The rates are their quotients, which are floating point and not modelled.
pub mod Failures
use lwd_mixnet_proxy.Common.{
  ℕ, zero, suc, ◌+◌, ◌/◌, Bool, true, false, not, ◌&&◌, List, [], ◌∷◌, ◌==◌, ltb, if◌then◌else◌,
  Option, none, some, map, length, max, sum,
}
use lwd_mixnet_proxy.Dial.{Round}
use lwd_mixnet_proxy.Bench.{Arm, Trial, answered, first_round_failed, opened, trial_cancelled}

-- `filter(matching).count()`.
abbrev pub count_if : {A : Type 0} → (A → Bool) → List A → ℕ
count_if matching [] = 0
count_if matching (x ∷ xs) =
    let rest = count_if matching xs in if matching x then suc rest else rest

abbrev pub select : {A : Type 0} → (A → Bool) → List A → List A
select matching [] = []
select matching (x ∷ xs) = let rest = select matching xs in if matching x then x ∷ rest else rest

abbrev pub gap_eq : Option ℕ → Option ℕ → Bool
gap_eq none none = true
gap_eq (some a) (some b) = a == b
gap_eq _ _ = false

-- The derived `==` of `Arm`.
unfoldable pub arm_eq : Arm → Arm → Bool
arm_eq a b = a.concurrency == b.concurrency && gap_eq a.gap_secs b.gap_secs

module _ {E N : Type 0} where
  -- The trials of one arm, as `report` groups them.
  unfoldable pub group_of : Arm → List (Trial E N) → List (Trial E N)
  unfolding arm_eq
  group_of arm trials = select (λ trial. arm_eq trial.arm arm) trials

  unfoldable pub first_round_failures : List (Trial E N) → ℕ
  unfolding first_round_failed
  first_round_failures group = count_if first_round_failed group

  unfoldable pub visible_failures : List (Trial E N) → ℕ
  unfolding answered
  visible_failures group = count_if (λ trial. not (answered trial)) group

  unfoldable pub streams_opened : List (Trial E N) → ℕ
  streams_opened group = sum (map opened group)

  unfoldable pub streams_cancelled : List (Trial E N) → ℕ
  streams_cancelled group = sum (map trial_cancelled group)

  unfoldable pub deepest : List (Trial E N) → ℕ
  deepest [] = 0
  deepest (trial ∷ trials) = max (length trial.rounds) (deepest trials)

  -- Whether the round at this index, from 0, is there and went unanswered.
  abbrev pub failed_at : ℕ → List (Round E N) → Bool
  failed_at index [] = false
  failed_at zero (round ∷ rounds) = not round.answered
  failed_at (suc index) (round ∷ rounds) = failed_at index rounds

  unfoldable pub reached : ℕ → List (Trial E N) → ℕ
  reached index group = count_if (λ trial. ltb index (length trial.rounds)) group

  unfoldable pub failed : ℕ → List (Trial E N) → ℕ
  failed index group = count_if (λ trial. failed_at index trial.rounds) group

  -- The lines of the table: the round, from 1, how many reached it and how many failed in it.
  abbrev rows_from : ℕ → ℕ → List (Trial E N) → List (ℕ × ℕ × ℕ)
  rows_from zero index group = []
  rows_from (suc left) index group =
      (index + 1, reached index group, failed index group) ∷ rows_from left (suc index) group

  unfoldable pub conditional_rates : List (Trial E N) → List (ℕ × ℕ × ℕ)
  unfolding deepest reached failed
  conditional_rates group = if ltb (deepest group) 2 then [] else rows_from (deepest group) 0 group

  -- In milliseconds, as `as_millis` cuts them.
  abbrev times_of : List (Trial E N) → List ℕ
  times_of group = map (λ (trial : Trial E N). trial.total / 1_000_000) group

  unfoldable pub establishment : List (Trial E N) → List ℕ
  unfolding answered
  establishment group = times_of (select answered group)
