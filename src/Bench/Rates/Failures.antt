-- ===== src/Bench/Rates/Failures.antt =====
-- src/bin/bench.rs: how the numbers reported of an arm hang together.
use lwd_mixnet_proxy.Common.{
  ℕ, zero, suc, ◌+◌, ◌≤◌, ◌<◌, ◌≡◌, refl, Bool, false, not, List, [], ◌∷◌, ◌==◌, ltb, if◌then◌else◌,
  length, All, arith,
}
use lwd_mixnet_proxy.Dial.{Round}
use lwd_mixnet_proxy.Bench.{Trial, Arm, answered, first_failed, first_round_failed}
use lwd_mixnet_proxy.Bench.Rotation.{Runs, IsSound}
use lwd_mixnet_proxy.Bench.Rates.{
  count_if, group_of, first_round_failures, visible_failures, failed_at, reached, failed,
}

abbrev one_if : Bool → ℕ
one_if b = if b then 1 else 0

module _ {E N : Type 0} where
  -- Whether a trial gave up after exactly this many rounds.
  abbrev pub gave_up_after : ℕ → Trial E N → Bool
  gave_up_after n trial = if answered trial then false else length trial.rounds == n

  round_by_round :
      (i : ℕ) (rs : List (Round E N)) (a : Bool)
      → Runs a rs
      → one_if (failed_at i rs)
        ≡ one_if (ltb (suc i) (length rs)) + one_if (if a then false else length rs == suc i)
  round_by_round i [] a h = absurd h
  round_by_round zero (r ∷ []) a h = ground arith
  round_by_round zero (r ∷ s ∷ rs) a h = ground arith
  round_by_round (suc i) (r ∷ []) a h = ground arith
  round_by_round (suc i) (r ∷ s ∷ rs) a h = ground (arith, round_by_round i (s ∷ rs) a h.1)

  -- The table of conditional rates, over trials that end with their first answer or give up.
  -- Those that failed in a round are those that gave up right after it and those that went on to
  -- the next: no trial is lost between two lines of the table or counted without having failed
  -- before.
  pub failed-reached :
      (index : ℕ) (group : List (Trial E N))
      → All IsSound group
      → failed index group ≡ reached (suc index) group + count_if (gave_up_after (suc index)) group
  unfolding failed reached
  failed-reached index [] sound = refl
  failed-reached index (t ∷ ts) (s, ss) =
      ground (arith, round_by_round index t.rounds (answered t) s, failed-reached index ts ss)

  first_of :
      (rs : List (Round E N)) (a : Bool) → Runs a rs → one_if (not a) ≤ one_if (failed_at 0 rs)
  first_of [] a h = absurd h
  first_of (r ∷ []) a h = ground arith
  first_of (r ∷ s ∷ rs) a h = ground arith

  first_same : (rs : List (Round E N)) → first_failed rs ≡ failed_at 0 rs
  first_same [] = refl
  first_same (r ∷ rs) = refl

  some_round : (rs : List (Round E N)) (a : Bool) → Runs a rs → 0 < length rs
  some_round [] a h = absurd h
  some_round (r ∷ rs) a h = omega arith

  group-IsSound :
      (arm : Arm) (trials : List (Trial E N))
      → All IsSound trials
      → All IsSound (group_of arm trials)
  unfolding group_of
  group-IsSound arm [] sound = tt
  group-IsSound arm (t ∷ ts) (s, ss) = grind (arith, group-IsSound arm ts ss)

  -- What is known of one group's headline numbers.
  pub record Ordered (group : List (Trial E N)) : Type 0 where
    pub visible : visible_failures group ≤ first_round_failures group
    pub first : first_round_failures group ≡ failed 0 group
    pub crude : failed 0 group ≤ reached 0 group
    pub every : reached 0 group ≡ length group

  group-Ordered : (group : List (Trial E N)) → All IsSound group → Ordered group
  unfolding visible_failures first_round_failures failed reached first_round_failed
  group-Ordered [] sound = record {
    visible = omega arith;
    first = refl;
    crude = omega arith;
    every = refl;
  }
  group-Ordered (t ∷ ts) (s, ss) =
      let rest = group-Ordered ts ss in
      let first = first_of t.rounds (answered t) s in
      let same = first_same t.rounds in
      let more = some_round t.rounds (answered t) s in
      record {
        visible = ground (arith, rest.visible);
        first = ground (arith, rest.first);
        crude = ground (arith, rest.crude);
        every = ground (arith, rest.every);
      }

  -- The headline numbers of an arm, over trials that end with their first answer or give up. The
  -- failures that a wallet would see are at most the failures of the first round, so that
  -- retrying never makes them more; these are the failures in the first line of the table of
  -- conditional rates, and all of the arm's trials reached that line.
  pub group_of-Ordered :
      (arm : Arm) (trials : List (Trial E N)) → All IsSound trials → Ordered (group_of arm trials)
  group_of-Ordered arm trials sound =
      group-Ordered (group_of arm trials) (group-IsSound arm trials sound)
