-- ===== src/Bench/Report/Groups.antt =====
-- src/bin/bench.rs, `report`: every trial of a run is reported once.
use mathlib.Core.Path.{subst}
use lwd_mixnet_proxy.Common.{
  ℕ, zero, suc, ◌+◌, ◌-◌, ◌%◌, ◌<◌, ◌≡◌, refl, Bool, true, List, [], ◌∷◌, Option, none, some, map,
  length, sum, arith,
}
use lwd_mixnet_proxy.Bench.{Arm, Arguments, Trial, arms, arm_from, arm_of}
use lwd_mixnet_proxy.Bench.Rates.{count_if, gap_eq, arm_eq, group_of}
use lwd_mixnet_proxy.Bench.Rotation.{Rotates}

-- No configuration is asked for twice.
abbrev pub IsDistinct : List Arm → Type 0
IsDistinct [] = Unit {0}
IsDistinct (a ∷ rest) = (count_if (λ b. arm_eq a b) rest ≡ 0) × IsDistinct rest

gap_eq_self : (g : Option ℕ) → gap_eq g g ≡ true
gap_eq_self none = refl
gap_eq_self (some a) = ground arith

gap_eq_sym : (g h : Option ℕ) → gap_eq g h ≡ true → gap_eq h g ≡ true
gap_eq_sym none none e = refl
gap_eq_sym none (some b) e = e
gap_eq_sym (some a) none e = e
gap_eq_sym (some a) (some b) e = ground arith

arm_eq_self : (a : Arm) → arm_eq a a ≡ true
unfolding arm_eq
arm_eq_self a = ground (arith, gap_eq_self a.gap_secs)

arm_eq_sym : (a b : Arm) → arm_eq a b ≡ true → arm_eq b a ≡ true
unfolding arm_eq
arm_eq_sym a b h = ground (arith, gap_eq_sym a.gap_secs b.gap_secs)

count_if-pos :
    (P : Arm → Bool) (xs : List Arm) (i : ℕ) (a : Arm)
    → arm_from xs i ≡ some a
    → P a ≡ true
    → 0 < count_if P xs
count_if-pos P [] i a e h = cc
count_if-pos P (x ∷ xs) zero a e h = ground arith
count_if-pos P (x ∷ xs) (suc i) a e h = ground (arith, count_if-pos P xs i a e h)

once_head :
    (x : Arm) (xs : List Arm) → IsDistinct (x ∷ xs) → count_if (λ b. arm_eq x b) (x ∷ xs) ≡ 1
once_head x xs d = ground (arith, arm_eq_self x)

IsDistinct-once :
    (xs : List Arm) (i : ℕ) (a : Arm)
    → IsDistinct xs
    → arm_from xs i ≡ some a
    → count_if (λ b. arm_eq a b) xs ≡ 1
IsDistinct-once [] i a d e = cc
IsDistinct-once (x ∷ xs) zero a d e =
    subst (λ y. count_if (λ b. arm_eq y b) (x ∷ xs) ≡ 1) (cc e) (once_head x xs d)
IsDistinct-once (x ∷ xs) (suc i) a d e =
    ground
      (arith, IsDistinct-once xs i a d.1 e, count_if-pos (λ b. arm_eq x b) xs i a e, arm_eq_sym a x)

picked_from :
    (xs : List Arm) (number : ℕ) (a : Arm)
    → arm_of xs number ≡ some a
    → (i : ℕ) × (arm_from xs i ≡ some a)
unfolding arm_of
picked_from [] number a e = cc
picked_from (x ∷ xs) number a e = ((number - 1) % length (x ∷ xs), e)

group_sizes-nil :
    (E N : Type 0) (xs : List Arm)
    → sum (map (λ arm. length (group_of {E = E} {N = N} arm [])) xs) ≡ 0
unfolding group_of
group_sizes-nil E N [] = refl
group_sizes-nil E N (a ∷ rest) = omega (arith, group_sizes-nil E N rest)

module _ {E N : Type 0} where
  abbrev pub group_sizes : List Arm → List (Trial E N) → ℕ
  group_sizes configured trials = sum (map (λ arm. length (group_of arm trials)) configured)

  group_sizes-cons :
      (rest : List Arm) (t : Trial E N) (ts : List (Trial E N))
      → group_sizes rest (t ∷ ts) ≡ count_if (λ b. arm_eq t.arm b) rest + group_sizes rest ts
  unfolding group_of
  group_sizes-cons [] t ts = omega arith
  group_sizes-cons (a ∷ rest) t ts = ground (arith, group_sizes-cons rest t ts)

  -- Where no configuration is asked for twice, the groups that a run's trials are reported in hold
  -- each of these trials once: their sizes add up to the number of trials.
  pub group_sizes-Rotates :
      (arguments : Arguments) (number : ℕ) (trials : List (Trial E N))
      → IsDistinct (arms arguments)
      → Rotates arguments number trials
      → group_sizes (arms arguments) trials ≡ length trials
  group_sizes-Rotates arguments number [] d r = group_sizes-nil E N (arms arguments)
  group_sizes-Rotates arguments number (t ∷ ts) d (at, r) =
      let (i, e) = picked_from (arms arguments) number t.arm at in
      omega (
        arith,
        group_sizes-cons (arms arguments) t ts,
        IsDistinct-once (arms arguments) i t.arm d e,
        group_sizes-Rotates arguments (suc number) ts d r,
      )
