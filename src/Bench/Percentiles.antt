-- ===== src/Bench/Percentiles.antt =====
-- src/bin/bench.rs, `percentile` and `print_percentiles`. The product of a length and a fraction, and
-- its rounding, are floating point: `Nearest` is what they come to.
pub mod Order
pub mod Printed
use lwd_mixnet_proxy.Common.{
  ℕ, zero, suc, ◌-◌, ◌^◌, ◌≤◌, ◌<◌, ◌≡◌, Bool, true, false, List, [], ◌∷◌, leb, if◌then◌else◌,
  Option, none, some, length,
}

-- `(n as f64 * fraction).round() as usize`, for a fraction of so many hundredths. An `f64` is exact
-- up to 2^53, and rounding keeps the order and the integers.
pub record Nearest : Type 0 where
  pub nearest : ℕ → ℕ → ℕ
  pub nearest_below : (n f : ℕ) → n < 2 ^ 53 → f ≤ 100 → nearest n f ≤ n
  pub nearest_whole : (n : ℕ) → n < 2 ^ 53 → nearest n 100 ≡ n
  pub nearest_mono : (n f g : ℕ) → n < 2 ^ 53 → f ≤ g → nearest n f ≤ nearest n g

-- `sort_unstable`: equal numbers cannot be told apart, so that any sort will do.
abbrev pub insert_in_order : ℕ → List ℕ → List ℕ
insert_in_order x [] = x ∷ []
insert_in_order x (y ∷ ys) =
    let rest = insert_in_order x ys in if leb x y then x ∷ y ∷ ys else y ∷ rest

unfoldable pub sort : List ℕ → List ℕ
sort [] = []
sort (x ∷ xs) = insert_in_order x (sort xs)

-- `sorted[index]`, and `none` where that panics.
abbrev pub get_elem? : {A : Type 0} → List A → ℕ → Option A
get_elem? [] i = none
get_elem? (x ∷ xs) zero = some x
get_elem? (x ∷ xs) (suc i) = get_elem? xs i

module _ (float : Nearest) where
  unfoldable pub percentile : List ℕ → ℕ → Option ℕ
  unfolding sort
  percentile [] fraction = some 0
  percentile (x ∷ xs) fraction =
      get_elem? (sort (x ∷ xs)) (float.nearest (length (sort (x ∷ xs)) - 1) fraction)

  -- The four numbers of a line, if there are samples.
  unfoldable pub print_percentiles : List ℕ → List (Option ℕ)
  unfolding percentile
  print_percentiles [] = []
  print_percentiles (x ∷ xs) =
      percentile (x ∷ xs) 50
      ∷ percentile (x ∷ xs) 90
      ∷ percentile (x ∷ xs) 99
      ∷ percentile (x ∷ xs) 100
      ∷ []
