-- ===== src/Bench/Percentiles/Printed.antt =====
-- src/bin/bench.rs, `print_percentiles`: the four numbers of a line.
use lwd_mixnet_proxy.Common.{
  ℕ, zero, suc, ◌-◌, ◌^◌, ◌≤◌, ◌<◌, ◌≡◌, refl, sym, ◌∙◌, List, [], ◌∷◌, leb, some, length, arith,
}
use lwd_mixnet_proxy.Bench.Rates.{count_if}
use lwd_mixnet_proxy.Bench.Percentiles.{Nearest, sort, get_elem?, percentile, print_percentiles}
use lwd_mixnet_proxy.Bench.Percentiles.Order.{
  Ascending, sort-Ascending, get_elem?-le, HasRank, percentile-get_elem?, percentile-HasRank,
}

get_elem?_mono :
    (xs : List ℕ) (i j v w : ℕ)
    → Ascending xs
    → i ≤ j
    → get_elem? xs i ≡ some v
    → get_elem? xs j ≡ some w
    → v ≤ w
get_elem?_mono [] i j v w a le e f = cc
get_elem?_mono (x ∷ xs) zero zero v w a le e f = ground arith
get_elem?_mono (x ∷ xs) zero (suc j) v w a le e f =
    let same : x ≡ v = cc e in omega (arith, same, get_elem?-le x j w xs a.0 f)
get_elem?_mono (x ∷ xs) (suc i) zero v w a le e f = absurd (omega arith)
get_elem?_mono (x ∷ xs) (suc i) (suc j) v w a le e f =
    get_elem?_mono xs i j v w a.1 (omega arith) e f

percentile_mono :
    (float : Nearest) (samples : List ℕ) (f g v w : ℕ)
    → 0 < length samples
    → length samples ≤ 2 ^ 53
    → f ≤ g
    → percentile float samples f ≡ some v
    → percentile float samples g ≡ some w
    → v ≤ w
percentile_mono float [] f g v w some_one few le e h = absurd (omega arith)
percentile_mono float (x ∷ xs) f g v w some_one few le e h =
    let n = length (x ∷ xs) - 1 in
    get_elem?_mono (sort (x ∷ xs)) (float.nearest n f) (float.nearest n g) v w
      (sort-Ascending (x ∷ xs)) (float.nearest_mono n f g (omega arith) le)
      (sym (percentile-get_elem? float x xs f) ∙ e) (sym (percentile-get_elem? float x xs g) ∙ h)

-- The median, the 90th and the 99th percentile and the largest.
pub record Printed (float : Nearest) (samples : List ℕ) : Type 0 where
  pub p50 : ℕ
  pub p90 : ℕ
  pub p99 : ℕ
  pub largest : ℕ
  pub line : print_percentiles float samples ≡ some p50 ∷ some p90 ∷ some p99 ∷ some largest ∷ []
  pub ordered : (p50 ≤ p90) × (p90 ≤ p99) × (p99 ≤ largest)
  pub ranks :
      HasRank (float.nearest (length samples - 1) 50) p50 samples
      × HasRank (float.nearest (length samples - 1) 90) p90 samples
      × HasRank (float.nearest (length samples - 1) 99) p99 samples
  pub greatest : count_if (λ x. leb x largest) samples ≡ length samples

print_percentiles-percentile :
    (float : Nearest) (samples : List ℕ) (a b c d : ℕ)
    → 0 < length samples
    → percentile float samples 50 ≡ some a
    → percentile float samples 90 ≡ some b
    → percentile float samples 99 ≡ some c
    → percentile float samples 100 ≡ some d
    → print_percentiles float samples ≡ some a ∷ some b ∷ some c ∷ some d ∷ []
unfolding print_percentiles
print_percentiles-percentile float [] a b c d some_one p q r s = absurd (omega arith)
print_percentiles-percentile float (x ∷ xs) a b c d some_one p q r s = cc

-- A line of percentiles of 1 to 2^53 samples never panics. Its four numbers are samples and ascend:
-- each of the first three has as many samples up to it, and as many from it on, as its index in the
-- sorted samples says, and the last is the largest of all.
pub print_percentiles-Printed :
    (float : Nearest) (samples : List ℕ)
    → 0 < length samples
    → length samples ≤ 2 ^ 53
    → Printed float samples
print_percentiles-Printed float samples some_one few =
    let at = λ (f : ℕ) (h : f ≤ 100). percentile-HasRank float samples f some_one few h in
    let (a, p, i, top) = at 50 (omega arith) in
    let (b, q, j, top) = at 90 (omega arith) in
    let (c, r, k, top) = at 99 (omega arith) in
    let (d, s, l, whole) = at 100 (omega arith) in
    record {
      p50 = a;
      p90 = b;
      p99 = c;
      largest = d;
      line = print_percentiles-percentile float samples a b c d some_one p q r s;
      ordered = (
        percentile_mono float samples 50 90 a b some_one few (omega arith) p q,
        percentile_mono float samples 90 99 b c some_one few (omega arith) q r,
        percentile_mono float samples 99 100 c d some_one few (omega arith) r s,
      );
      ranks = (i, j, k);
      greatest = whole refl;
    }
