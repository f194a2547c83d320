-- ===== src/Bench/Percentiles/Order.antt =====
-- src/bin/bench.rs, `percentile`: which of the samples it is.
use lwd_mixnet_proxy.Common.{
  ℕ, zero, suc, ◌+◌, ◌-◌, ◌^◌, ◌≤◌, ◌<◌, ◌≡◌, refl, ap, ◌∙◌, Bool, List, [], ◌∷◌, leb, ◌==◌, some,
  length, All, arith,
}
use lwd_mixnet_proxy.Bench.Rates.{count_if}
use lwd_mixnet_proxy.Bench.Percentiles.{Nearest, insert_in_order, sort, get_elem?, percentile}

abbrev pub Ascending : List ℕ → Type 0
Ascending [] = Unit {0}
Ascending (x ∷ xs) = All (λ y. x ≤ y) xs × Ascending xs

All-le : (x y : ℕ) (xs : List ℕ) → x ≤ y → All (λ z. y ≤ z) xs → All (λ z. x ≤ z) xs
All-le x y [] h a = tt
All-le x y (z ∷ zs) h a = (omega (arith, a.0), All-le x y zs h a.1)

insert_in_order-All :
    (b x : ℕ) (xs : List ℕ) → b ≤ x → All (λ z. b ≤ z) xs → All (λ z. b ≤ z) (insert_in_order x xs)
insert_in_order-All b x [] h a = (h, tt)
insert_in_order-All b x (y ∷ ys) h a = ground (arith, insert_in_order-All b x ys)

insert_in_order-Ascending : (x : ℕ) (xs : List ℕ) → Ascending xs → Ascending (insert_in_order x xs)
insert_in_order-Ascending x [] a = (tt, tt)
insert_in_order-Ascending x (y ∷ ys) a =
    ground (arith, insert_in_order-Ascending x ys, All-le x y ys, insert_in_order-All y x ys)

pub sort-Ascending : (xs : List ℕ) → Ascending (sort xs)
unfolding sort
sort-Ascending [] = tt
sort-Ascending (x ∷ xs) = insert_in_order-Ascending x (sort xs) (sort-Ascending xs)

count_if-insert_in_order :
    (P : ℕ → Bool) (x : ℕ) (xs : List ℕ) → count_if P (insert_in_order x xs) ≡ count_if P (x ∷ xs)
count_if-insert_in_order P x [] = refl
count_if-insert_in_order P x (y ∷ ys) = ground (arith, count_if-insert_in_order P x ys)

count_if-sort : (P : ℕ → Bool) (xs : List ℕ) → count_if P (sort xs) ≡ count_if P xs
unfolding sort
count_if-sort P [] = refl
count_if-sort P (x ∷ xs) =
    ground (arith, count_if-insert_in_order P x (sort xs), count_if-sort P xs)

length-insert_in_order : (x : ℕ) (xs : List ℕ) → length (insert_in_order x xs) ≡ length xs + 1
length-insert_in_order x [] = omega arith
length-insert_in_order x (y ∷ ys) = ground (arith, length-insert_in_order x ys)

pub length-sort : (xs : List ℕ) → length (sort xs) ≡ length xs
unfolding sort
length-sort [] = refl
length-sort (x ∷ xs) = omega (arith, length-insert_in_order x (sort xs), length-sort xs)

-- This value has at least so many samples up to it, and at most so many before it.
pub record HasRank (i v : ℕ) (xs : List ℕ) : Type 0 where
  pub sample : 0 < count_if (λ x. x == v) xs
  pub up_to : i < count_if (λ x. leb x v) xs
  pub from : length xs ≤ i + count_if (λ x. leb v x) xs

least_count : (v : ℕ) (xs : List ℕ) → All (λ x. v ≤ x) xs → count_if (λ x. leb v x) xs ≡ length xs
least_count v [] a = refl
least_count v (x ∷ xs) a = ground (arith, least_count v xs a.1)

pub get_elem?-le : (b i v : ℕ) (xs : List ℕ) → All (λ x. b ≤ x) xs → get_elem? xs i ≡ some v → b ≤ v
get_elem?-le b i v [] a e = cc
get_elem?-le b zero v (x ∷ xs) a e = ground arith
get_elem?-le b (suc i) v (x ∷ xs) a e = get_elem?-le b i v xs a.1 e

Ascending-HasRank :
    (xs : List ℕ) (i v : ℕ) → Ascending xs → get_elem? xs i ≡ some v → HasRank i v xs
Ascending-HasRank [] i v a e = cc
Ascending-HasRank (x ∷ xs) zero v a e =
    let same : x ≡ v = cc e in
    rw (← same) (record {
      sample = ground arith;
      up_to = ground arith;
      from = ground (arith, least_count x xs a.0);
    })
Ascending-HasRank (x ∷ xs) (suc i) v a e =
    let rest = Ascending-HasRank xs i v a.1 e in
    let le = get_elem?-le x i v xs a.0 e in
    record {
      sample = ground (arith, rest.sample);
      up_to = ground (arith, rest.up_to);
      from = ground (arith, rest.from);
    }

get_elem?-some : (xs : List ℕ) (i : ℕ) → i < length xs → (v : ℕ) × (get_elem? xs i ≡ some v)
get_elem?-some [] i h = absurd (omega arith)
get_elem?-some (x ∷ xs) zero h = (x, refl)
get_elem?-some (x ∷ xs) (suc i) h = get_elem?-some xs i (omega arith)

HasRank-sort : (i v : ℕ) (xs : List ℕ) → HasRank i v (sort xs) → HasRank i v xs
HasRank-sort i v xs r = record {
  sample = omega (arith, r.sample, count_if-sort (λ x. x == v) xs);
  up_to = omega (arith, r.up_to, count_if-sort (λ x. leb x v) xs);
  from = omega (arith, r.from, count_if-sort (λ x. leb v x) xs, length-sort xs);
}

ranked_at :
    (xs : List ℕ) (i : ℕ)
    → i < length xs
    → (v : ℕ) × (get_elem? (sort xs) i ≡ some v) × HasRank i v xs
ranked_at xs i h =
    let (v, found) = get_elem?-some (sort xs) i (omega (arith, h, length-sort xs)) in
    (v, found, HasRank-sort i v xs (Ascending-HasRank (sort xs) i v (sort-Ascending xs) found))

pub percentile-get_elem? :
    (float : Nearest) (x : ℕ) (xs : List ℕ) (fraction : ℕ)
    → percentile float (x ∷ xs) fraction
      ≡ get_elem? (sort (x ∷ xs)) (float.nearest (length (x ∷ xs) - 1) fraction)
unfolding percentile
percentile-get_elem? float x xs fraction =
    ap (λ n. get_elem? (sort (x ∷ xs)) (float.nearest (n - 1) fraction)) (length-sort (x ∷ xs))

count_if-le : (P : ℕ → Bool) (xs : List ℕ) → count_if P xs ≤ length xs
count_if-le P [] = omega arith
count_if-le P (x ∷ xs) = ground (arith, count_if-le P xs)

-- A percentile of 1 to 2^53 samples never panics. It is one of the samples, with as many samples up
-- to it, and as many from it on, as its index in the sorted samples says; and the 100th is the
-- largest of them.
pub percentile-HasRank :
    (float : Nearest) (samples : List ℕ) (fraction : ℕ)
    → 0 < length samples
    → length samples ≤ 2 ^ 53
    → fraction ≤ 100
    → (v : ℕ) × (percentile float samples fraction ≡ some v)
      × HasRank (float.nearest (length samples - 1) fraction) v samples
      × (fraction ≡ 100 → count_if (λ x. leb x v) samples ≡ length samples)
percentile-HasRank float [] fraction some_one few part = absurd (omega arith)
percentile-HasRank float (x ∷ xs) fraction some_one few part =
    let n = length (x ∷ xs) - 1 in
    let i = float.nearest n fraction in
    let room : n < 2 ^ 53 = omega arith in
    let below = float.nearest_below n fraction room part in
    let (v, found, rank) = ranked_at (x ∷ xs) i (omega (arith, below)) in
    (
      v,
      percentile-get_elem? float x xs fraction ∙ found,
      rank,
      λ whole. omega (
        arith,
        rank.up_to,
        float.nearest_whole n room,
        ap (λ f. float.nearest n f) whole,
        count_if-le (λ x. leb x v) (x ∷ xs),
      ),
    )
