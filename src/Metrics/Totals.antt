-- ===== src/Metrics/Totals.antt =====
-- src/metrics.rs: what a metric comes to over a list of calls, its labels taken together.
use lwd_mixnet_proxy.Common.{
  ℕ, ◌+◌, ◌≡◌, refl, Bool, List, [], ◌∷◌, ◌++◌, if◌then◌else◌, length, arith,
}
use lwd_mixnet_proxy.Dial.{Round, Discarded}
use lwd_mixnet_proxy.Metrics.{Call, inc, inc_by, dec, set, observe, inc_label, inc_label_by}
use lwd_mixnet_proxy.Metrics.Client.{
  ClientMetric, first_round_failures, streams_opened, streams_discarded, rounds, round_calls,
  discarded_calls, dialled, first_round_failed,
}

module _ {M : Type 0} (is : M → Bool) where
  -- By how much a call raises the metrics that `is` tells.
  abbrev pub raised : Call M → ℕ
  raised (inc m) = if is m then 1 else 0
  raised (inc_by m n) = if is m then n else 0
  raised (dec m) = 0
  raised (set m n) = 0
  raised (observe m n) = if is m then 1 else 0
  raised (inc_label m label) = if is m then 1 else 0
  raised (inc_label_by m label n) = if is m then n else 0

  abbrev pub lowered : Call M → ℕ
  lowered (dec m) = if is m then 1 else 0
  lowered _ = 0

  -- Counter increments, or observations of a histogram.
  unfoldable pub total : List (Call M) → ℕ
  total [] = 0
  total (c ∷ cs) = raised c + total cs

  -- Decrements of a gauge.
  unfoldable pub drops : List (Call M) → ℕ
  drops [] = 0
  drops (c ∷ cs) = lowered c + drops cs

  pub total-append : (cs ds : List (Call M)) → total (cs ++ ds) ≡ total cs + total ds
  unfolding total
  total-append [] ds = omega arith
  total-append (c ∷ cs) ds = omega (arith, total-append cs ds)

  pub drops-append : (cs ds : List (Call M)) → drops (cs ++ ds) ≡ drops cs + drops ds
  unfolding drops
  drops-append [] ds = omega arith
  drops-append (c ∷ cs) ds = omega (arith, drops-append cs ds)

module _ {E N : Type 0} where
  abbrev pub opened_in : List (Round E N) → ℕ
  opened_in [] = 0
  opened_in (r ∷ rs) = r.opened + opened_in rs

  abbrev pub discarded_in : List (Round E N) → ℕ
  discarded_in [] = 0
  discarded_in (r ∷ rs) = length r.discarded + discarded_in rs

module _ {E N : Type 0} (is : ClientMetric → Bool) where
  total-discarded_calls :
      (ds : List (Discarded E N))
      → total is (discarded_calls ds) ≡ (if is streams_discarded then length ds else 0)
  unfolding total discarded_calls
  total-discarded_calls [] = ground arith
  total-discarded_calls (d ∷ ds) = ground (arith, total-discarded_calls ds)

  drops-discarded_calls : (ds : List (Discarded E N)) → drops is (discarded_calls ds) ≡ 0
  unfolding drops discarded_calls
  drops-discarded_calls [] = refl
  drops-discarded_calls (d ∷ ds) = omega (arith, drops-discarded_calls ds)

  total-round_calls :
      (rs : List (Round E N))
      → total is (round_calls rs)
        ≡ (if is streams_opened then opened_in rs else 0)
          + (if is streams_discarded then discarded_in rs else 0)
  unfolding total round_calls
  total-round_calls [] = ground arith
  total-round_calls (r ∷ rs) = ground (
    arith,
    total-append is (discarded_calls r.discarded) (round_calls rs),
    total-discarded_calls r.discarded,
    total-round_calls rs,
  )

  drops-round_calls : (rs : List (Round E N)) → drops is (round_calls rs) ≡ 0
  unfolding drops round_calls
  drops-round_calls [] = refl
  drops-round_calls (r ∷ rs) = omega (
    arith,
    drops-append is (discarded_calls r.discarded) (round_calls rs),
    drops-discarded_calls r.discarded,
    drops-round_calls rs,
  )

  -- What `dialled` adds to each counter.
  pub total-dialled :
      (rs : List (Round E N))
      → total is (dialled rs)
        ≡ (if is rounds then length rs else 0)
          + ((if is streams_opened then opened_in rs else 0)
              + (if is streams_discarded then discarded_in rs else 0))
          + (if is first_round_failures then (if first_round_failed rs then 1 else 0) else 0)
  unfolding dialled total
  total-dialled rs = ground (
    arith,
    total-append is (round_calls rs)
        (if first_round_failed rs then inc first_round_failures ∷ [] else []),
    total-round_calls rs,
  )

  pub drops-dialled : (rs : List (Round E N)) → drops is (dialled rs) ≡ 0
  unfolding dialled drops
  drops-dialled rs = ground (
    arith,
    drops-append is (round_calls rs)
        (if first_round_failed rs then inc first_round_failures ∷ [] else []),
    drops-round_calls rs,
  )
