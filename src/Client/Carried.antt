-- ===== src/Client/Carried.antt =====
-- src/bin/client.rs, `carry`: what one connection, and any number of them, add to the metrics.
use lwd_mixnet_proxy.Common.{
  ℕ, ◌+◌, ◌≤◌, ◌<◌, ◌≡◌, refl, ◌⊎◌, inl, inr, Bool, true, false, List, [], ◌∷◌, ◌++◌, ◌==◌,
  if◌then◌else◌, Option, none, some, Result, ok, err, length, arith,
}
use lwd_mixnet_proxy.Dial.{Round, GaveUp, attempts_of}
use lwd_mixnet_proxy.Dial.Run.{Network, Dialled, DialEnd, dial}
use lwd_mixnet_proxy.Dial.Rounds.{one_if}
use lwd_mixnet_proxy.Dial.Accounting.{IsValid}
use lwd_mixnet_proxy.Dial.Budget.{Unanswered, Spent, dial-Spent}
use lwd_mixnet_proxy.Splice.{Ended, Transfer}
use lwd_mixnet_proxy.Splice.Loop.{Ready}
use lwd_mixnet_proxy.Metrics.{observe, inc}
use lwd_mixnet_proxy.Metrics.Client.{
  ClientMetric, Calls, connections, in_flight, unestablished, failed_in_a_row, first_round_failures,
  streams_opened, streams_discarded, rounds, establishment, ended, bytes, dialled,
  first_round_failed, established, gave_up, finished, in_flight_dropped, connection_accepted,
}
use lwd_mixnet_proxy.Metrics.Totals.{
  total, drops, total-append, drops-append, total-dialled, drops-dialled, opened_in, discarded_in,
}
use lwd_mixnet_proxy.Client.{
  Carrying, Process, settle_dial, carry_on, carry_dialled, carry, end_calls,
}

abbrev number : ClientMetric → ℕ
number connections = 0
number in_flight = 1
number unestablished = 2
number failed_in_a_row = 3
number first_round_failures = 4
number streams_opened = 5
number streams_discarded = 6
number rounds = 7
number establishment = 8
number ended = 9
number bytes = 10

-- Whether a call is on this metric.
abbrev pub is : ClientMetric → ClientMetric → Bool
is m k = number m == number k

-- A counter's value, or how often a gauge was raised, after these calls.
abbrev pub counted : ClientMetric → Calls → ℕ
counted m = total (is m)

module _ {E N : Type 0} where
  pub total-established :
      (m : ClientMetric) (rs : List (Round E N)) (waited : ℕ)
      → counted m (established rs waited)
        ≡ counted m (dialled rs) + (if is m establishment then 1 else 0)
  unfolding established total
  total-established m rs waited =
      ground (arith, total-append (is m) (dialled rs) (observe establishment waited ∷ []))

  pub total-gave_up :
      (m : ClientMetric) (rs : List (Round E N))
      → counted m (gave_up rs) ≡ counted m (dialled rs) + (if is m unestablished then 1 else 0)
  unfolding gave_up total
  total-gave_up m rs = ground (arith, total-append (is m) (dialled rs) (inc unestablished ∷ []))

  pub drops-established :
      (m : ClientMetric) (rs : List (Round E N)) (waited : ℕ)
      → drops (is m) (established rs waited) ≡ 0
  unfolding established drops
  drops-established m rs waited = omega (
    arith,
    drops-append (is m) (dialled rs) (observe establishment waited ∷ []),
    drops-dialled (is m) rs,
  )

  pub drops-gave_up : (m : ClientMetric) (rs : List (Round E N)) → drops (is m) (gave_up rs) ≡ 0
  unfolding gave_up drops
  drops-gave_up m rs =
      omega
        (arith, drops-append (is m) (dialled rs) (inc unestablished ∷ []), drops-dialled (is m) rs)

  -- A round that has attempted something and went unanswered counts as a failed first round.
  pub failed_first :
      (rs : List (Round E N)) → Unanswered rs → 0 < attempts_of rs → first_round_failed rs ≡ true
  unfolding first_round_failed attempts_of
  failed_first [] un pos = absurd (omega arith)
  failed_first (r ∷ rs) un pos = rw un.0

-- What one connection adds to the three counters that the two rates are made of.
pub record Rates (before after : Calls) (gave : Bool) : Type 0 where
  pub failed_first : Bool
  pub accepted : counted connections after ≡ counted connections before + 1
  pub crude :
      counted first_round_failures after ≡ counted first_round_failures before + one_if failed_first
  pub visible : counted unestablished after ≡ counted unestablished before + one_if gave
  pub ordered : one_if gave ≤ one_if failed_first

abbrev pub gave_up? : {A B : Type 0} → Result A B → Bool
gave_up? (ok _) = false
gave_up? (err _) = true

pub counted_from :
    (m : ClientMetric) (cs ds tail : Calls)
    → counted m ((cs ++ (connection_accepted ++ ds)) ++ tail)
      ≡ counted m cs
        + (if is m connections then 1 else 0)
        + (if is m in_flight then 1 else 0)
        + counted m ds
        + counted m tail
unfolding connection_accepted total
counted_from m cs ds tail = omega (
  arith,
  total-append (is m) (cs ++ (connection_accepted ++ ds)) tail,
  total-append (is m) cs (connection_accepted ++ ds),
)

pub drops_from :
    (m : ClientMetric) (cs ds tail : Calls)
    → drops (is m) ((cs ++ (connection_accepted ++ ds)) ++ tail)
      ≡ drops (is m) cs + drops (is m) ds + drops (is m) tail
unfolding connection_accepted drops
drops_from m cs ds tail = omega (
  arith,
  drops-append (is m) (cs ++ (connection_accepted ++ ds)) tail,
  drops-append (is m) cs (connection_accepted ++ ds),
)

module _ {C W E N : Type 0} (net : Network C W E N) where
  -- The tail of `carry` adds nothing to the three.
  end_calls_add :
      (m : ClientMetric) (o : Option (Transfer × Ended E))
      → ((m ≡ connections) ⊎ (m ≡ first_round_failures)) ⊎ (m ≡ unestablished)
      → counted m (end_calls net o) ≡ 0
  unfolding finished in_flight_dropped total
  end_calls_add m none h = refl
  end_calls_add m (some (t, e)) h = ground arith

  Rates-answered :
      (cs : Calls) (rs : List (Round E N)) (waited : ℕ) (o : Option (Transfer × Ended E))
      → Rates cs ((cs ++ (connection_accepted ++ established rs waited)) ++ end_calls net o) false
  Rates-answered cs rs waited o = record {
    failed_first = first_round_failed rs;
    accepted = omega (arith, sums connections (inl (inl refl)));
    crude = omega (arith, sums first_round_failures (inl (inr refl)));
    visible = omega (arith, sums unestablished (inr refl));
    ordered = omega arith;
  }
    where
      sums :
          (m : ClientMetric)
          → ((m ≡ connections) ⊎ (m ≡ first_round_failures)) ⊎ (m ≡ unestablished)
          → counted m ((cs ++ (connection_accepted ++ established rs waited)) ++ end_calls net o)
            ≡ counted m cs
              + ((if is m connections then 1 else 0)
                  + (if is m first_round_failures then one_if (first_round_failed rs) else 0))
      sums m h = ground (
        arith,
        counted_from m cs (established rs waited) (end_calls net o),
        end_calls_add m o h,
        total-established m rs waited,
        total-dialled (is m) rs,
      )

  -- The guard's drop adds nothing to the three either.
  pub dropped_add : (m : ClientMetric) → counted m in_flight_dropped ≡ 0
  unfolding in_flight_dropped total
  dropped_add m = refl

  Rates-gave_up :
      (cs : Calls) (rs : List (Round E N))
      → first_round_failed rs ≡ true
      → Rates cs ((cs ++ (connection_accepted ++ gave_up rs)) ++ in_flight_dropped) true
  Rates-gave_up cs rs failed = record {
    failed_first = true;
    accepted = omega (arith, sums connections);
    crude = omega (arith, sums first_round_failures);
    visible = omega (arith, sums unestablished);
    ordered = omega arith;
  }
    where
      sums :
          (m : ClientMetric)
          → counted m ((cs ++ (connection_accepted ++ gave_up rs)) ++ in_flight_dropped)
            ≡ counted m cs
              + ((if is m connections then 1 else 0)
                  + (if is m in_flight then 1 else 0)
                  + (if is m rounds then length rs else 0)
                  + (if is m streams_opened then opened_in rs else 0)
                  + (if is m streams_discarded then discarded_in rs else 0)
                  + (if is m first_round_failures then 1 else 0)
                  + (if is m unestablished then 1 else 0))
      sums m = ground (
        arith,
        counted_from m cs (gave_up rs) in_flight_dropped,
        dropped_add m,
        total-gave_up m rs,
        total-dialled (is m) rs,
      )

  carry_on-Rates :
      (carrying : Carrying) (traffic : W → List (ℕ × Ready E)) (accepted : ℕ) (p : Process C)
      (end : DialEnd C W E N) (r : Result (GaveUp E N) (Dialled W E N)) (concurrency remaining : ℕ)
      → 0 < remaining
      → Spent concurrency remaining [] r
      → Rates p.calls
          (carry_on net carrying traffic (settle_dial net carrying accepted p end r) r).calls
          (gave_up? r)
  unfolding carry_on settle_dial
  carry_on-Rates carrying traffic accepted p end (ok d) concurrency remaining pos spent =
      Rates-answered p.calls d.rounds _ _
  carry_on-Rates carrying traffic accepted p end (err g) concurrency remaining pos spent =
      let (ran, same, un, tot, lo, hi) = spent in
      Rates-gave_up p.calls g.rounds (rw same (failed_first ran un (omega (arith, tot))))

  -- The pair of rates. A connection that is carried, with valid settings, always comes to its end
  -- or to a splice that runs on. It is counted once as accepted, once as unestablished exactly if
  -- its dial gave up, and at most once as a failed first round, which a dial that gave up always
  -- is: what the wallet sees never exceeds what the transport is charged with.
  pub carry-Rates :
      (carrying : Carrying) (traffic : W → List (ℕ × Ready E)) (accepted : ℕ) (p : Process C)
      → IsValid carrying.dial_settings
      → (q : Process C) × (e : DialEnd C W E N) × (carry net carrying traffic accepted p ≡ some q)
        × (dial net carrying.dial_settings p.client p.next_token ≡ some e)
        × Rates p.calls q.calls (gave_up? e.result)
  unfolding carry
  carry-Rates carrying traffic accepted p valid =
      let (e, found, spent) = dial-Spent net carrying.dial_settings p.client p.next_token valid in
      (
        carry_dialled net carrying traffic accepted p e,
        e,
        rw (found, carry) refl,
        found,
        carry_on-Rates carrying traffic accepted p e e.result _ _ valid.tries spent,
      )
