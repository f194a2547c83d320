-- ===== src/Client/Gauge.antt =====
-- src/bin/client.rs, `carry`: the in-flight gauge, and many connections one after the other.
use lwd_mixnet_proxy.Common.{
  ℕ, ◌+◌, ◌-◌, ◌≤◌, ◌≡◌, refl, length, Bool, true, false, List, [], ◌∷◌, Option, none, some, Result,
  ok, err, arith,
}
use lwd_mixnet_proxy.Dial.{GaveUp}
use lwd_mixnet_proxy.Dial.Run.{Network, Dialled, DialEnd, dial}
use lwd_mixnet_proxy.Dial.Rounds.{one_if}
use lwd_mixnet_proxy.Dial.Accounting.{IsValid}
use lwd_mixnet_proxy.Splice.{Ended, Transfer}
use lwd_mixnet_proxy.Splice.Loop.{Ready, begin, run}
use lwd_mixnet_proxy.Metrics.Client.{
  connections, in_flight, unestablished, first_round_failures, finished, in_flight_dropped,
  established, gave_up,
}
use lwd_mixnet_proxy.Metrics.Totals.{total, drops, total-dialled}
use lwd_mixnet_proxy.Client.{
  Carrying, Process, settle_dial, carry_on, carry_dialled, carry, end_calls,
}
use lwd_mixnet_proxy.Client.Carried.{
  is, counted, carry-Rates, counted_from, drops_from, drops-established, drops-gave_up,
  total-established, total-gave_up, dropped_add,
}

abbrev pub over : {A : Type 0} → Option A → Bool
over none = false
over (some _) = true

module _ {C W E N : Type 0} (net : Network C W E N) where
  -- Whether the connection has ended: its dial gave up, or its splice has returned.
  abbrev pub has_ended :
      Carrying → (W → List (ℕ × Ready E)) → Result (GaveUp E N) (Dialled W E N) → Bool
  has_ended carrying traffic (err gave) = true
  has_ended carrying traffic (ok d) = over (run carrying.watchdog begin (traffic d.stream)).1

  raised_end : (o : Option (Transfer × Ended E)) → counted in_flight (end_calls net o) ≡ 0
  unfolding finished in_flight_dropped total
  raised_end none = refl
  raised_end (some (t, e)) = ground arith

  lowered_end :
      (o : Option (Transfer × Ended E)) → drops (is in_flight) (end_calls net o) ≡ one_if (over o)
  unfolding finished in_flight_dropped drops
  lowered_end none = refl
  lowered_end (some (t, e)) = ground arith

  carry_on-gauge :
      (carrying : Carrying) (traffic : W → List (ℕ × Ready E)) (accepted : ℕ) (p : Process C)
      (end : DialEnd C W E N) (r : Result (GaveUp E N) (Dialled W E N)) (q : Process C)
      → q ≡ carry_on net carrying traffic (settle_dial net carrying accepted p end r) r
      → (counted in_flight q.calls ≡ counted in_flight p.calls + 1)
        × (drops (is in_flight) q.calls
            ≡ drops (is in_flight) p.calls + one_if (has_ended carrying traffic r))
  unfolding carry_on settle_dial
  carry_on-gauge carrying traffic accepted p end (ok d) q e =
      let o = (run carrying.watchdog begin (traffic d.stream)).1 in
      let waited = net.clock end.client - accepted in
      rw e (
        omega (
          arith,
          counted_from in_flight p.calls (established d.rounds waited) (end_calls net o),
          raised_end o,
          total-established in_flight d.rounds waited,
          total-dialled (is in_flight) d.rounds,
        ),
        omega (
          arith,
          drops_from in_flight p.calls (established d.rounds waited) (end_calls net o),
          lowered_end o,
          drops-established in_flight d.rounds waited,
        ),
      )
  carry_on-gauge carrying traffic accepted p end (err g) q e = rw e (
    omega (
      arith,
      counted_from in_flight p.calls (gave_up g.rounds) in_flight_dropped,
      dropped_add net in_flight,
      total-gave_up in_flight g.rounds,
      total-dialled (is in_flight) g.rounds,
    ),
    omega (
      arith,
      drops_from in_flight p.calls (gave_up g.rounds) in_flight_dropped,
      lowered_drop,
      drops-gave_up in_flight g.rounds,
    ),
  )
    where
      lowered_drop : drops (is in_flight) in_flight_dropped ≡ 1
      lowered_drop = unfold in_flight_dropped drops in refl

  -- The gauge of connections in flight is raised once for a connection that is carried, and lowered
  -- once for it exactly if the connection has ended.
  pub carry-in_flight :
      (carrying : Carrying) (traffic : W → List (ℕ × Ready E)) (accepted : ℕ) (p q : Process C)
      (e : DialEnd C W E N)
      → dial net carrying.dial_settings p.client p.next_token ≡ some e
      → carry net carrying traffic accepted p ≡ some q
      → (counted in_flight q.calls ≡ counted in_flight p.calls + 1)
        × (drops (is in_flight) q.calls
            ≡ drops (is in_flight) p.calls + one_if (has_ended carrying traffic e.result))
  unfolding carry
  carry-in_flight carrying traffic accepted p q e found carried =
      let same : some (carry_dialled net carrying traffic accepted p e) ≡ some q =
        rw (found, carry) at carried in
      carry_on-gauge carrying traffic accepted p e e.result q (cc same)

  -- Connections one after the other, each with its traffic and the time that it is accepted at.
  unfoldable pub carry_all :
      Carrying → List ((W → List (ℕ × Ready E)) × ℕ) → Process C → Option (Process C)
  carry_all carrying [] p = some p
  carry_all carrying ((traffic, accepted) ∷ later) p =
      elim (carry net carrying traffic accepted p) [
        | none ↦ none
        | some q ↦ carry_all carrying later q
      ]

  -- The pair of rates over any number of connections, with valid settings: each is carried to its
  -- end and counted once, and if no more connections went unestablished than first rounds failed,
  -- and no more of these than connections, it stays so.
  pub carry_all-ordered :
      (carrying : Carrying) (conns : List ((W → List (ℕ × Ready E)) × ℕ)) (p : Process C)
      → IsValid carrying.dial_settings
      → counted unestablished p.calls ≤ counted first_round_failures p.calls
      → counted first_round_failures p.calls ≤ counted connections p.calls
      → (q : Process C) × (carry_all carrying conns p ≡ some q)
        × (counted unestablished q.calls ≤ counted first_round_failures q.calls)
        × (counted first_round_failures q.calls ≤ counted connections q.calls)
        × (counted connections q.calls ≡ counted connections p.calls + length conns)
  unfolding carry_all
  carry_all-ordered carrying [] p valid a b = (p, refl, a, b, omega arith)
  carry_all-ordered carrying ((traffic, accepted) ∷ later) p valid a b =
      let (q, e, carried, found, rates) = carry-Rates net carrying traffic accepted p valid in
      let one : one_if rates.failed_first ≤ 1 = ground arith in
      let (z, all, a', b', n) =
        carry_all-ordered carrying later q valid
          (omega (arith, rates.visible, rates.crude, rates.ordered))
          (omega (arith, rates.crude, rates.accepted, one)) in
      (z, rw (carried, carry_all) all, a', b', omega (arith, rates.accepted, n))
