-- ===== src/Client/Tasks/Settled.antt =====
-- src/bin/client.rs, `carry`: what one task adds to the metrics with the result of its dial.
use lwd_mixnet_proxy.Common.{
  ℕ, ◌+◌, ◌-◌, ◌≤◌, ◌<◌, ◌≡◌, refl, Bool, true, List, [], ◌∷◌, Option, some, Result, ok, err,
  if◌then◌else◌, length, arith,
}
use lwd_mixnet_proxy.Common.Weights.{weigh}
use lwd_mixnet_proxy.Dial.{Round, GaveUp}
use lwd_mixnet_proxy.Dial.Run.{Network, Dialled, DialEnd, dial, attempts_in, concurrency_in}
use lwd_mixnet_proxy.Dial.Rounds.{one_if}
use lwd_mixnet_proxy.Dial.Accounting.{IsValid}
use lwd_mixnet_proxy.Dial.Budget.{Spent, dial-Spent}
use lwd_mixnet_proxy.Metrics.{inc}
use lwd_mixnet_proxy.Metrics.Client.{
  ClientMetric, Calls, connections, in_flight, unestablished, first_round_failures, dialled, rounds,
  streams_opened, streams_discarded, establishment, first_round_failed, established, gave_up,
}
use lwd_mixnet_proxy.Metrics.Totals.{total-dialled, opened_in, discarded_in}
use lwd_mixnet_proxy.Metrics.Interleaved.{weigh-total, weigh-drops}
use lwd_mixnet_proxy.Metrics.Behind.{Behind-now, Behind-append}
use lwd_mixnet_proxy.Streaks.{Outcome}
use lwd_mixnet_proxy.Client.{Carrying}
use lwd_mixnet_proxy.Client.Carried.{
  is, total-established, total-gave_up, drops-established, drops-gave_up,
}
use lwd_mixnet_proxy.Client.Tasks.{
  dialling, Connection, settle, Move, calls, dials, folds, splices, aborts_dialling,
  aborts_splicing,
}
use lwd_mixnet_proxy.Client.Tasks.Counted.{
  ups, Leads, IsCounted, on_to-IsCounted, quiet-visible, leave-IsCounted, go_on-IsCounted,
  finish-IsCounted, call_one-IsCounted,
}
use lwd_mixnet_proxy.Client.Carried.{failed_first}

one_if_le : (b : Bool) → one_if b ≤ 1
one_if_le b = ground arith

module _ {E N : Type 0} where
  raised_established :
      (m : ClientMetric) (rs : List (Round E N)) (waited : ℕ)
      → weigh (ups m) (established rs waited)
        ≡ weigh (ups m) (dialled rs) + (if is m establishment then 1 else 0)
  raised_established m rs waited = omega (
    arith,
    weigh-total (is m) (established rs waited),
    weigh-total (is m) (dialled rs),
    total-established m rs waited,
  )

  raised_gave_up :
      (m : ClientMetric) (rs : List (Round E N))
      → weigh (ups m) (gave_up rs)
        ≡ weigh (ups m) (dialled rs) + (if is m unestablished then 1 else 0)
  raised_gave_up m rs =
      omega (
        arith,
        weigh-total (is m) (gave_up rs),
        weigh-total (is m) (dialled rs),
        total-gave_up m rs,
      )

  raised_dialled :
      (m : ClientMetric) (rs : List (Round E N))
      → weigh (ups m) (dialled rs)
        ≡ (if is m rounds then length rs else 0)
          + ((if is m streams_opened then opened_in rs else 0)
              + (if is m streams_discarded then discarded_in rs else 0))
          + (if is m first_round_failures then one_if (first_round_failed rs) else 0)
  raised_dialled m rs = omega (arith, weigh-total (is m) (dialled rs), total-dialled (is m) rs)

  -- A dial that gave up has failed its first round, and counts that before it counts itself.
  gave_up-visible :
      (t : Connection) (rs : List (Round E N))
      → first_round_failed rs ≡ true
      → t.pending ≡ []
      → t.stage ≡ dialling
      → IsCounted t
      → Leads (ups first_round_failures) (ups unestablished) (record t { pending = gave_up rs })
  unfolding gave_up
  gave_up-visible t rs failed idle at h =
      let stands : weigh (ups unestablished) t.made ≤ weigh (ups first_round_failures) t.made =
        Behind-now _ _ _ _ t.pending h.visible in
      let first = raised_dialled first_round_failures rs in
      Behind-append _ _ _ _ (dialled rs) (inc unestablished ∷ [])
        (omega (arith, stands, raised_dialled unestablished rs))
        (ground (arith, stands, raised_dialled unestablished rs, first))

module _ {W E N : Type 0} where
  pub settle-IsCounted :
      (carrying : Carrying) (now : ℕ) (t : Connection) (r : Result (GaveUp E N) (Dialled W E N))
      (concurrency remaining : ℕ)
      → 0 < remaining
      → Spent concurrency remaining [] r
      → t.pending ≡ []
      → t.stage ≡ dialling
      → IsCounted t
      → IsCounted (settle carrying now t r)
  unfolding settle
  settle-IsCounted carrying now t (ok d) concurrency remaining pos spent idle at h =
      let rs = d.rounds in
      let next = established rs (now - t.accepted) in
      let adds : (m : ClientMetric)
          → weigh (ups m) next
            ≡ weigh (ups m) (dialled rs) + (if is m establishment then 1 else 0) =
        λ m. raised_established m rs (now - t.accepted) in
      on_to-IsCounted t next _ idle h
        (omega (arith, adds connections, raised_dialled connections rs))
        (omega (arith, adds in_flight, raised_dialled in_flight rs))
        (rw at (
          omega (
            arith,
            weigh-drops (is in_flight) next,
            drops-established in_flight rs (now - t.accepted),
          )))
        (rw at (
          omega (
            arith,
            adds first_round_failures,
            raised_dialled first_round_failures rs,
            one_if_le (first_round_failed rs),
          )))
        (quiet-visible t next idle h
          (omega (arith, adds unestablished, raised_dialled unestablished rs)))
  settle-IsCounted carrying now t (err g) concurrency remaining pos spent idle at h =
      let rs = g.rounds in
      let (ran, same, un, tot, lo, hi) = spent in
      let failed : first_round_failed rs ≡ true =
        rw same (failed_first ran un (omega (arith, tot))) in
      on_to-IsCounted t (gave_up rs) _ idle h
        (omega (arith, raised_gave_up connections rs, raised_dialled connections rs))
        (omega (arith, raised_gave_up in_flight rs, raised_dialled in_flight rs))
        (rw at (omega (arith, weigh-drops (is in_flight) (gave_up rs), drops-gave_up in_flight rs)))
        (rw at (
          omega (
            arith,
            raised_gave_up first_round_failures rs,
            raised_dialled first_round_failures rs,
            one_if_le (first_round_failed rs),
          )))
        (gave_up-visible t rs failed idle at h)

module _ (C W E N : Type 0) (carrying : Carrying) where
  dial_end-Spent :
      (net : Network C W E N) (client : C) (token : ℕ) (end : DialEnd C W E N)
      → IsValid carrying.dial_settings
      → dial net carrying.dial_settings client token ≡ some end
      → Spent
          (concurrency_in carrying.dial_settings)
          (attempts_in carrying.dial_settings)
          []
          end.result
  dial_end-Spent net client token end valid found =
      let (e, same, spent) = dial-Spent net carrying.dial_settings client token valid in
      let one : e ≡ end = ground (arith, same, found) in rw one at spent

  -- Whatever a task does next, with valid settings, its calls stay in order.
  pub Move-IsCounted :
      {t t' : Connection} {made : Calls} {o : Option Outcome}
      → IsValid carrying.dial_settings
      → Move C W E N carrying t t' made o
      → IsCounted t
      → IsCounted t'
  Move-IsCounted {t} valid (calls {c} {later} e) h = call_one-IsCounted t c later e h
  Move-IsCounted {t} valid (dials net client token end idle at found) h =
      settle-IsCounted carrying (net.clock end.client) t end.result _ _ valid.tries
        (dial_end-Spent net client token end valid found) idle at h
  Move-IsCounted {t} valid (folds {outcome} {onward} idle at) h =
      go_on-IsCounted t outcome onward idle at h
  Move-IsCounted {t} valid (splices traffic transfer ended idle at found) h =
      finish-IsCounted t transfer ended idle at h
  Move-IsCounted {t} valid (aborts_dialling idle at) h = leave-IsCounted t idle (rw at refl) h
  Move-IsCounted {t} valid (aborts_splicing idle at) h = leave-IsCounted t idle (rw at refl) h
