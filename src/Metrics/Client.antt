-- ===== src/Metrics/Client.antt =====
-- src/metrics.rs, `ClientMetrics`: what the dialling half counts.
use lwd_mixnet_proxy.Common.{ℕ, Bool, true, false, List, [], ◌∷◌, ◌++◌, length, if◌then◌else◌}
use lwd_mixnet_proxy.Dial.{Round, Discarded}
use lwd_mixnet_proxy.Splice.{Ended, Transfer}
use lwd_mixnet_proxy.Metrics.{
  Call, inc, inc_by, dec, set, observe, inc_label, record_transfer, ended_reason, discard_reason,
}

-- The fields of `ClientMetrics`.
pub data ClientMetric : Type 0 where
  connections in_flight unestablished failed_in_a_row first_round_failures : ClientMetric
  streams_opened streams_discarded rounds establishment ended bytes : ClientMetric

abbrev pub Calls : Type 0
Calls = List (Call ClientMetric)

-- The guard that is returned is dropped by `in_flight_dropped`.
unfoldable pub connection_accepted : Calls
connection_accepted = inc connections ∷ inc in_flight ∷ []

-- `Drop for InFlight`, on the gauge of this half.
unfoldable pub in_flight_dropped : Calls
in_flight_dropped = dec in_flight ∷ []

module _ {E N : Type 0} where
  unfoldable pub discarded_calls : List (Discarded E N) → Calls
  discarded_calls [] = []
  discarded_calls (d ∷ ds) =
      inc_label streams_discarded (discard_reason d.error) ∷ discarded_calls ds

  unfoldable pub round_calls : List (Round E N) → Calls
  unfolding discarded_calls
  round_calls [] = []
  round_calls (r ∷ rs) =
      inc_by streams_opened r.opened ∷ (discarded_calls r.discarded ++ round_calls rs)

  -- `rounds.first().is_some_and(|round| !round.answered)`.
  unfoldable pub first_round_failed : List (Round E N) → Bool
  first_round_failed [] = false
  first_round_failed (r ∷ rs) = if r.answered then false else true

  unfoldable pub dialled : List (Round E N) → Calls
  unfolding round_calls first_round_failed
  dialled rs =
      inc_by rounds (length rs)
      ∷ (round_calls rs ++ (if first_round_failed rs then inc first_round_failures ∷ [] else []))

  -- `waited` is `accepted.elapsed()`.
  unfoldable pub established : List (Round E N) → ℕ → Calls
  established rs waited = dialled rs ++ (observe establishment waited ∷ [])

  unfoldable pub gave_up : List (Round E N) → Calls
  gave_up rs = dialled rs ++ (inc unestablished ∷ [])

unfoldable pub set_failed_in_a_row : ℕ → Calls
set_failed_in_a_row streak = set failed_in_a_row streak ∷ []

unfoldable pub finished : {E : Type 0} → Transfer → Ended E → Calls
unfolding record_transfer ended_reason
finished transfer how = record_transfer bytes transfer ++ (inc_label ended (ended_reason how) ∷ [])
