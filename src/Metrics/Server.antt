-- ===== src/Metrics/Server.antt =====
-- src/metrics.rs, `ServerMetrics`: what the listening half counts.
use lwd_mixnet_proxy.Common.{List, [], ◌∷◌, ◌++◌}
use lwd_mixnet_proxy.Handshake.{HandshakeError}
use lwd_mixnet_proxy.Splice.{Ended, Transfer}
use lwd_mixnet_proxy.Metrics.{
  Call, inc, dec, inc_label, record_transfer, ended_reason, handshake_reason,
}

-- The fields of `ServerMetrics`.
pub data ServerMetric : Type 0 where
  streams_accepted streams_rejected streams_without_request in_flight : ServerMetric
  upstream_connections upstream_failures ended bytes : ServerMetric

abbrev pub Calls : Type 0
Calls = List (Call ServerMetric)

unfoldable pub stream_accepted : Calls
stream_accepted = inc streams_accepted ∷ []

unfoldable pub stream_rejected : {E : Type 0} → HandshakeError E → Calls
unfolding handshake_reason
stream_rejected error = inc_label streams_rejected (handshake_reason error) ∷ []

unfoldable pub stream_dropped_over_capacity : Calls
stream_dropped_over_capacity = inc_label streams_rejected "over_capacity" ∷ []

unfoldable pub stream_without_request : Calls
stream_without_request = inc streams_without_request ∷ []

unfoldable pub upstream_unreachable : Calls
upstream_unreachable = inc upstream_failures ∷ []

-- The guard that is returned is dropped by `in_flight_dropped`.
unfoldable pub upstream_connected : Calls
upstream_connected = inc upstream_connections ∷ inc in_flight ∷ []

-- `Drop for InFlight`, on the gauge of this half.
unfoldable pub in_flight_dropped : Calls
in_flight_dropped = dec in_flight ∷ []

unfoldable pub finished : {E : Type 0} → Transfer → Ended E → Calls
unfolding record_transfer ended_reason
finished transfer how = record_transfer bytes transfer ++ (inc_label ended (ended_reason how) ∷ [])
