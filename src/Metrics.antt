-- ===== src/Metrics.antt =====
-- src/metrics.rs: what each half counts. The counters, gauges and histograms are prometheus's, so
-- what is modelled is the calls that the code makes of them, in order: a method's value is that list.
pub mod Client
pub mod Server
pub mod Totals
pub mod Interleaved
pub mod Behind
pub mod Registration
use Prim.Native.String.{String}
use lwd_mixnet_proxy.Common.{ℕ, List, [], ◌∷◌}
use lwd_mixnet_proxy.Handshake.{
  HandshakeError, timed_out, read, write, foreign_stream, unsupported_version, token_mismatch,
}
use lwd_mixnet_proxy.Dial.{DialError, open_error, probe_error}
use lwd_mixnet_proxy.Splice.{Ended, closed, stalled, idle, failed, Transfer}

-- A call on the metric `M`; `set` has the 64 bits of its `i64`, and `observe` nanoseconds.
pub data Call (M : Type 0) : Type 0 where
  inc : M → Call M
  inc_by : M → ℕ → Call M
  dec : M → Call M
  set : M → ℕ → Call M
  observe : M → ℕ → Call M
  inc_label : M → String → Call M
  inc_label_by : M → String → ℕ → Call M

-- `record_transfer`, on the vector of byte counters that it is given.
unfoldable pub record_transfer : {M : Type 0} → M → Transfer → List (Call M)
record_transfer bytes transfer =
    inc_label_by bytes "to_mixnet" transfer.to_remote
    ∷ inc_label_by bytes "from_mixnet" transfer.from_remote
    ∷ []

unfoldable pub ended_reason : {E : Type 0} → Ended E → String
ended_reason closed = "closed"
ended_reason (stalled _) = "stalled"
ended_reason (idle _) = "idle"
ended_reason (failed _) = "failed"

unfoldable pub handshake_reason : {E : Type 0} → HandshakeError E → String
handshake_reason (timed_out _) = "unanswered"
handshake_reason (read _) = "io"
handshake_reason (write _) = "io"
handshake_reason foreign_stream = "foreign"
handshake_reason (unsupported_version _) = "unsupported_version"
handshake_reason (token_mismatch _ _) = "token_mismatch"

unfoldable pub discard_reason : {E N : Type 0} → DialError E N → String
unfolding handshake_reason
discard_reason (open_error _) = "refused_open"
discard_reason (probe_error probe) = handshake_reason probe
