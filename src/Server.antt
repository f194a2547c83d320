-- ===== src/Server.antt =====
-- src/bin/server.rs, `serve`: one accepted mixnet stream, from its handshake to its end.
pub mod Carried
pub mod Forwarding
pub mod Totals
pub mod Capacity
pub mod Tasks
pub mod Startup
use lwd_mixnet_proxy.Common.{
  ℕ, ◌*◌, Bool, true, false, List, [], ◌∷◌, ◌++◌, Option, none, some, Result, ok, err,
}
use lwd_mixnet_proxy.Handshake.{Header, HandshakeError, Io, Wire, accept}
use lwd_mixnet_proxy.Splice.{Watchdog, Ended, Transfer}
use lwd_mixnet_proxy.Splice.Loop.{Ready, begin, run}
use lwd_mixnet_proxy.Metrics.Server.{
  Calls, stream_accepted, stream_rejected, stream_without_request, upstream_unreachable,
  upstream_connected, in_flight_dropped, finished,
}

abbrev pub first_chunk : ℕ
first_chunk = 8 * 1024

pub record Settings : Type 0 where
  pub handshake_timeout : ℕ
  pub first_request_timeout : ℕ
  pub idle_timeout : ℕ

-- What `serve` asks of the upstream and of the stream beyond the handshake. `first_read n timeout`
-- is `timeout(timeout, read)` on a buffer of `n` bytes, `none` where the deadline passes first;
-- `connect` opens a connection to the upstream, to which `write_upstream` writes; `traffic` is what
-- becomes ready while the two are spliced.
pub record Upstream (W U E : Type 0) : Type 0 where
  pub first_read : ℕ → ℕ → W → Option (Result E (List ℕ)) × W
  pub connect : W → Result E U
  pub write_upstream : U → List ℕ → Result E (Unit {0})
  pub traffic : U → W → List (ℕ × Ready E)

-- How far a stream got.
pub data Fate (E : Type 0) : Type 0 where
  turned_away : HandshakeError E → Fate E
  asked_nothing : Fate E
  not_connected : Fate E
  not_forwarded : Fate E
  spliced : Option (Transfer × Ended E) → Fate E

module _ {W U E : Type 0} (io : Io W E) (up : Upstream W U E) (settings : Settings) where
  abbrev pub watchdog : Watchdog
  watchdog = record { stall = none; idle = some settings.idle_timeout }

  -- The splice with its guard; the guard is dropped where the splice returns.
  abbrev pub splice_calls : Option (Transfer × Ended E) → Calls
  splice_calls none = []
  splice_calls (some (transfer, ended)) = finished transfer ended ++ in_flight_dropped

  abbrev pub after_write : U → W → Result E (Unit {0}) → Calls × Fate E
  after_write u w (err e) = (upstream_connected ++ in_flight_dropped, not_forwarded)
  after_write u w (ok _) =
      let result = (run watchdog begin (up.traffic u w)).1 in
      (upstream_connected ++ splice_calls result, spliced result)

  abbrev pub after_connect : W → List ℕ → Result E U → Calls × Fate E
  after_connect w opening (err e) = (upstream_unreachable, not_connected)
  after_connect w opening (ok u) = after_write u w (up.write_upstream u opening)

  unfoldable pub reach_upstream : W → List ℕ → Calls × Fate E
  unfolding upstream_unreachable upstream_connected in_flight_dropped finished
  reach_upstream w opening = after_connect w opening (up.connect w)

  -- The `match` on the first read.
  unfoldable pub first_request : Option (Result E (List ℕ)) × W → Calls × Fate E
  unfolding reach_upstream stream_without_request
  first_request (none, w) = (stream_without_request, asked_nothing)
  first_request (some (err e), w) = (stream_without_request, asked_nothing)
  first_request (some (ok []), w) = (stream_without_request, asked_nothing)
  first_request (some (ok (b ∷ bs)), w) = reach_upstream w (b ∷ bs)

  abbrev pub after_accept : Result (HandshakeError E) Header × Wire W → Calls × Fate E
  after_accept (err error, s) = (stream_rejected error, turned_away error)
  after_accept (ok header, s) =
      let (calls, fate) =
        first_request (up.first_read first_chunk settings.first_request_timeout s.stream) in
      (stream_accepted ++ calls, fate)

  -- The calls on the metrics, and how far the stream got. Its listener takes no tokens.
  unfoldable pub serve : Wire W → Calls × Fate E
  unfolding first_request stream_rejected stream_accepted
  serve s = after_accept (accept io settings.handshake_timeout s)
