-- ===== src/Server/Carried.antt =====
-- src/bin/server.rs, `serve`: what one accepted stream adds to the metrics, and when the upstream is
-- touched.
use lwd_mixnet_proxy.Common.{
  ℕ, ◌+◌, ◌≡◌, refl, Bool, true, false, List, [], ◌∷◌, ◌++◌, ◌==◌, if◌then◌else◌, Option, none,
  some, Result, ok, err,
}
use lwd_mixnet_proxy.Dial.Rounds.{one_if}
use lwd_mixnet_proxy.Handshake.{Header, HandshakeError, Io, Wire, accept}
use lwd_mixnet_proxy.Splice.{Ended, Transfer}
use lwd_mixnet_proxy.Metrics.{record_transfer}
use lwd_mixnet_proxy.Metrics.Server.{
  ServerMetric, Calls, streams_accepted, streams_rejected, streams_without_request, in_flight,
  upstream_connections, upstream_failures, ended, bytes, stream_accepted, stream_rejected,
  stream_without_request, upstream_unreachable, upstream_connected, in_flight_dropped, finished,
}
use lwd_mixnet_proxy.Metrics.Totals.{total, drops}
use lwd_mixnet_proxy.Server.{
  Settings, Upstream, Fate, turned_away, asked_nothing, spliced, splice_calls, after_write,
  after_connect, reach_upstream, first_request, after_accept, first_chunk, serve,
}

abbrev pub number : ServerMetric → ℕ
number streams_accepted = 0
number streams_rejected = 1
number streams_without_request = 2
number in_flight = 3
number upstream_connections = 4
number upstream_failures = 5
number ended = 6
number bytes = 7

-- Whether a call is on this metric.
abbrev pub is : ServerMetric → ServerMetric → Bool
is m k = number m == number k

abbrev pub counted : ServerMetric → Calls → ℕ
counted m = total (is m)

-- Whether `serve` has returned: only a splice can go on.
abbrev pub is_over : {E : Type 0} → Fate E → Bool
is_over (spliced none) = false
is_over _ = true

abbrev pub reached_upstream : {E : Type 0} → Fate E → Bool
reached_upstream (turned_away _) = false
reached_upstream asked_nothing = false
reached_upstream _ = true

-- What one stream adds to the counters and to the gauge.
pub record Counts {E : Type 0} (r : Calls × Fate E) : Type 0 where
  pub once : counted streams_accepted r.0 + counted streams_rejected r.0 ≡ 1
  pub settled :
      counted streams_accepted r.0
      ≡ counted streams_without_request r.0
        + counted upstream_failures r.0
        + counted upstream_connections r.0
  pub touched :
      counted upstream_failures r.0 + counted upstream_connections r.0
      ≡ one_if (reached_upstream r.1)
  pub raised : counted in_flight r.0 ≡ counted upstream_connections r.0
  pub lowered :
      drops (is in_flight) r.0 ≡ (if is_over r.1 then counted upstream_connections r.0 else 0)
  pub going_on : is_over r.1 ≡ false → counted upstream_connections r.0 ≡ 1

module _ {W U E : Type 0} (io : Io W E) (up : Upstream W U E) (settings : Settings) where
  splice-Counts :
      (o : Option (Transfer × Ended E))
      → Counts (stream_accepted ++ (upstream_connected ++ splice_calls io up settings o), spliced o)
  unfolding stream_accepted upstream_connected finished record_transfer in_flight_dropped total
      drops
  splice-Counts none = record {
    once = refl;
    settled = refl;
    touched = refl;
    raised = refl;
    lowered = refl;
    going_on = λ e. refl;
  }
  splice-Counts (some (t, e)) = record {
    once = refl;
    settled = refl;
    touched = refl;
    raised = refl;
    lowered = refl;
    going_on = λ e. cc;
  }

  abbrev AfterAccept : Calls × Fate E → Type 0
  AfterAccept r = Counts (stream_accepted ++ r.0, r.1)

  after_write-Counts :
      (u : U) (w : W) (written : Result E (Unit {0}))
      → AfterAccept (after_write io up settings u w written)
  unfolding stream_accepted upstream_connected in_flight_dropped total drops
  after_write-Counts u w (err e) = record {
    once = refl;
    settled = refl;
    touched = refl;
    raised = refl;
    lowered = refl;
    going_on = λ e. cc;
  }
  after_write-Counts u w (ok _) = splice-Counts _

  after_connect-Counts :
      (w : W) (opening : List ℕ) (connected : Result E U)
      → AfterAccept (after_connect io up settings w opening connected)
  unfolding stream_accepted upstream_unreachable total drops
  after_connect-Counts w opening (err e) = record {
    once = refl;
    settled = refl;
    touched = refl;
    raised = refl;
    lowered = refl;
    going_on = λ e. cc;
  }
  after_connect-Counts w opening (ok u) = after_write-Counts u w (up.write_upstream u opening)

  without_request-Counts : AfterAccept (stream_without_request, asked_nothing)
  unfolding stream_accepted stream_without_request total drops
  without_request-Counts = record {
    once = refl;
    settled = refl;
    touched = refl;
    raised = refl;
    lowered = refl;
    going_on = λ e. cc;
  }

  first_request-Counts :
      (read : Option (Result E (List ℕ)) × W) → AfterAccept (first_request io up settings read)
  unfolding first_request reach_upstream
  first_request-Counts (none, w) = without_request-Counts
  first_request-Counts (some (err e), w) = without_request-Counts
  first_request-Counts (some (ok []), w) = without_request-Counts
  first_request-Counts (some (ok (b ∷ bs)), w) = after_connect-Counts w (b ∷ bs) (up.connect w)

  after_accept-Counts :
      (r : Result (HandshakeError E) Header × Wire W) → Counts (after_accept io up settings r)
  unfolding stream_rejected total drops
  after_accept-Counts (err error, s) = record {
    once = refl;
    settled = refl;
    touched = refl;
    raised = refl;
    lowered = refl;
    going_on = λ e. cc;
  }
  after_accept-Counts (ok header, s) = first_request-Counts _

  -- Every stream is counted once, as accepted or as rejected. An accepted one is counted once
  -- more: as without a request, as an upstream failure or as an upstream connection, and the
  -- upstream was reached for exactly in the last two cases. The gauge of streams in flight is
  -- raised once for each upstream connection, and lowered again for it exactly if the stream is
  -- over; a stream that is not over has one.
  pub serve-Counts : (s : Wire W) → Counts (serve io up settings s)
  unfolding serve
  serve-Counts s = after_accept-Counts (accept io settings.handshake_timeout s)

  reaches :
      (read : Option (Result E (List ℕ)) × W)
      → reached_upstream (first_request io up settings read).1 ≡ true
      → (b : ℕ) × (bs : List ℕ) × (read.0 ≡ some (ok (b ∷ bs)))
  unfolding first_request
  reaches (none, w) h = cc
  reaches (some (err e), w) h = cc
  reaches (some (ok []), w) h = cc
  reaches (some (ok (b ∷ bs)), w) h = (b, bs, refl)

  accepted_first :
      (r : Result (HandshakeError E) Header × Wire W)
      → reached_upstream (after_accept io up settings r).1 ≡ true
      → (header : Header) × (b : ℕ) × (bs : List ℕ) × (r.0 ≡ ok header)
        × ((up.first_read first_chunk settings.first_request_timeout r.1.stream).0
            ≡ some (ok (b ∷ bs)))
  accepted_first (err error, s) h = cc
  accepted_first (ok header, s) h = let (b, bs, e) = reaches _ h in (header, b, bs, refl, e)

  -- The upstream is never reached for, by a connection or an attempt at one, but for a stream whose
  -- handshake was accepted and whose first read returned, in time, at least one byte.
  pub serve-reached :
      (s : Wire W)
      → reached_upstream (serve io up settings s).1 ≡ true
      → (header : Header) × (b : ℕ) × (bs : List ℕ) × ((accept io settings.handshake_timeout s).0
          ≡ ok header)
        × ((up.first_read first_chunk settings.first_request_timeout
              (accept io settings.handshake_timeout s).1.stream).0
            ≡ some (ok (b ∷ bs)))
  unfolding serve
  serve-reached s h = accepted_first (accept io settings.handshake_timeout s) h
