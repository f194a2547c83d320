-- ===== src/Examples/Servers.antt =====
-- Streams that the server half serves, and the theorems of `Server` at concrete inputs.
use mathlib.Core.List.Permᴰ
use mathlib.Core.List.{append-nil}
use lwd_mixnet_proxy.Common.{
  Perm, ℕ, zero, suc, ◌+◌, ◌≤◌, ◌≡◌, refl, ◌⊎◌, true, false, List, [], ◌∷◌, ◌++◌, Option, none,
  some, ok, arith,
}
use lwd_mixnet_proxy.Common.Words.{be_bytes, from_be_bytes}
use lwd_mixnet_proxy.Handshake.{Header, Wire, encode, decode, accept}
use lwd_mixnet_proxy.Splice.Loop.{outbound, run}
use lwd_mixnet_proxy.Metrics.Server.{stream_dropped_over_capacity}
use lwd_mixnet_proxy.Server.{Settings, Upstream, first_chunk, serve, first_request, reach_upstream}
use lwd_mixnet_proxy.Server.Carried.{reached_upstream, serve-reached}
use lwd_mixnet_proxy.Server.Totals.{calls_of, spliced_still, Balanced, serve-Balanced}
use lwd_mixnet_proxy.Metrics.Server.{Calls}
use lwd_mixnet_proxy.Server.Capacity.{
  Semaphore, Event, Listening, stream_arrived, stream_ended, begin_listening, listen, listen_one,
  listen_one-dropped,
}
use lwd_mixnet_proxy.Examples.Peer.{Peer, peer_io}
use lwd_mixnet_proxy.Examples.Headers.{wire_bytes}

-- The node takes what it is sent and closes its connection after two seconds.
abbrev pub node : Upstream Peer ℕ ℕ
node = record {
  first_read = λ n timeout w. (some (ok (1 ∷ 2 ∷ [])), w);
  connect = λ w. ok 3;
  write_upstream = λ u opening. ok tt;
  traffic = λ u w. (2000, outbound (record { read = ok []; write = ok tt; flush = ok tt })) ∷ [];
}

abbrev pub serving_settings : Settings
serving_settings = record {
  handshake_timeout = 10;
  first_request_timeout = 20;
  idle_timeout = 600_000_000_000;
}

abbrev pub introduced : Wire Peer
introduced = record {
  stream = record { clock = 100; incoming = (5, wire_bytes) ∷ []; sent = [] };
  next_token = 1;
}

introduced_reaches : reached_upstream (serve peer_io node serving_settings introduced).1 ≡ true
unfolding serve first_request reach_upstream run accept decode encode be_bytes from_be_bytes
introduced_reaches = refl

-- One who says nothing, and one who is served.
abbrev silent : Wire Peer
silent = record introduced { stream = record { clock = 90; incoming = []; sent = [] } }

abbrev both : List (Wire Peer)
both = silent ∷ introduced ∷ []

abbrev calls_on : Wire Peer → Calls
calls_on s = (serve peer_io node serving_settings s).0

-- The calls for the one who is served come first.
served_first :
    Perm (calls_on introduced ++ calls_on silent) (calls_of peer_io node serving_settings both)
served_first =
    rw (append-nil (calls_on introduced))
      (∣ Permᴰ.append_comm (calls_on introduced) (calls_on silent) ∣₁)

serve-Balanced_example :
    Balanced peer_io node serving_settings 2
      (spliced_still peer_io node serving_settings both)
      (calls_on introduced ++ calls_on silent)
serve-Balanced_example = serve-Balanced peer_io node serving_settings both _ served_first

serve-reached_example :
    (header : Header) × (b : ℕ) × (bs : List ℕ) × ((accept peer_io 10 introduced).0 ≡ ok header)
    × ((node.first_read first_chunk 20 (accept peer_io 10 introduced).1.stream).0
        ≡ some (ok (b ∷ bs)))
serve-reached_example = serve-reached peer_io node serving_settings introduced introduced_reaches

-- A semaphore that is the number of its permits.
abbrev pub try_take : ℕ → Option ℕ
try_take zero = none
try_take (suc n) = some n

pub take_some : (s t : ℕ) → try_take s ≡ some t → s ≡ t + 1
take_some zero t h = cc
take_some (suc n) t h = ground arith

pub take_none : (s : ℕ) → try_take s ≡ none → s ≡ 0
take_none zero h = refl
take_none (suc n) h = cc

abbrev pub counting : Semaphore ℕ
counting = record {
  available = λ s. s;
  new = λ n. n;
  try_acquire = try_take;
  release = λ s. s + 1;
  available-new = λ n. refl;
  acquire_one = take_some;
  acquire_none = take_none;
  release_one = λ s. refl;
}

-- Three streams where two are allowed; once one has ended there is room again.
abbrev pub crowded : List Event
crowded = stream_arrived ∷ stream_arrived ∷ stream_arrived ∷ stream_ended ∷ stream_arrived ∷ []

one_over :
    (listen counting (begin_listening counting 2) crowded).calls ≡ stream_dropped_over_capacity
unfolding listen begin_listening listen_one stream_dropped_over_capacity
one_over = refl

abbrev full : Listening ℕ
full = record { capacity = 0; serving = 2; over = 0; calls = []; shutting_down = false }

listen_one-dropped_example :
    ((full.serving ≡ 2)
      × ((listen_one counting full stream_arrived).0
          ≡ record full { calls = [] ++ stream_dropped_over_capacity }))
    ⊎ ((suc full.serving ≤ 2)
        × ((listen_one counting full stream_arrived).0.serving ≡ 2 + 1)
        × ((listen_one counting full stream_arrived).0.calls ≡ []))
listen_one-dropped_example = listen_one-dropped counting 2 full refl
