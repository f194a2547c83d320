-- ===== src/Examples/Streams.antt =====
-- Streams that the server half serves beside each other, and the theorems of `Server.Tasks` at them.
use lwd_mixnet_proxy.Common.{ℕ, ◌+◌, ◌≤◌, ◌≡◌, refl, []}
use lwd_mixnet_proxy.Common.Words.{be_bytes, from_be_bytes}
use lwd_mixnet_proxy.Handshake.{accept, decode, encode}
use lwd_mixnet_proxy.Metrics.Server.{
  streams_accepted, streams_without_request, in_flight, upstream_connections, upstream_failures,
  stream_accepted, upstream_connected, stream_dropped_over_capacity,
}
use lwd_mixnet_proxy.Metrics.Totals.{drops, total}
use lwd_mixnet_proxy.Server.Carried.{is, counted}
use lwd_mixnet_proxy.Server.Tasks.{
  Running, at_first, Reach, start, later, takes_in, drops as drops_one, picks, calls, goes_on,
  spawned, on_to, call_next, advance, aborted,
}
use lwd_mixnet_proxy.Server.Tasks.Capped.{served_now, Reach-capped}
use lwd_mixnet_proxy.Examples.Peer.{Peer, peer_io}
use lwd_mixnet_proxy.Examples.Servers.{node, serving_settings, introduced, counting}

-- Where one stream may be served at a time: one is let in, introduces itself, asks and is connected to
-- the upstream; meanwhile a second one is dropped.
busy :
    (s : Running ℕ Peer ℕ) × Reach counting peer_io node serving_settings
      (at_first counting peer_io node serving_settings 1)
      s
    × (counted in_flight s.calls ≡ 1)
    × (drops (is in_flight) s.calls ≡ 0)
unfolding at_first spawned on_to call_next advance aborted accept decode encode be_bytes
    from_be_bytes stream_accepted upstream_connected stream_dropped_over_capacity total drops
busy =
    let a = later start (takes_in introduced refl) in
    let b = later a (picks [] [] refl (goes_on refl)) in
    let c = later b (picks [] [] refl (calls refl)) in
    let d = later c (drops_one refl) in
    let e = later d (picks [] [] refl (goes_on refl)) in
    let f = later e (picks [] [] refl (goes_on refl)) in
    let g = later f (picks [] [] refl (calls refl)) in
    let h = later g (picks [] [] refl (calls refl)) in (_, h, refl, refl)

Reach-capped_example :
    (served_now busy.0.tasks ≤ 1)
    × (drops (is in_flight) busy.0.calls ≤ counted in_flight busy.0.calls)
    × (counted in_flight busy.0.calls ≤ drops (is in_flight) busy.0.calls + served_now busy.0.tasks)
    × (counted streams_without_request busy.0.calls
          + counted upstream_failures busy.0.calls
          + counted upstream_connections busy.0.calls
        ≤ counted streams_accepted busy.0.calls)
Reach-capped_example = Reach-capped counting peer_io node serving_settings 1 busy.1
