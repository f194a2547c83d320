-- ===== src/Server/Tasks/Waits.antt =====
-- src/bin/server.rs, `serve`: the accounts of one task hold at each of its waits.
use lwd_mixnet_proxy.Common.{ℕ, List, [], ◌∷◌, Option, none, some, Result, ok, err, arith}
use lwd_mixnet_proxy.Handshake.{Header, HandshakeError, Io, Wire}
use lwd_mixnet_proxy.Splice.{Ended, Transfer}
use lwd_mixnet_proxy.Metrics.{record_transfer}
use lwd_mixnet_proxy.Metrics.Server.{
  Calls, stream_accepted, stream_rejected, stream_without_request, upstream_unreachable,
  upstream_connected, in_flight_dropped, finished,
}
use lwd_mixnet_proxy.Server.{Settings, Upstream}
use lwd_mixnet_proxy.Server.Tasks.{
  Stage, handshaking, reading, connecting, forwarding, splicing, leaving, gone, Task, aborted,
  after_handshake, after_read, after_connecting, after_forwarding, after_splice, advance, Move,
  calls, goes_on, aborts,
}
use lwd_mixnet_proxy.Server.Tasks.Counted.{Fits, IsServed, call_next-IsServed, on_to-IsServed}

module _ {W U : Type 0} where
  pub aborted-Fits : (s : Stage W U) → Fits s (aborted s)
  unfolding aborted in_flight_dropped
  aborted-Fits (handshaking s) = ground arith
  aborted-Fits (reading w) = ground arith
  aborted-Fits (connecting w opening) = ground arith
  aborted-Fits (forwarding u w opening) = ground arith
  aborted-Fits (splicing u w) = ground arith
  aborted-Fits leaving = ground arith
  aborted-Fits gone = ground arith

module _ {W U E : Type 0} (io : Io W E) (up : Upstream W U E) (settings : Settings) where
  handshaking-Fits :
      (wire : Wire W) (r : Result (HandshakeError E) Header × Wire W)
      → Fits (handshaking wire) (after_handshake io up settings r)
  unfolding stream_rejected stream_accepted
  handshaking-Fits wire (err e, s) = ground arith
  handshaking-Fits wire (ok h, s) = ground arith

  reading-Fits :
      (w : W) (r : Option (Result E (List ℕ)) × W) → Fits (reading w) (after_read io up settings r)
  unfolding stream_without_request
  reading-Fits w (none, v) = ground arith
  reading-Fits w (some (err e), v) = ground arith
  reading-Fits w (some (ok []), v) = ground arith
  reading-Fits w (some (ok (b ∷ bs)), v) = ground arith

  connecting-Fits :
      (w : W) (opening : List ℕ) (r : Result E U)
      → Fits (connecting w opening) (after_connecting io up settings w opening r)
  unfolding upstream_unreachable upstream_connected
  connecting-Fits w opening (err e) = ground arith
  connecting-Fits w opening (ok u) = ground arith

  forwarding-Fits :
      (u : U) (w : W) (opening : List ℕ) (r : Result E (Unit {0}))
      → Fits (forwarding u w opening) (after_forwarding io up settings u w r)
  unfolding in_flight_dropped
  forwarding-Fits u w opening (err e) = ground arith
  forwarding-Fits u w opening (ok _) = ground arith

  splicing-Fits :
      (u : U) (w : W) (o : Option (Transfer × Ended E))
      → Fits (splicing u w) (after_splice io up settings u w o)
  unfolding finished record_transfer in_flight_dropped
  splicing-Fits u w none = ground arith
  splicing-Fits u w (some (t, e)) = ground arith

  pub advance-Fits : (s : Stage W U) → Fits s (advance io up settings s)
  unfolding advance
  advance-Fits (handshaking s) = handshaking-Fits s _
  advance-Fits (reading w) = reading-Fits w _
  advance-Fits (connecting w opening) = connecting-Fits w opening _
  advance-Fits (forwarding u w opening) = forwarding-Fits u w opening _
  advance-Fits (splicing u w) = splicing-Fits u w _
  advance-Fits leaving = ground arith
  advance-Fits gone = ground arith

  pub Move-IsServed :
      {t t' : Task W U} {made : Calls} → Move io up settings t t' made → IsServed t → IsServed t'
  Move-IsServed {t} (calls {c} {later} e) h = call_next-IsServed t c later e h
  Move-IsServed {t} (goes_on idle) h = on_to-IsServed t _ idle (advance-Fits t.stage) h
  Move-IsServed {t} (aborts idle) h = on_to-IsServed t _ idle (aborted-Fits t.stage) h
