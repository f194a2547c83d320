-- ===== src/Journey.antt =====
-- Both halves together: the splice of `carry` in src/bin/client.rs and `serve` in src/bin/server.rs, at
-- the two ends of one stream. What the mixnet does with the bytes in between is a hypothesis.
use lwd_mixnet_proxy.Common.{ℕ, ◌≡◌, List, ◌++◌, Option, Result, ok}
use lwd_mixnet_proxy.Handshake.{Io, Wire, accept}
use lwd_mixnet_proxy.Splice.{Watchdog}
use lwd_mixnet_proxy.Splice.Loop.{Ready, Splice, begin, run}
use lwd_mixnet_proxy.Splice.Copies.{read_from_local}
use lwd_mixnet_proxy.Splice.Prefixes.{IsPrefix}
use lwd_mixnet_proxy.Server.{Settings, Upstream, first_chunk, watchdog}

-- The splice of the client half, the wallet's connection being its local end.
abbrev pub carried : {E : Type 0} → Watchdog → List (ℕ × Ready E) → Splice
carried watch wallet = (run watch begin wallet).0

module _ {W U E : Type 0} (io : Io W E) (up : Upstream W U E) (settings : Settings) where
  -- The splice of the server half, the upstream being its local end.
  abbrev pub served : W → U → Splice
  served w u = (run (watchdog io up settings) begin (up.traffic u w)).0

  abbrev pub first_read_of : Wire W → Option (Result E (List ℕ)) × W
  first_read_of s =
      up.first_read first_chunk settings.first_request_timeout
        (accept io settings.handshake_timeout s).1.stream

  -- What the upstream was handed in all, the first request and then by the splice, is a beginning of
  -- what the wallet sent; what the wallet was handed is one of what the upstream sent.
  pub record Relayed {F : Type 0} (s : Wire W) (watch : Watchdog) (wallet : List (ℕ × Ready F))
      : Type 0 where
    pub opening : List ℕ
    pub stream : W
    pub upstream : U
    pub forwarded : up.write_upstream upstream opening ≡ ok tt
    pub to_upstream :
        IsPrefix (opening ++ (served stream upstream).inbound.written) (read_from_local wallet)
    pub to_wallet :
        IsPrefix
          (carried watch wallet).inbound.written
          (read_from_local (up.traffic upstream stream))
