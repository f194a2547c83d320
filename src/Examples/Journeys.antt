-- ===== src/Examples/Journeys.antt =====
-- A wallet's bytes on their way to a node and back, and the theorem of `Journey` there.
use lwd_mixnet_proxy.Common.{ℕ, List, [], ◌∷◌, Option, none, some, Result, ok}
use lwd_mixnet_proxy.Splice.{Watchdog}
use lwd_mixnet_proxy.Splice.Loop.{Ready, Pass, outbound, inbound}
use lwd_mixnet_proxy.Server.{Upstream}
use lwd_mixnet_proxy.Examples.Peer.{Peer}
use lwd_mixnet_proxy.Examples.Servers.{node}

abbrev passed : List ℕ → Pass ℕ
passed bytes = record { read = ok bytes; write = ok tt; flush = ok tt }

-- The wallet sends two bytes and two more, and has had one back.
abbrev wallet : List (ℕ × Ready ℕ)
wallet =
    (10, outbound (passed (1 ∷ 2 ∷ [])))
    ∷ (20, outbound (passed (3 ∷ 4 ∷ [])))
    ∷ (900, inbound (passed (9 ∷ [])))
    ∷ []

-- The node has had three of them, and has sent two back.
abbrev busy_node : Upstream Peer ℕ ℕ
busy_node = record node {
  traffic = λ u w. (500, outbound (passed (9 ∷ 8 ∷ []))) ∷ (600, inbound (passed (3 ∷ []))) ∷ [];
}

abbrev patient : Watchdog
patient = record { stall = some 60_000_000_000; idle = none }

abbrev opening_of : Option (Result ℕ (List ℕ)) → List ℕ
opening_of (some (ok bytes)) = bytes
opening_of _ = []
