-- ===== src/Examples/Peer.antt =====
-- A concrete stream, whose far side sends given bytes after a delay, and a concrete mixnet client,
-- which opens such streams.
use lwd_mixnet_proxy.Common.{
  ℕ, ◌+◌, ◌≡◌, Bool, true, false, ◌&&◌, List, [], ◌∷◌, ◌++◌, leb, ltb, ◌==◌, if◌then◌else◌, Option,
  none, some, Result, ok, err, length, All, arith,
}
use lwd_mixnet_proxy.Common.Words.{IsByte}
use lwd_mixnet_proxy.Handshake.{Io}
use lwd_mixnet_proxy.Dial.Run.{Network}
use lwd_mixnet_proxy.Examples.Ordered.{by_key, by_key-Perm, by_key-InOrder}

-- `incoming` is what the far side will send, and when. `sent` is what it was sent.
pub record Peer : Type 0 where
  pub clock : ℕ
  pub incoming : List (ℕ × List ℕ)
  pub sent : List ℕ

abbrev pub all_bytes : List ℕ → Bool
all_bytes [] = true
all_bytes (b ∷ bs) = if ltb b 256 then all_bytes bs else false

all_bytes_sound : (bs : List ℕ) → all_bytes bs ≡ true → All IsByte bs
all_bytes_sound [] h = tt
all_bytes_sound (b ∷ bs) h = (ground arith, all_bytes_sound bs (ground arith))

abbrev pub in_time : ℕ → ℕ → ℕ → List ℕ → Bool
in_time n timeout delay bytes = leb delay timeout && (length bytes == n) && all_bytes bytes

abbrev pub receive : ℕ → ℕ → Peer → List (ℕ × List ℕ) → Option (Result ℕ (List ℕ)) × Peer
receive n timeout p [] = (none, record p { clock = p.clock + timeout })
receive n timeout p ((delay, bytes) ∷ later) =
    if in_time n timeout delay bytes
    then (some (ok bytes), record p { clock = p.clock + delay; incoming = later })
    else (none, record p { clock = p.clock + timeout })

pub receive_fills :
    (n timeout : ℕ) (p q : Peer) (bytes : List ℕ) (incoming : List (ℕ × List ℕ))
    → receive n timeout p incoming ≡ (some (ok bytes), q)
    → (length bytes ≡ n) × All IsByte bytes
receive_fills n timeout p q bytes [] h = cc
receive_fills n timeout p q bytes ((delay, incoming) ∷ later) h =
    ground (arith, all_bytes_sound incoming)

abbrev pub peer_io : Io Peer ℕ
peer_io = record {
  now = λ p. p.clock;
  write_all = λ bytes p. (ok tt, record p { sent = p.sent ++ bytes });
  flush = λ p. (ok tt, p);
  read_exact_within = λ n timeout p. receive n timeout p p.incoming;
  read_exact_fills = λ n timeout w v bytes. receive_fills n timeout w v bytes w.incoming;
}

-- What the client's next opens give, each taking a moment. Once they are used up it refuses.
pub record Opener : Type 0 where
  pub time : ℕ
  pub opens : List (Result ℕ Peer)

abbrev pub open_next : Opener → List (Result ℕ Peer) → Result ℕ Peer × Opener
open_next o [] = (err 0, o)
open_next o (r ∷ rs) = (r, record { time = o.time + 1; opens = rs })

abbrev pub peer_net : Network Opener Peer ℕ ℕ
peer_net = record {
  io = peer_io;
  clock = λ o. o.time;
  open_stream = λ surbs o. open_next o o.opens;
  stream_at = λ t p. record p { clock = t };
  client_at = λ t o. record o { time = t };
  in_completion_order = by_key;
  completion_perm = by_key-Perm;
  completion_sorted = by_key-InOrder;
}
