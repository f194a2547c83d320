-- ===== src/Examples/Headers.antt =====
-- Headers on the wire: runs, and the theorems of `Handshake` at concrete inputs.
use lwd_mixnet_proxy.Common.{
  ℕ, ◌≡◌, ◌↔◌, refl, true, false, List, [], ◌∷◌, ◌++◌, ok, err, take, drop, get_or, bit_and, arith,
}
use lwd_mixnet_proxy.Common.Words.{IsU64, be_bytes, from_be_bytes}
use lwd_mixnet_proxy.Handshake.{
  Header, foreign_stream, unsupported_version, timed_out, Wire, flag_echo, next, encode, decode,
  probe, accept,
}
use lwd_mixnet_proxy.Handshake.Codec.{decode-encode, encode-decode}
use lwd_mixnet_proxy.Handshake.Tokens.{headers, headers-OwnTokens, OwnTokens}
use lwd_mixnet_proxy.Handshake.Exchange.{
  Echoed, Accepted, probe_header, probe-Echoed, accept-Accepted, probe-accept,
}
use lwd_mixnet_proxy.Examples.Peer.{Peer, peer_io}

abbrev pub asking : Header
asking = record { echo_requested = true; token = 7 }

abbrev pub wire_bytes : List ℕ
wire_bytes = 76 ∷ 87 ∷ 77 ∷ 80 ∷ 1 ∷ 1 ∷ 0 ∷ 0 ∷ 0 ∷ 0 ∷ 0 ∷ 0 ∷ 0 ∷ 7 ∷ []

-- The same with a flag bit set that means nothing.
abbrev odd_flags : List ℕ
odd_flags = 76 ∷ 87 ∷ 77 ∷ 80 ∷ 1 ∷ 3 ∷ 0 ∷ 0 ∷ 0 ∷ 0 ∷ 0 ∷ 0 ∷ 0 ∷ 7 ∷ []

encode-asking : encode asking ≡ wire_bytes
unfolding encode be_bytes
encode-asking = refl

decode-odd_flags : decode {E = ℕ} odd_flags ≡ ok asking
unfolding decode from_be_bytes
decode-odd_flags = refl

decode_foreign : decode {E = ℕ} (0 ∷ wire_bytes) ≡ err foreign_stream
unfolding decode
decode_foreign = refl

decode_newer : decode {E = ℕ} (76 ∷ 87 ∷ 77 ∷ 80 ∷ 2 ∷ []) ≡ err (unsupported_version 2)
unfolding decode
decode_newer = refl

decode-encode_example : decode {E = ℕ} (encode asking) ≡ ok asking
decode-encode_example = decode-encode asking (omega arith)

encode-decode_example :
    IsU64 7
    × (encode asking
        ≡ take 5 odd_flags ++ (bit_and (get_or odd_flags 5 0) flag_echo ∷ drop 6 odd_flags))
encode-decode_example =
    encode-decode {E = ℕ} odd_flags {h = asking} refl (omega arith) decode-odd_flags

headers-OwnTokens_example : OwnTokens (headers 0xffff_ffff_ffff_fffe (true ∷ false ∷ true ∷ []))
headers-OwnTokens_example =
    headers-OwnTokens 0xffff_ffff_ffff_fffe (true ∷ false ∷ true ∷ []) (omega arith) (omega arith)

-- A far side that sends the header of token 7 after 5 ns.
abbrev echoing : Wire Peer
echoing = record {
  stream = record { clock = 100; incoming = (5, wire_bytes) ∷ []; sent = [] };
  next_token = 7;
}

abbrev echoed : Wire Peer
echoed = record {
  stream = record { clock = 105; incoming = []; sent = wire_bytes };
  next_token = 8;
}

probe_echoing : probe peer_io 10 echoing ≡ (ok 5, echoed)
unfolding probe next encode be_bytes decode from_be_bytes
probe_echoing = refl

probe_late : (probe peer_io 4 echoing).0 ≡ err (timed_out 4)
unfolding probe next encode be_bytes decode from_be_bytes
probe_late = refl

probe-Echoed_example :
    (probe peer_io 10 echoing ≡ (ok 5, echoed)) ↔ Echoed peer_io 10 echoing 5 echoed
probe-Echoed_example = probe-Echoed peer_io 10 echoing 5 echoed

abbrev accepted : Wire Peer
accepted = record {
  stream = record { clock = 105; incoming = []; sent = wire_bytes };
  next_token = 7;
}

accept-echoing : accept peer_io 30 echoing ≡ (ok asking, accepted)
unfolding accept encode be_bytes decode from_be_bytes
accept-echoing = refl

accept-Accepted_example :
    (accept peer_io 30 echoing ≡ (ok asking, accepted))
    ↔ Accepted peer_io 30 echoing asking accepted
accept-Accepted_example = accept-Accepted peer_io 30 echoing asking accepted

abbrev asked_peer : Peer
asked_peer = record { clock = 100; incoming = (5, wire_bytes) ∷ []; sent = wire_bytes }

abbrev idle_peer : Peer
idle_peer = record { clock = 105; incoming = []; sent = [] }

probe-accept_example :
    (accept peer_io 30 echoing ≡ (ok (probe_header peer_io echoing), accepted))
    × (probe peer_io 10 echoing ≡ (ok 5, echoed))
unfolding next encode be_bytes
probe-accept_example =
    probe-accept peer_io echoing echoing 30 10 asked_peer idle_peer accepted.stream echoed.stream
      (omega arith) (record { written = asked_peer; writes = refl; flushes = refl }) refl
      (record { written = accepted.stream; writes = refl; flushes = refl }) refl
