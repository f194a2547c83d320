-- ===== src/Handshake/Exchange.antt =====
-- src/handshake.rs, `probe` and `accept`: the exchange of headers.
use mathlib.Core.Path.{subst, subst₂}
use lwd_mixnet_proxy.Common.{
  ℕ, ◌+◌, ◌-◌, ◌%◌, ◌≡◌, ◌↔◌, refl, Bool, true, false, List, Option, none, some, Result, ok, err,
  arith, ◌∙◌, sym, map_err, and_then, and_then-eq-ok,
}
use lwd_mixnet_proxy.Common.Words.{IsU64, u64_mod}
use lwd_mixnet_proxy.Handshake.{
  Header, Io, Wire, header_len, next, encode, decode, probe, accept, write, read_result, on_stream,
  flush, write_header, read_header, compare_token, next_header, echo_back,
}
use lwd_mixnet_proxy.Handshake.Codec.{decode-encode}

module _ {W E : Type 0} (io : Io W E) where
  -- `bytes` are written and flushed, which takes the stream from `w` to `v`.
  pub record Sent (bytes : List ℕ) (w v : W) : Type 0 where
    pub written : W
    pub writes : io.write_all bytes w ≡ (ok tt, written)
    pub flushes : io.flush written ≡ (ok tt, v)

  -- A header arrives whole within `timeout`, which takes the stream from `w` to `v`.
  pub record Received (timeout : ℕ) (h : Header) (w v : W) : Type 0 where
    pub bytes : List ℕ
    pub reads : io.read_exact_within header_len timeout w ≡ (some (ok bytes), v)
    pub decodes : decode {E = E} bytes ≡ ok h

  -- The whole exchange of a probe that holds: its header goes out, and one with its token comes
  -- back in time.
  pub record Echoed (timeout : ℕ) (s : Wire W) (d : ℕ) (s' : Wire W) : Type 0 where
    pub asked : W
    pub sent : Sent (encode (next true s.next_token).0) s.stream asked
    pub echo : Header
    pub received : Received timeout echo asked s'.stream
    pub own_token : echo.token ≡ s.next_token
    pub took : d ≡ io.now s'.stream - io.now s.stream
    pub counted : s'.next_token ≡ (s.next_token + 1) % u64_mod

  probe-Echoed_of :
      (timeout : ℕ) (s : Wire W) (d : ℕ) (s' : Wire W)
      → Echoed timeout s d s'
      → probe io timeout s ≡ (ok d, s')
  unfolding probe next
  probe-Echoed_of timeout s d s' x = ground arith

  flush_to :
      (bytes : List ℕ) (w : W) (counter : ℕ) (s' : Wire W) (r : Result E (Unit {0}) × W)
      → io.flush w ≡ r
      → map_err write (on_stream io r counter) ≡ (ok tt, s')
      → (io.flush w ≡ (ok tt, s'.stream)) × (s'.next_token ≡ counter)
  flush_to bytes w counter s' (ok tt, v) e h = ground arith
  flush_to bytes w counter s' (err x, v) e h = cc

  write_all_to :
      (header : Header) (s s' : Wire W) (r : Result E (Unit {0}) × W)
      → io.write_all (encode header) s.stream ≡ r
      → and_then (map_err write (on_stream io r s.next_token)) (λ _. flush io) ≡ (ok tt, s')
      → Sent (encode header) s.stream s'.stream × (s'.next_token ≡ s.next_token)
  write_all_to header s s' (ok tt, v) e h =
      let (f, c) = flush_to (encode header) v s.next_token s' (io.flush v) refl h in
      (record { written = v; writes = e; flushes = f }, c)
  write_all_to header s s' (err x, v) e h = cc

  pub write_header-Sent :
      (header : Header) (s s' : Wire W)
      → write_header io header s ≡ (ok tt, s')
      → Sent (encode header) s.stream s'.stream × (s'.next_token ≡ s.next_token)
  unfolding write_header
  write_header-Sent header s s' h = write_all_to header s s' _ refl h

  read_to :
      (timeout : ℕ) (header : Header) (s s' : Wire W) (r : Option (Result E (List ℕ)) × W)
      → io.read_exact_within header_len timeout s.stream ≡ r
      → read_result io timeout (on_stream io r s.next_token) ≡ (ok header, s')
      → Received timeout header s.stream s'.stream × (s'.next_token ≡ s.next_token)
  read_to timeout header s s' (none, v) e h = cc
  read_to timeout header s s' (some (err x), v) e h = cc
  read_to timeout header s s' (some (ok bytes), v) e h =
      (record { bytes = bytes; reads = e ∙ ground arith; decodes = ground arith }, ground arith)

  pub read_header-Received :
      (timeout : ℕ) (header : Header) (s s' : Wire W)
      → read_header io timeout s ≡ (ok header, s')
      → Received timeout header s.stream s'.stream × (s'.next_token ≡ s.next_token)
  unfolding read_header
  read_header-Received timeout header s s' h = read_to timeout header s s' _ refl h

  compare_token_to :
      (sent echo : Header) (started : ℕ) (s s' : Wire W) (d : ℕ)
      → compare_token io sent echo started s ≡ (ok d, s')
      → (echo.token ≡ sent.token) × (d ≡ io.now s.stream - started) × (s' ≡ s)
  unfolding compare_token
  compare_token_to sent echo started s s' d h = ground arith

  probe-Echoed_to :
      (timeout : ℕ) (s : Wire W) (d : ℕ) (s' : Wire W)
      → probe io timeout s ≡ (ok d, s')
      → Echoed timeout s d s'
  unfolding probe next
  probe-Echoed_to timeout s d s' x =
      let (sent, begun) = next_header io true s in
      let (u, s1, wrote, more) = and_then-eq-ok (write_header io sent begun) _ x in
      let (echo, s2, heard, last) = and_then-eq-ok (read_header io timeout s1) _ more in
      let wrote' = write_header-Sent sent begun s1 (ground (arith, wrote)) in
      let heard' = read_header-Received timeout echo s1 s2 heard in
      let (own, took, same) = compare_token_to sent echo (io.now s.stream) s2 s' d last in
      record {
        asked = s1.stream;
        sent = wrote'.0;
        echo = echo;
        received =
            subst (λ (z : Wire W). Received timeout echo s1.stream z.stream) (sym same) heard'.0;
        own_token = own;
        took = rw same took;
        counted = rw (same, heard'.1, wrote'.1);
      }

  -- A probe succeeds exactly when its own header was written and flushed and a header with its
  -- token was read back before the deadline; it answers with the time from the start to then, and
  -- has moved the counter on by one.
  pub probe-Echoed :
      (timeout : ℕ) (s : Wire W) (d : ℕ) (s' : Wire W)
      → (probe io timeout s ≡ (ok d, s')) ↔ Echoed timeout s d s'
  probe-Echoed timeout s d s' = (probe-Echoed_to timeout s d s', probe-Echoed_of timeout s d s')

  -- What the listener did with a header: wrote it back if that was asked for, and nothing else.
  abbrev pub Replied : Bool → Header → W → W → Type 0
  Replied true h w v = Sent (encode h) w v
  Replied false h w v = w ≡ v

  pub record Accepted (timeout : ℕ) (s : Wire W) (h : Header) (s' : Wire W) : Type 0 where
    pub heard : W
    pub received : Received timeout h s.stream heard
    pub replied : Replied h.echo_requested h heard s'.stream
    pub uncounted : s'.next_token ≡ s.next_token

  echo_back-Replied :
      (b : Bool) (h : Header) (s s' : Wire W)
      → h.echo_requested ≡ b
      → echo_back io h s ≡ (ok tt, s')
      → Replied b h s.stream s'.stream × (s'.next_token ≡ s.next_token)
  unfolding echo_back
  echo_back-Replied true h s s' b e = write_header-Sent h s s' (ground arith)
  echo_back-Replied false h s s' b e = ground arith

  accept-Accepted_of :
      (timeout : ℕ) (s : Wire W) (h : Header) (s' : Wire W)
      → Accepted timeout s h s'
      → accept io timeout s ≡ (ok h, s')
  unfolding accept
  accept-Accepted_of timeout s h s' x = ground arith

  accept-Accepted_to :
      (timeout : ℕ) (s : Wire W) (h : Header) (s' : Wire W)
      → accept io timeout s ≡ (ok h, s')
      → Accepted timeout s h s'
  unfolding accept
  accept-Accepted_to timeout s h s' x =
      let (header, s1, heard, more) = and_then-eq-ok (read_header io timeout s) _ x in
      let (u, s2, echoed, last) = and_then-eq-ok (echo_back io header s1) _ more in
      let heard' = read_header-Received timeout header s s1 heard in
      let echoed' =
        echo_back-Replied header.echo_requested header s1 s2 refl (ground (arith, echoed)) in
      let same : (header ≡ h) × (s2 ≡ s') = ground (arith, last) in
      subst₂ (Accepted timeout s) same.0 same.1 (record {
        heard = s1.stream;
        received = heard'.0;
        replied = echoed'.0;
        uncounted = echoed'.1 ∙ heard'.1;
      })

  -- The listener accepts a stream exactly when a whole header arrives before the deadline and, if
  -- that header asks for it, the same header has been written back and flushed. It takes no token.
  pub accept-Accepted :
      (timeout : ℕ) (s : Wire W) (h : Header) (s' : Wire W)
      → (accept io timeout s ≡ (ok h, s')) ↔ Accepted timeout s h s'
  accept-Accepted timeout s h s' =
      (accept-Accepted_to timeout s h s', accept-Accepted_of timeout s h s')

  abbrev pub probe_header : Wire W → Header
  probe_header s = (next true s.next_token).0

  -- A probe meets a listener. If the writes and flushes of both succeed and the bytes of the
  -- probe's header, whose token has 64 bits, arrive whole and in time, the listener accepts that
  -- header by writing the same bytes back, and if those arrive whole and in time the probe
  -- succeeds.
  pub probe-accept :
      (dialler listener : Wire W) (patience timeout : ℕ) (asked heard answered returned : W)
      → IsU64 dialler.next_token
      → Sent (encode (probe_header dialler)) dialler.stream asked
      → io.read_exact_within header_len patience listener.stream
        ≡ (some (ok (encode (probe_header dialler))), heard)
      → Sent (encode (probe_header dialler)) heard answered
      → io.read_exact_within header_len timeout asked
        ≡ (some (ok (encode (probe_header dialler))), returned)
      → (accept io patience listener
          ≡ (ok (probe_header dialler), record listener { stream = answered }))
        × (probe io timeout dialler ≡ (
          ok (io.now returned - io.now dialler.stream),
          record { stream = returned; next_token = (dialler.next_token + 1) % u64_mod },
        ))
  unfolding next
  probe-accept dialler listener patience timeout asked heard answered returned fits go arrives back
        echo =
      let readable = decode-encode {E = E} (probe_header dialler) fits in
      (
        accept-Accepted_of patience listener (probe_header dialler) _ (record {
          heard = heard;
          received = record { bytes = _; reads = arrives; decodes = readable };
          replied = back;
          uncounted = refl;
        }),
        probe-Echoed_of timeout dialler _ _ (record {
          asked = asked;
          sent = go;
          echo = probe_header dialler;
          received = record { bytes = _; reads = echo; decodes = readable };
          own_token = refl;
          took = refl;
          counted = refl;
        }),
      )
