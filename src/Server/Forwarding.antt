-- ===== src/Server/Forwarding.antt =====
-- src/bin/server.rs, `serve`: what has happened where a stream is spliced.
use lwd_mixnet_proxy.Common.{ℕ, ◌≡◌, refl, List, [], ◌∷◌, Option, none, some, Result, ok, err}
use lwd_mixnet_proxy.Handshake.{Header, HandshakeError, Io, Wire, accept}
use lwd_mixnet_proxy.Splice.{Ended, Transfer}
use lwd_mixnet_proxy.Splice.Loop.{begin, run}
use lwd_mixnet_proxy.Server.{
  Settings, Upstream, spliced, after_write, after_connect, reach_upstream, first_request,
  after_accept, first_chunk, serve, watchdog,
}

module _ {W U E : Type 0} (io : Io W E) (up : Upstream W U E) (settings : Settings) where
  -- The stream `w` was spliced with `u`, which had been written `opening`.
  pub record Joined (o : Option (Transfer × Ended E)) (opening : List ℕ) (w : W) (u : U)
      : Type 0 where
    pub connected : up.connect w ≡ ok u
    pub forwarded : up.write_upstream u opening ≡ ok tt
    pub result : o ≡ (run (watchdog io up settings) begin (up.traffic u w)).1

  after_write-Joined :
      (u : U) (w : W) (opening : List ℕ) (r : Result E (Unit {0})) (o : Option (Transfer × Ended E))
      → up.connect w ≡ ok u
      → up.write_upstream u opening ≡ r
      → (after_write io up settings u w r).1 ≡ spliced o
      → Joined o opening w u
  after_write-Joined u w opening (err e) o c h s = cc
  after_write-Joined u w opening (ok tt) o c h s = record {
    connected = c;
    forwarded = h;
    result = cc s;
  }

  after_connect-Joined :
      (w : W) (opening : List ℕ) (r : Result E U) (o : Option (Transfer × Ended E))
      → up.connect w ≡ r
      → (after_connect io up settings w opening r).1 ≡ spliced o
      → (u : U) × Joined o opening w u
  after_connect-Joined w opening (err e) o c s = cc
  after_connect-Joined w opening (ok u) o c s =
      (u, after_write-Joined u w opening (up.write_upstream u opening) o c refl s)

  -- How a stream that is spliced got there.
  pub record Forwarded (s : Wire W) (o : Option (Transfer × Ended E)) : Type 0 where
    pub header : Header
    pub opening : List ℕ
    pub stream : W
    pub upstream : U
    pub taken : (accept io settings.handshake_timeout s).0 ≡ ok header
    pub asked :
        up.first_read first_chunk settings.first_request_timeout
          (accept io settings.handshake_timeout s).1.stream
        ≡ (some (ok opening), stream)
    pub joined : Joined o opening stream upstream

  first_request-Joined :
      (read : Option (Result E (List ℕ)) × W) (o : Option (Transfer × Ended E))
      → (first_request io up settings read).1 ≡ spliced o
      → (opening : List ℕ) × (w : W) × (u : U) × (read ≡ (some (ok opening), w))
        × Joined o opening w u
  unfolding first_request reach_upstream
  first_request-Joined (none, w) o s = cc
  first_request-Joined (some (err e), w) o s = cc
  first_request-Joined (some (ok []), w) o s = cc
  first_request-Joined (some (ok (b ∷ bs)), w) o s =
      let (u, j) = after_connect-Joined w (b ∷ bs) (up.connect w) o refl s in
      (b ∷ bs, w, u, refl, j)

  after_accept-Forwarded :
      (r : Result (HandshakeError E) Header × Wire W) (s : Wire W) (o : Option (Transfer × Ended E))
      → accept io settings.handshake_timeout s ≡ r
      → (after_accept io up settings r).1 ≡ spliced o
      → Forwarded s o
  after_accept-Forwarded (err e, v) s o a h = cc
  after_accept-Forwarded (ok header, v) s o a h =
      let (opening, w, u, e, j) =
        first_request-Joined (up.first_read first_chunk settings.first_request_timeout v.stream) o
          h in
      record {
        header = header;
        opening = opening;
        stream = w;
        upstream = u;
        taken = cc a;
        asked = rw a e;
        joined = j;
      }

  pub serve-Forwarded :
      (s : Wire W) (o : Option (Transfer × Ended E))
      → (serve io up settings s).1 ≡ spliced o
      → Forwarded s o
  unfolding serve
  serve-Forwarded s o h = after_accept-Forwarded _ s o refl h
