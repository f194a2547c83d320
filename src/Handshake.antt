-- ===== src/Handshake.antt =====
-- src/handshake.rs: the header both halves exchange before a wallet byte moves, and the three calls
-- that exchange it. A stream is reached through `Io`, the calls of tokio that the code makes.
pub mod Codec
pub mod Exchange
pub mod Tokens
use lwd_mixnet_proxy.Common.{
  ℕ, ◌+◌, ◌-◌, ◌%◌, ◌≡◌, Bool, true, false, not, List, [], ◌∷◌, ◌++◌, Option, none, some, Result,
  ok, err, Task, ◌>>=◌, ◌>>◌, pure, map_err, ◌==◌, if◌then◌else◌, bit_and, length, take, drop,
  get_or, All,
}
use lwd_mixnet_proxy.Common.Words.{be_bytes, from_be_bytes, u64_mod, IsByte}

-- "LWMP"
abbrev pub magic : List ℕ
magic = b'L' ∷ b'W' ∷ b'M' ∷ b'P' ∷ []

abbrev pub version : ℕ
version = 1

abbrev pub flag_echo : ℕ
flag_echo = 0b0000_0001

abbrev pub header_len : ℕ
header_len = 14

pub record Header : Type 0 where
  pub echo_requested : Bool
  pub token : ℕ

-- `IoError` is `io::Error`. Durations are nanoseconds.
pub data HandshakeError (IoError : Type 0) : Type 0 where
  timed_out : ℕ → HandshakeError IoError
  read : IoError → HandshakeError IoError
  write : IoError → HandshakeError IoError
  foreign_stream : HandshakeError IoError
  unsupported_version : ℕ → HandshakeError IoError
  token_mismatch : ℕ → ℕ → HandshakeError IoError

-- `Header::next`: the counter `NEXT_TOKEN` is handed in and out. `fetch_add` wraps.
unfoldable pub next : Bool → ℕ → Header × ℕ
next echo next_token =
    (record { echo_requested = echo; token = next_token }, (next_token + 1) % u64_mod)

unfoldable pub encode : Header → List ℕ
encode h = magic ++ (version ∷ (if h.echo_requested then flag_echo else 0) ∷ be_bytes 8 h.token)

abbrev pub bytes_eq : List ℕ → List ℕ → Bool
bytes_eq [] [] = true
bytes_eq (x ∷ xs) (y ∷ ys) = if x == y then bytes_eq xs ys else false
bytes_eq _ _ = false

-- The argument is the `[u8; HEADER_LEN]` of the source: 14 bytes.
unfoldable pub decode : {E : Type 0} → List ℕ → Result (HandshakeError E) Header
decode bytes =
    if not (bytes_eq (take 4 bytes) magic)
    then err foreign_stream
    else if not (get_or bytes 4 0 == version)
    then err (unsupported_version (get_or bytes 4 0))
    else ok (record {
      echo_requested = not (bit_and (get_or bytes 5 0) flag_echo == 0);
      token = from_be_bytes (drop 6 bytes);
    })

-- What the code asks of a stream and of the clock. `W` is the stream's state, the peer and the
-- time included. `read_exact_within n timeout` is `timeout(timeout, read_exact)` on a buffer of
-- `n` bytes: `none` where the deadline passes first. A successful one fills the buffer.
pub record Io (W E : Type 0) : Type 0 where
  pub now : W → ℕ
  pub write_all : List ℕ → W → Result E (Unit {0}) × W
  pub flush : W → Result E (Unit {0}) × W
  pub read_exact_within : ℕ → ℕ → W → Option (Result E (List ℕ)) × W
  pub read_exact_fills :
      (n timeout : ℕ) (w v : W) (bytes : List ℕ)
      → read_exact_within n timeout w ≡ (some (ok bytes), v)
      → (length bytes ≡ n) × All IsByte bytes

-- The stream, and the process-wide counter `NEXT_TOKEN`.
pub record Wire (W : Type 0) : Type 0 where
  pub stream : W
  pub next_token : ℕ

module _ {W E : Type 0} (io : Io W E) where
  -- A call on the stream leaves the counter alone.
  abbrev pub on_stream : {A : Type 0} → A × W → ℕ → A × Wire W
  on_stream (a, w) counter = (a, record { stream = w; next_token = counter })

  abbrev pub next_header : Bool → Wire W → Header × Wire W
  next_header echo s =
      let (header, counter) = next echo s.next_token in (header, record s { next_token = counter })

  abbrev pub write_all : List ℕ → Task (Wire W) (HandshakeError E) (Unit {0})
  write_all bytes s = map_err write (on_stream (io.write_all bytes s.stream) s.next_token)

  abbrev pub flush : Task (Wire W) (HandshakeError E) (Unit {0})
  flush s = map_err write (on_stream (io.flush s.stream) s.next_token)

  unfoldable pub write_header : Header → Task (Wire W) (HandshakeError E) (Unit {0})
  write_header header = do write_all (encode header); flush

  -- What `read_exact` and then the deadline make of a read.
  abbrev pub read_result :
      ℕ → Option (Result E (List ℕ)) × Wire W → Result (HandshakeError E) Header × Wire W
  read_result timeout (none, s) = (err (timed_out timeout), s)
  read_result timeout (some (err e), s) = (err (read e), s)
  read_result timeout (some (ok bytes), s) = (decode bytes, s)

  -- `timeout(timeout, read_header(stream))`: reading under the deadline, then decoding.
  unfoldable pub read_header : ℕ → Task (Wire W) (HandshakeError E) Header
  read_header timeout s =
      read_result timeout
        (on_stream (io.read_exact_within header_len timeout s.stream) s.next_token)

  -- The check of the token that came back, and the time that the round trip took.
  unfoldable pub compare_token : Header → Header → ℕ → Task (Wire W) (HandshakeError E) ℕ
  compare_token sent echoed started s =
      if not (echoed.token == sent.token)
      then (err (token_mismatch sent.token echoed.token), s)
      else (ok (io.now s.stream - started), s)

  unfoldable pub probe : ℕ → Task (Wire W) (HandshakeError E) ℕ
  unfolding write_header read_header compare_token
  probe timeout s =
      let started = io.now s.stream in
      let (sent, s') = next_header true s in
      (do write_header sent; echoed ← read_header timeout; compare_token sent echoed started) s'

  unfoldable pub announce : Task (Wire W) (HandshakeError E) (Unit {0})
  unfolding write_header
  announce s = let (header, s') = next_header false s in write_header header s'

  pub echo_back : Header → Task (Wire W) (HandshakeError E) (Unit {0})
  unfolding write_header
  echo_back header = if header.echo_requested then write_header header else pure tt

  unfoldable pub accept : ℕ → Task (Wire W) (HandshakeError E) Header
  unfolding read_header echo_back
  accept timeout = do header ← read_header timeout; echo_back header; pure header
