-- ===== src/Server/Tasks.antt =====
-- src/bin/server.rs, `serve` in the tasks that `main` spawns, beside each other: the runtime may let any
-- of them go on at any time. A task's calls on the metrics are made one by one. What the runtime
-- answers a stream is a function of that stream, as in `serve`.
pub mod Alone
pub mod Capped
pub mod Counted
pub mod Waits
use lwd_mixnet_proxy.Common.{ℕ, ◌≡◌, List, [], ◌∷◌, ◌++◌, Option, none, some, Result, ok, err}
use lwd_mixnet_proxy.Handshake.{Header, HandshakeError, Io, Wire, accept}
use lwd_mixnet_proxy.Splice.{Ended, Transfer}
use lwd_mixnet_proxy.Splice.Loop.{begin, run}
use lwd_mixnet_proxy.Metrics.{Call}
use lwd_mixnet_proxy.Metrics.Server.{
  ServerMetric, Calls, stream_accepted, stream_rejected, stream_without_request,
  stream_dropped_over_capacity, upstream_unreachable, upstream_connected, in_flight_dropped,
  finished,
}
use lwd_mixnet_proxy.Server.{Settings, Upstream, watchdog, first_chunk}
use lwd_mixnet_proxy.Server.Capacity.{Semaphore}

-- What a task waits for: a stream's handshake, its first request, the upstream's connection, the
-- write of what was read, the splice. `leaving`, it has its permit still; `gone`, it has dropped it.
pub data Stage (W U : Type 0) : Type 0 where
  handshaking : Wire W → Stage W U
  reading : W → Stage W U
  connecting : W → List ℕ → Stage W U
  forwarding : U → W → List ℕ → Stage W U
  splicing : U → W → Stage W U
  leaving gone : Stage W U

pub record Task (W U : Type 0) : Type 0 where
  pub made : Calls
  pub pending : Calls
  pub stage : Stage W U

module _ {W U : Type 0} where
  -- A task as it is spawned with a stream and a permit.
  unfoldable pub spawned : Wire W → Task W U
  spawned wire = record { made = []; pending = []; stage = handshaking wire }

  unfoldable pub call_next : Task W U → Call ServerMetric → Calls → Task W U
  call_next t c later = record t { made = t.made ++ (c ∷ []); pending = later }

  unfoldable pub on_to : Task W U → Calls × Stage W U → Task W U
  on_to t (calls, stage) = record t { pending = calls; stage = stage }

  unfoldable pub end : Task W U → Task W U
  end t = record t { stage = gone }

  -- Where the runtime aborts a task, which it does at an `.await`: its guard is dropped, if it has one.
  unfoldable pub aborted : Stage W U → Calls × Stage W U
  unfolding in_flight_dropped
  aborted (forwarding u w opening) = (in_flight_dropped, leaving)
  aborted (splicing u w) = (in_flight_dropped, leaving)
  aborted gone = ([], gone)
  aborted _ = ([], leaving)

module _ {W U E : Type 0} (io : Io W E) (up : Upstream W U E) (settings : Settings) where
  abbrev pub after_handshake : Result (HandshakeError E) Header × Wire W → Calls × Stage W U
  after_handshake (err error, s) = (stream_rejected error, leaving)
  after_handshake (ok header, s) = (stream_accepted, reading s.stream)

  abbrev pub after_read : Option (Result E (List ℕ)) × W → Calls × Stage W U
  after_read (none, w) = (stream_without_request, leaving)
  after_read (some (err e), w) = (stream_without_request, leaving)
  after_read (some (ok []), w) = (stream_without_request, leaving)
  after_read (some (ok (b ∷ bs)), w) = ([], connecting w (b ∷ bs))

  abbrev pub after_connecting : W → List ℕ → Result E U → Calls × Stage W U
  after_connecting w opening (err e) = (upstream_unreachable, leaving)
  after_connecting w opening (ok u) = (upstream_connected, forwarding u w opening)

  abbrev pub after_forwarding : U → W → Result E (Unit {0}) → Calls × Stage W U
  after_forwarding u w (err e) = (in_flight_dropped, leaving)
  after_forwarding u w (ok _) = ([], splicing u w)

  abbrev pub after_splice : U → W → Option (Transfer × Ended E) → Calls × Stage W U
  after_splice u w none = ([], splicing u w)
  after_splice u w (some (transfer, ended)) =
      (finished transfer ended ++ in_flight_dropped, leaving)

  -- What a task does once what it waits for has come: the calls it makes next, and where it is then.
  unfoldable pub advance : Stage W U → Calls × Stage W U
  unfolding stream_rejected stream_accepted stream_without_request upstream_unreachable
      upstream_connected in_flight_dropped finished
  advance (handshaking s) = after_handshake (accept io settings.handshake_timeout s)
  advance (reading w) = after_read (up.first_read first_chunk settings.first_request_timeout w)
  advance (connecting w opening) = after_connecting w opening (up.connect w)
  advance (forwarding u w opening) = after_forwarding u w (up.write_upstream u opening)
  advance (splicing u w) = after_splice u w (run (watchdog io up settings) begin (up.traffic u w)).1
  advance leaving = ([], leaving)
  advance gone = ([], gone)

  pub data Move (t : Task W U) : Task W U → Calls → Type 0 where
    calls :
        {c : Call ServerMetric} {later : Calls}
        → t.pending ≡ c ∷ later
        → Move t (call_next t c later) (c ∷ [])
    goes_on : t.pending ≡ [] → Move t (on_to t (advance t.stage)) []
    aborts : t.pending ≡ [] → Move t (on_to t (aborted t.stage)) []

-- The half between two steps: the semaphore, the tasks, and the calls on the metrics in their order.
pub record Running (S W U : Type 0) : Type 0 where
  pub capacity : S
  pub tasks : List (Task W U)
  pub calls : Calls

module _ {S W U E : Type 0} (sem : Semaphore S) (io : Io W E) (up : Upstream W U E)
    (settings : Settings) where
  unfoldable pub at_first : ℕ → Running S W U
  at_first max_streams = record { capacity = sem.new max_streams; tasks = []; calls = [] }

  pub data Step (s : Running S W U) : Running S W U → Type 0 where
    takes_in :
        {rest : S} (wire : Wire W)
        → sem.try_acquire s.capacity ≡ some rest
        → Step s (record s { capacity = rest; tasks = spawned wire ∷ s.tasks })
    drops :
        sem.try_acquire s.capacity ≡ none
        → Step s (record s { calls = s.calls ++ stream_dropped_over_capacity })
    picks :
        (before after : List (Task W U)) {t t' : Task W U} {made : Calls}
        → s.tasks ≡ before ++ (t ∷ after)
        → Move io up settings t t' made
        → Step s (record s { tasks = before ++ (t' ∷ after); calls = s.calls ++ made })
    ends :
        (before after : List (Task W U)) (t : Task W U)
        → s.tasks ≡ before ++ (t ∷ after)
        → t.pending ≡ []
        → t.stage ≡ leaving
        → Step s (record s { capacity = sem.release s.capacity; tasks = before ++ (end t ∷ after) })

  pub data Reach (s : Running S W U) : Running S W U → Type 0 where
    start : Reach s s
    later : {t u : Running S W U} → Reach s t → Step t u → Reach s u
