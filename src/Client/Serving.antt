-- ===== src/Client/Serving.antt =====
-- src/bin/client.rs, `main` from its loop on, and `drain`: connections accepted, reaped and let
-- finish. What `select!` finds ready is an event.
use lwd_mixnet_proxy.Common.{
  ℕ, ◌+◌, ◌-◌, ◌≤◌, ◌≡◌, Bool, true, false, List, [], ◌∷◌, ◌==◌, if◌then◌else◌, Option, none, some,
  min,
}

pub data Event : Type 0 where
  connection_accepted connection_refused connection_done client_is_dead asked_to_stop : Event

-- `in_flight` is the length of the `JoinSet`, `spawned` and `reaped` what went in and came out.
pub record Serving : Type 0 where
  pub in_flight : ℕ
  pub spawned : ℕ
  pub reaped : ℕ
  pub shutting_down : Bool

-- How `main` ends: by `return Ok(())` or by `bail!`, with the connections that were abandoned.
pub data Exit : Type 0 where
  stopped : ℕ → Exit
  bailed : ℕ → Exit

unfoldable pub begin_serving : Serving
begin_serving = record { in_flight = 0; spawned = 0; reaped = 0; shutting_down = false }

-- `drain`: how many are abandoned, if `finishing` would end within the grace period.
unfoldable pub drain : ℕ → ℕ → ℕ
drain in_flight finishing = if in_flight == 0 then 0 else in_flight - min in_flight finishing

-- `shutting_down.send(true)`.
abbrev pub shut_down : Serving → Serving
shut_down s = record s { shutting_down = true }

-- One turn of the loop. A connection that is not accepted costs a pause and nothing else; the branch
-- that reaps is closed while nothing is in flight.
unfoldable pub serve_one : ℕ → Serving → Event → Serving × Option Exit
unfolding drain
serve_one finishing s connection_accepted =
    (record s { in_flight = s.in_flight + 1; spawned = s.spawned + 1 }, none)
serve_one finishing s connection_refused = (s, none)
serve_one finishing s connection_done =
    if s.in_flight == 0
    then (s, none)
    else (record s { in_flight = s.in_flight - 1; reaped = s.reaped + 1 }, none)
serve_one finishing s client_is_dead = (shut_down s, some (bailed (drain s.in_flight finishing)))
serve_one finishing s asked_to_stop = (shut_down s, some (stopped (drain s.in_flight finishing)))

abbrev stop_or : Serving × Option Exit → Serving × Option Exit → Serving × Option Exit
stop_or (s, none) rest = rest
stop_or (s, some exit) rest = (s, some exit)

unfoldable pub serve_all : ℕ → Serving → List Event → Serving × Option Exit
unfolding serve_one
serve_all finishing s [] = (s, none)
serve_all finishing s (e ∷ later) =
    let rest = serve_all finishing (serve_one finishing s e).0 later in
    stop_or (serve_one finishing s e) rest

abbrev pub HowLeft : Serving → Option Exit → Type 0
HowLeft s none = s.shutting_down ≡ false
HowLeft s (some (stopped abandoned)) = (s.shutting_down ≡ true) × (abandoned ≤ s.in_flight)
HowLeft s (some (bailed abandoned)) = (s.shutting_down ≡ true) × (abandoned ≤ s.in_flight)

-- Every connection taken in is reaped or still in flight, and shutting down is announced
-- exactly when the loop is left.
pub record IsAccounted (r : Serving × Option Exit) : Type 0 where
  pub balance : r.0.spawned ≡ r.0.in_flight + r.0.reaped
  pub left : HowLeft r.0 r.1
