-- ===== src/Endpoint/Serving.antt =====
-- src/endpoint.rs, `serve`: the loop that takes connections in, over what becomes ready. A connection
-- that is taken in is hyper's: all that is known of it is that `route` answers each request on it,
-- with the health at that time and what the registry gathers then.
use Prim.Native.String.{String}
use lwd_mixnet_proxy.Common.{
  ℕ, suc, ◌+◌, ◌≡◌, refl, sym, Bool, true, false, not, List, [], ◌∷◌, ◌++◌, ◌==◌, if◌then◌else◌,
  Result, arith,
}
use mathlib.Core.List.{append_assoc, append-nil}
use lwd_mixnet_proxy.Health.{Health}
use lwd_mixnet_proxy.Endpoint.{Request, Response, route}

pub data Event (P : Type 0) : Type 0 where
  accepted refused shutdown : Event P
  asked : Request → Result P String → Health → Event P

-- `open` until `serve` returns. The tasks of the connections go on after that.
pub record Serving : Type 0 where
  pub open_still : Bool
  pub connections : ℕ
  pub replies : List Response

abbrev pub begin_endpoint : Serving
begin_endpoint = record { open_still = true; connections = 0; replies = [] }

module _ {P : Type 0} where
  unfoldable pub serve_event : Serving → Event P → Serving
  unfolding route
  serve_event s accepted = if s.open_still then record s { connections = s.connections + 1 } else s
  serve_event s refused = s
  serve_event s shutdown = record s { open_still = false }
  serve_event s (asked request gathered health) =
      if s.connections == 0
      then s
      else record s { replies = s.replies ++ (route gathered request health ∷ []) }

  unfoldable pub serve_events : Serving → List (Event P) → Serving
  unfolding serve_event
  serve_events s [] = s
  serve_events s (e ∷ later) = serve_events (serve_event s e) later

  -- The connections that come before the first shutdown.
  abbrev pub accepted_in : List (Event P) → ℕ
  accepted_in [] = 0
  accepted_in (accepted ∷ later) = suc (accepted_in later)
  accepted_in (refused ∷ later) = accepted_in later
  accepted_in (shutdown ∷ later) = 0
  accepted_in (asked request gathered health ∷ later) = accepted_in later

  abbrev pub stops_in : List (Event P) → Bool
  stops_in [] = false
  stops_in (shutdown ∷ later) = true
  stops_in (_ ∷ later) = stops_in later

  -- What the requests are answered with, from the first connection on, which may be there before.
  abbrev pub answers_to : Bool → Bool → List (Event P) → List Response
  answers_to up there [] = []
  answers_to up there (accepted ∷ later) = answers_to up (if up then true else there) later
  answers_to up there (refused ∷ later) = answers_to up there later
  answers_to up there (shutdown ∷ later) = answers_to false there later
  answers_to up there (asked request gathered health ∷ later) =
      let rest = answers_to up there later in
      if there then route gathered request health ∷ rest else rest

  serve_closed :
      (events : List (Event P)) (s : Serving)
      → s.open_still ≡ false
      → ((serve_events s events).open_still ≡ false)
        × ((serve_events s events).connections ≡ s.connections)
  unfolding serve_events serve_event
  serve_closed [] s h = (h, refl)
  serve_closed (accepted ∷ later) s h = ground (arith, serve_closed later (serve_event s accepted))
  serve_closed (refused ∷ later) s h = serve_closed later s h
  serve_closed (shutdown ∷ later) s h = serve_closed later (serve_event s shutdown) refl
  serve_closed (asked r g health ∷ later) s h =
      ground (arith, serve_closed later (serve_event s (asked r g health)))

  serve_open :
      (events : List (Event P)) (s : Serving)
      → s.open_still ≡ true
      → ((serve_events s events).open_still ≡ (if stops_in events then false else true))
        × ((serve_events s events).connections ≡ s.connections + accepted_in events)
  unfolding serve_events serve_event
  serve_open [] s h = (h, omega arith)
  serve_open (accepted ∷ later) s h = ground (arith, serve_open later (serve_event s accepted))
  serve_open (refused ∷ later) s h = serve_open later s h
  serve_open (shutdown ∷ later) s h = ground (arith, serve_closed later (serve_event s shutdown))
  serve_open (asked r g health ∷ later) s h =
      ground (arith, serve_open later (serve_event s (asked r g health)))

  replies_lem :
      (events : List (Event P)) (s : Serving)
      → (serve_events s events).replies
        ≡ s.replies ++ answers_to s.open_still (not (s.connections == 0)) events
  unfolding serve_events serve_event
  replies_lem [] s = sym (append-nil s.replies)
  replies_lem (accepted ∷ later) s =
      ground (arith, replies_lem later (serve_event s accepted), replies_lem later s)
  replies_lem (refused ∷ later) s = replies_lem later s
  replies_lem (shutdown ∷ later) s = replies_lem later (serve_event s shutdown)
  replies_lem (asked r g health ∷ later) s = ground (
    arith,
    replies_lem later (serve_event s (asked r g health)),
    replies_lem later s,
    append_assoc s.replies (route g r health ∷ [])
        (answers_to s.open_still (not (s.connections == 0)) later),
  )

  -- The endpoint's loop, over whatever becomes ready. It goes on until it is told to shut down; it
  -- takes in every connection up to then, none after, and a connection that it could not take in
  -- changes nothing; and once there is a connection each request is answered, in order, by `route`.
  pub serve_events-answers_to :
      (events : List (Event P))
      → let s = serve_events begin_endpoint events in
        (s.open_still ≡ (if stops_in events then false else true))
        × (s.connections ≡ accepted_in events)
        × (s.replies ≡ answers_to true false events)
  serve_events-answers_to events =
      let (open_still, connections) = serve_open events begin_endpoint refl in
      (open_still, omega (arith, connections), replies_lem events begin_endpoint)
