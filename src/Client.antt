-- ===== src/Client.antt =====
-- src/bin/client.rs, `carry`: one wallet connection, from its dial to its end. What becomes ready
-- while it is spliced is given by `traffic`, for the stream that the dial returns.
pub mod Carried
pub mod Gauge
pub mod Refusals
pub mod Serving
pub mod Startup
pub mod Tasks
use lwd_mixnet_proxy.Common.{
  ℕ, ◌-◌, Bool, true, false, List, [], ◌∷◌, ◌++◌, Option, none, some, Result, ok, err,
}
use lwd_mixnet_proxy.Dial.{ProbeSettings, DialSettings, Round, GaveUp, nothing_opened}
use lwd_mixnet_proxy.Dial.Run.{Network, Dialled, DialEnd, dial}
use lwd_mixnet_proxy.Splice.{Watchdog, Ended, Transfer}
use lwd_mixnet_proxy.Splice.Loop.{Ready, Splice, begin, run}
use lwd_mixnet_proxy.Metrics.Client.{
  Calls, connection_accepted, in_flight_dropped, established, gave_up, finished,
}
use lwd_mixnet_proxy.Streaks.{
  Streaks, Outcome, answered, unprobed, nothing_opened as opened_nothing, nothing_answered, fold,
}

-- The server's address is the network's.
pub record Carrying : Type 0 where
  pub dial_settings : DialSettings
  pub watchdog : Watchdog

-- The client half between two of its steps: `calls` are the calls on its metrics but for the
-- gauge that the streaks publish.
pub record Process (C : Type 0) : Type 0 where
  pub client : C
  pub next_token : ℕ
  pub calls : Calls
  pub streaks : Streaks

abbrev pub outcome_of_probe : Option ProbeSettings → Outcome
outcome_of_probe (some _) = answered
outcome_of_probe none = unprobed

abbrev pub outcome_of_opens : Bool → Outcome
outcome_of_opens true = opened_nothing
outcome_of_opens false = nothing_answered

module _ {C W E N : Type 0} (net : Network C W E N) where
  open net use {clock}

  -- The calls up to where the dial is settled, and the fold of its outcome.
  unfoldable pub settle_dial :
      Carrying → ℕ → Process C → DialEnd C W E N → Result (GaveUp E N) (Dialled W E N) → Process C
  unfolding connection_accepted
  settle_dial carrying accepted p end (ok dialled) = record {
    client = end.client;
    next_token = end.next_token;
    calls =
        p.calls
        ++ (connection_accepted ++ established dialled.rounds (clock end.client - accepted));
    streaks = fold p.streaks (outcome_of_probe (DialSettings.probe carrying.dial_settings));
  }
  settle_dial carrying accepted p end (err gave) = record {
    client = end.client;
    next_token = end.next_token;
    calls = p.calls ++ (connection_accepted ++ gave_up gave.rounds);
    streaks = fold p.streaks (outcome_of_opens (nothing_opened gave.rounds));
  }

  -- The end of a splice, and the guard that is dropped with the function; nothing where it runs on.
  abbrev pub end_calls : Option (Transfer × Ended E) → Calls
  end_calls none = []
  end_calls (some (transfer, ended)) = finished transfer ended ++ in_flight_dropped

  abbrev pub add_calls : Process C → Calls → Process C
  add_calls p calls = record p { calls = p.calls ++ calls }

  unfoldable pub carry_on :
      Carrying
      → (W → List (ℕ × Ready E))
      → Process C
      → Result (GaveUp E N) (Dialled W E N)
      → Process C
  carry_on carrying traffic p (err gave) = add_calls p in_flight_dropped
  carry_on carrying traffic p (ok dialled) =
      add_calls p (end_calls (run carrying.watchdog begin (traffic dialled.stream)).1)

  unfoldable pub carry_dialled :
      Carrying → (W → List (ℕ × Ready E)) → ℕ → Process C → DialEnd C W E N → Process C
  unfolding settle_dial carry_on
  carry_dialled carrying traffic accepted p end =
      carry_on carrying traffic (settle_dial carrying accepted p end end.result) end.result

  -- `none` only where `dial` runs out of fuel.
  unfoldable pub carry : Carrying → (W → List (ℕ × Ready E)) → ℕ → Process C → Option (Process C)
  unfolding carry_dialled
  carry carrying traffic accepted p = elim (dial net carrying.dial_settings p.client p.next_token) [
    | none ↦ none
    | some end ↦ some (carry_dialled carrying traffic accepted p end)
  ]
