-- ===== src/Client/Tasks.antt =====
-- src/bin/client.rs, `carry`, for connections that are carried beside each other: one task for each, of
-- which the runtime may let any go on at any time. A task's calls on the metrics are made one by
-- one; `Streaks::fold` is under its lock, and is one step.
pub mod Alone
pub mod Counted
pub mod Ending
pub mod Rates
pub mod Reached
pub mod Reported
pub mod Settled
use lwd_mixnet_proxy.Common.{
  ℕ, ◌-◌, ◌≡◌, Bool, true, false, List, [], ◌∷◌, ◌++◌, Option, none, some, Result, ok, err,
}
use lwd_mixnet_proxy.Dial.{Round, GaveUp}
use lwd_mixnet_proxy.Dial.Run.{Network, Dialled, DialEnd, dial}
use lwd_mixnet_proxy.Splice.{Ended, Transfer}
use lwd_mixnet_proxy.Splice.Loop.{Ready, begin, run}
use lwd_mixnet_proxy.Metrics.{Call}
use lwd_mixnet_proxy.Metrics.Client.{
  ClientMetric, Calls, connection_accepted, in_flight_dropped, established, gave_up, finished,
}
use lwd_mixnet_proxy.Streaks.{Streaks, Outcome, fold}
use lwd_mixnet_proxy.Client.{Carrying}
use lwd_mixnet_proxy.Client.Refusals.{outcome_of}

-- Where a task is: `folding` with the outcome and whether it goes on with a stream.
pub data Stage : Type 0 where
  dialling splicing done : Stage
  folding : Outcome → Bool → Stage

-- `made` are the calls that the task has made, `pending` those it makes before anything else.
pub record Connection : Type 0 where
  pub accepted : ℕ
  pub made : Calls
  pub pending : Calls
  pub stage : Stage

-- A task as it is spawned.
unfoldable pub spawned : ℕ → Connection
unfolding connection_accepted
spawned accepted = record {
  accepted = accepted;
  made = [];
  pending = connection_accepted;
  stage = dialling;
}

unfoldable pub call_one : Connection → Call ClientMetric → Calls → Connection
call_one t c later = record t { made = t.made ++ (c ∷ []); pending = later }

module _ {W E N : Type 0} where
  -- What the task does once its dial has returned at `now`.
  unfoldable pub settle :
      Carrying → ℕ → Connection → Result (GaveUp E N) (Dialled W E N) → Connection
  settle carrying now t (ok dialled) = record t {
    pending = established dialled.rounds (now - t.accepted);
    stage = folding (outcome_of {W = W} {E = E} {N = N} carrying (ok dialled)) true;
  }
  settle carrying now t (err gave) = record t {
    pending = gave_up gave.rounds;
    stage = folding (outcome_of {W = W} {E = E} {N = N} carrying (err gave)) false;
  }

-- The guard is dropped with the function that returns, and with a task that is aborted.
unfoldable pub leave : Connection → Connection
unfolding in_flight_dropped
leave t = record t { pending = in_flight_dropped; stage = done }

unfoldable pub go_on : Connection → Bool → Connection
unfolding leave
go_on t true = record t { stage = splicing }
go_on t false = leave t

unfoldable pub finish : {E : Type 0} → Connection → Transfer → Ended E → Connection
finish t transfer ended = record t {
  pending = finished transfer ended ++ in_flight_dropped;
  stage = done;
}

-- The client half: its tasks, the calls on its metrics in the order they were made, what it knows
-- of its dials, and the outcomes that were folded, the newest first.
pub record Running : Type 0 where
  pub tasks : List Connection
  pub calls : Calls
  pub streaks : Streaks
  pub folded : List Outcome

abbrev pub folded_into : Streaks → Option Outcome → Streaks
folded_into s none = s
folded_into s (some o) = fold s o

abbrev pub noted : Option Outcome → List Outcome → List Outcome
noted none os = os
noted (some o) os = o ∷ os

module _ (C W E N : Type 0) (carrying : Carrying) where
  -- What one task may do next, the call that it makes, and the outcome that it folds. What its dial
  -- returns is what `dial` returns on a network: that of the shared client, as the task finds it.
  pub data Move (t : Connection) : Connection → Calls → Option Outcome → Type 1 where
    calls :
        {c : Call ClientMetric} {later : Calls}
        → t.pending ≡ c ∷ later
        → Move t (call_one t c later) (c ∷ []) none
    dials :
        (net : Network C W E N) (client : C) (token : ℕ) (end : DialEnd C W E N)
        → t.pending ≡ []
        → t.stage ≡ dialling
        → dial net carrying.dial_settings client token ≡ some end
        → Move t (settle carrying (net.clock end.client) t end.result) [] none
    folds :
        {outcome : Outcome} {onward : Bool}
        → t.pending ≡ []
        → t.stage ≡ folding outcome onward
        → Move t (go_on t onward) [] (some outcome)
    splices :
        (traffic : List (ℕ × Ready E)) (transfer : Transfer) (ended : Ended E)
        → t.pending ≡ []
        → t.stage ≡ splicing
        → (run carrying.watchdog begin traffic).1 ≡ some (transfer, ended)
        → Move t (finish t transfer ended) [] none
    aborts_dialling : t.pending ≡ [] → t.stage ≡ dialling → Move t (leave t) [] none
    aborts_splicing : t.pending ≡ [] → t.stage ≡ splicing → Move t (leave t) [] none

  pub data Step (s : Running) : Running → Type 1 where
    accepts : (now : ℕ) → Step s (record s { tasks = spawned now ∷ s.tasks })
    picks :
        (before after : List Connection) {t t' : Connection} {made : Calls} {o : Option Outcome}
        → s.tasks ≡ before ++ (t ∷ after)
        → Move t t' made o
        → Step s (record {
          tasks = before ++ (t' ∷ after);
          calls = s.calls ++ made;
          streaks = folded_into s.streaks o;
          folded = noted o s.folded;
        })

  pub data Reach (s : Running) : Running → Type 1 where
    start : Reach s s
    later : {t u : Running} → Reach s t → Step t u → Reach s u
