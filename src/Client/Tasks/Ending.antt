-- ===== src/Client/Tasks/Ending.antt =====
-- src/bin/client.rs, `main` from its loop on, with the tasks that it spawns: how the program ends.
use lwd_mixnet_proxy.Common.{ℕ, ◌+◌, ◌<◌, ◌≡◌, Bool, true, false, List, length}
use lwd_mixnet_proxy.Streaks.{Outcome}
use lwd_mixnet_proxy.Streaks.History.{HasRefusals}
use lwd_mixnet_proxy.Client.{Carrying}
use lwd_mixnet_proxy.Client.Serving.{Exit, stopped, bailed}
use lwd_mixnet_proxy.Client.Tasks.{Running, Step}
use lwd_mixnet_proxy.Client.Tasks.Reached.{at_first}
use lwd_mixnet_proxy.Client.Tasks.Rates.{ended_in}

-- The branch by which the loop is left.
pub data Why : Type 0 where
  client_is_dead asked_to_stop : Why

pub data Phase : Type 0 where
  accepting : Phase
  draining : Why → Phase
  exited : Exit → Phase

unfoldable pub exit_for : Why → ℕ → Exit
exit_for client_is_dead abandoned = bailed abandoned
exit_for asked_to_stop abandoned = stopped abandoned

-- `main` with the half that it runs; `shutting_down` is what the endpoint is told.
pub record Program : Type 0 where
  pub running : Running
  pub phase : Phase
  pub shutting_down : Bool

abbrev pub first : Program
first = record { running = at_first; phase = accepting; shutting_down = false }

module _ (C W E N : Type 0) (carrying : Carrying) where
  -- While the loop goes on tasks go on and connections are accepted, while it drains tasks go on. The
  -- client is given up once `client_is_dead` has been notified.
  pub data Turn (p : Program) : Program → Type 1 where
    runs :
        {r : Running}
        → p.phase ≡ accepting
        → Step C W E N carrying p.running r
        → Turn p (record p { running = r })
    finishes :
        {r : Running} (why : Why)
        → p.phase ≡ draining why
        → Step C W E N carrying p.running r
        → length r.tasks ≡ length p.running.tasks
        → Turn p (record p { running = r })
    gives_up :
        p.phase ≡ accepting
        → 0 < p.running.streaks.notified
        → Turn p (record p { phase = draining client_is_dead; shutting_down = true })
    stops :
        p.phase ≡ accepting
        → Turn p (record p { phase = draining asked_to_stop; shutting_down = true })
    exits :
        (why : Why) (abandoned : ℕ)
        → p.phase ≡ draining why
        → abandoned + ended_in p.running.tasks ≡ length p.running.tasks
        → Turn p (record p { phase = exited (exit_for why abandoned) })

  pub data Runs : Program → Type 1 where
    begins : Runs first
    turns : {p q : Program} → Runs p → Turn p q → Runs q

  -- What is so in a phase of the program.
  abbrev pub Holds : Phase → Bool → List Outcome → Type 0
  Holds accepting down folded = down ≡ false
  Holds (draining client_is_dead) down folded = (down ≡ true) × HasRefusals folded
  Holds (draining asked_to_stop) down folded = down ≡ true
  Holds (exited (bailed abandoned)) down folded = (down ≡ true) × HasRefusals folded
  Holds (exited (stopped abandoned)) down folded = down ≡ true
