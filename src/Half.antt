-- ===== src/Half.antt =====
-- src/bin/client.rs and src/bin/server.rs, what the startup of both has in common: a half reports
-- how far it is, serves its endpoint in a task of its own, and fails with the step that failed.
pub mod Lifecycle
pub mod Rules
use Prim.Native.String.{String, ◌++◌ as append}
use lwd_mixnet_proxy.Common.{
  ℕ, Bool, true, false, List, [], ◌∷◌, Option, none, some, Result, ok, err, Task, map_err, max,
  if◌then◌else◌,
}
use lwd_mixnet_proxy.Health.{
  Health, State, code_of, start, state_of, from_code, is_ready, advance_to,
}

-- What a half does that others can notice, one moment after the other. `drained` has how many of
-- its connections are cut short.
pub data Moment : Type 0 where
  endpoint_spawned : Moment
  advanced : State → Moment
  address_printed : Moment
  told_to_stop : Moment
  drained : ℕ → Moment
  exited : Moment

-- A half as `main` has it. `world` is all that the calls of tokio and the SDK depend on; the latest
-- moment comes first.
pub record Half (W : Type 0) : Type 0 where
  pub world : W
  pub health : Health
  pub trace : List Moment

-- `anyhow::Error`: the step's context and its cause, or the message of a `bail!`.
pub data Failure (E : Type 0) : Type 0 where
  context : String → E → Failure E
  bail : String → Failure E

-- How `main` ends, if it does.
pub data Ending (E : Type 0) : Type 0 where
  running : Ending E
  returned : Ending E
  failed : Failure E → Ending E

module _ {W : Type 0} where
  abbrev pub begin_half : W → Half W
  begin_half w = record { world = w; health = start; trace = [] }

  abbrev pub add_moment : Moment → Half W → Half W
  add_moment m h = record h { trace = m ∷ h.trace }

  -- `shutting_down.send(true)`, the drain and the end of `main`.
  abbrev pub shut_down : ℕ → Half W → Half W
  shut_down abandoned h =
      add_moment exited (add_moment (drained abandoned) (add_moment told_to_stop h))

  -- `health.advance_to(state)`.
  unfoldable pub advance_half : State → Half W → Half W
  unfolding advance_to
  advance_half state h = record h {
    health = advance_to h.health state;
    trace = advanced state ∷ h.trace;
  }

  -- The task that serves it.
  abbrev pub spawn_endpoint : Option String → Half W → Half W
  spawn_endpoint none h = h
  spawn_endpoint (some address) h = add_moment endpoint_spawned h

module _ {W E : Type 0} where
  abbrev pub on_world : {A : Type 0} → (W → Result E A × W) → Task (Half W) E A
  on_world call h = let (result, w) = call h.world in (result, record h { world = w })

  -- `.context(…)?`, on a call that changes the world.
  abbrev pub attempt : {A : Type 0} → String → (W → Result E A × W) → Task (Half W) (Failure E) A
  attempt text call h = map_err (context text) (on_world call h)

  abbrev pub settled : {A : Type 0} → String → Result E A → Task (Half W) (Failure E) A
  settled text result h = map_err (context text) (result, h)

  abbrev pub just : (Half W → Half W) → Task (Half W) (Failure E) (Unit {0})
  just f h = (ok tt, f h)

  -- The endpoint's listener, if an address is given for it.
  unfoldable pub bind_endpoint :
      (String → W → Result E (Unit {0}) × W) → Option String → Task (Half W) (Failure E) (Unit {0})
  bind_endpoint bind none h = (ok tt, h)
  bind_endpoint bind (some address) h =
      attempt (append "binding the metrics endpoint on " address) (bind address) h
