-- ===== src/Half/Lifecycle.antt =====
-- What a supervisor sees of a half, as an abstract machine of four phases, and how the moments of a
-- half are steps of it.
use mathlib.Core.Bool.{false≢true}
use lwd_mixnet_proxy.Common.{
  ℕ, ◌≤◌, ◌<◌, ◌≡◌, refl, Bool, true, false, not, List, [], ◌∷◌, ◌==◌, if◌then◌else◌, max, arith,
}
use lwd_mixnet_proxy.Health.{State, starting, registered, serving, code_of}
use lwd_mixnet_proxy.Half.{
  Moment, endpoint_spawned, advanced, address_printed, told_to_stop, drained, exited, Half,
  add_moment, shut_down, advance_half,
}

-- Nothing answers; something answers and is not ready; it is ready; it has gone.
pub data Phase : Type 0 where
  unseen not_ready ready gone : Phase

pub data Step : Phase → Phase → Type 0 where
  stays : (p : Phase) → Step p p
  appears : Step unseen not_ready
  gets_ready : Step not_ready ready
  ends : (p : Phase) → Step p gone

-- What the moments come to: whether the endpoint was spawned, the state, whether it is over.
pub record Seen : Type 0 where
  pub endpoint : Bool
  pub state : ℕ
  pub over : Bool

abbrev pub see : Moment → Seen → Seen
see endpoint_spawned s = record s { endpoint = true }
see (advanced state) s = record s { state = max s.state (code_of state) }
see address_printed s = s
see told_to_stop s = record s { over = true }
see (drained abandoned) s = s
see exited s = record s { over = true }

abbrev pub seen : List Moment → Seen
seen [] = record { endpoint = false; state = 0; over = false }
seen (m ∷ trace) = see m (seen trace)

abbrev pub answering : Bool → Phase
answering true = ready
answering false = not_ready

-- A process that has ended answers nothing, and one that has been told to stop takes no new
-- connection. `/health` answers 200 exactly in the last state.
abbrev pub phase_of : Seen → Phase
phase_of s = if s.over then gone else if not s.endpoint then unseen else answering (s.state == 2)

-- Every moment of it is a step of the machine.
abbrev pub Lived : List Moment → Type 0
Lived [] = Unit {0}
Lived (m ∷ trace) = Step (phase_of (seen trace)) (phase_of (seen (m ∷ trace))) × Lived trace

answering_steps : (a b : Bool) → (a ≡ true → b ≡ true) → Step (answering a) (answering b)
answering_steps true true h = stays ready
answering_steps true false h = absurd (false≢true (h refl))
answering_steps false true h = gets_ready
answering_steps false false h = stays not_ready

advance_steps :
    (s : Seen) (k : ℕ)
    → k ≤ 2
    → s.state ≤ 2
    → Step (phase_of s) (phase_of (record s { state = max s.state k }))
advance_steps s k a b = by_flags s.over s.endpoint
  where
    by_flags :
        (o e : Bool)
        → Step
            (phase_of (record s { over = o; endpoint = e }))
            (phase_of (record s { over = o; endpoint = e; state = max s.state k }))
    by_flags true e = stays gone
    by_flags false false = stays unseen
    by_flags false true = answering_steps (s.state == 2) (max s.state k == 2) (λ h. ground arith)

-- A half on its way: all that it did is a run, and its health is what its moments say.
pub record IsLived {W : Type 0} (h : Half W) : Type 0 where
  pub lived : Lived h.trace
  pub state : (seen h.trace).state ≡ h.health.state
  pub bounded : h.health.state ≤ 2

pub code_bounded : (s : State) → code_of s ≤ 2
code_bounded starting = omega arith
code_bounded registered = omega arith
code_bounded serving = omega arith

module _ {W : Type 0} where
  pub advance_half-IsLived :
      (state : State) (h : Half W) → IsLived h → IsLived (advance_half state h)
  unfolding advance_half
  advance_half-IsLived state h l = record {
    lived = (
      advance_steps (seen h.trace) (code_of state) (code_bounded state)
          (omega (arith, l.state, l.bounded)),
      l.lived,
    );
    state = omega (arith, l.state);
    bounded = omega (arith, l.bounded, code_bounded state);
  }

  pub printed-IsLived : (h : Half W) → IsLived h → IsLived (add_moment address_printed h)
  printed-IsLived h l = record { lived = (stays _, l.lived); state = l.state; bounded = l.bounded }

  pub shut_down-IsLived : (n : ℕ) (h : Half W) → IsLived h → IsLived (shut_down n h)
  shut_down-IsLived n h l = record {
    lived = (stays gone, (stays gone, (ends _, l.lived)));
    state = l.state;
    bounded = l.bounded;
  }

  pub exited-IsLived : (h : Half W) → IsLived h → IsLived (add_moment exited h)
  exited-IsLived h l = record { lived = (ends _, l.lived); state = l.state; bounded = l.bounded }

-- The endpoint may be spawned where nothing was before it, and the half is not yet serving.
pub spawned_steps :
    (s : Seen)
    → s.endpoint ≡ false
    → s.over ≡ false
    → s.state < 2
    → Step (phase_of s) (phase_of (record s { endpoint = true }))
spawned_steps s e o n = rw (e, o, below) appears
  where
    below : (s.state == 2) ≡ false
    below = ground arith
