-- ===== src/Half/Rules.antt =====
-- Rules for the steps of a startup: what each leaves, on success and on failure.
use Prim.Native.String.{String, ◌++◌ as append}
use lwd_mixnet_proxy.Common.{
  ℕ, ◌<◌, ◌≡◌, refl, Bool, true, false, Option, none, some, Result, ok, err, Task, and_then, max,
  arith, ◌==◌,
}
use lwd_mixnet_proxy.Health.{State, code_of, advance_to, is_ready, state_of}
use lwd_mixnet_proxy.Half.{
  Half, Failure, attempt, settled, bind_endpoint, spawn_endpoint, add_moment, advance_half,
  begin_half, Ending, running, returned, failed, address_printed,
}
use lwd_mixnet_proxy.Half.Lifecycle.{
  Phase, unseen, ready, gone, phase_of, seen, IsLived, advance_half-IsLived, printed-IsLived,
  spawned_steps,
}

-- What a task leaves, where it succeeds and where it fails.
abbrev pub Post : {S F A : Type 0} → (S → Type 0) → (S → Type 0) → Result F A × S → Type 0
Post Good Bad (ok a, s) = Good s
Post Good Bad (err e, s) = Bad s

pub Post-and_then :
    {S F A B : Type 0} (Good Next Bad : S → Type 0) (r : Result F A × S) (f : A → Task S F B)
    → Post Good Bad r
    → ((a : A) (s : S) → Good s → Post Next Bad (f a s))
    → Post Next Bad (and_then r f)
Post-and_then Good Next Bad (ok a, s) f h k = k a s h
Post-and_then Good Next Bad (err e, s) f h k = h

abbrev pub given : {A : Type 0} → Option A → Bool
given none = false
given (some _) = true

module _ {W : Type 0} where
  -- On its way and not over: whether its endpoint is up, and its state.
  pub record At (e : Bool) (n : ℕ) (h : Half W) : Type 0 where
    pub lives : IsLived h
    pub endpoint : (seen h.trace).endpoint ≡ e
    pub goes_on : (seen h.trace).over ≡ false
    pub state : h.health.state ≡ n

  -- Failed before it was serving.
  pub record Failed (h : Half W) : Type 0 where
    pub lives : IsLived h
    pub early : h.health.state < 2

  pub At-begin : (w : W) → At false 0 (begin_half w)
  unfolding lwd_mixnet_proxy.Health.start
  At-begin w = record {
    lives = record { lived = tt; state = refl; bounded = omega arith };
    endpoint = refl;
    goes_on = refl;
    state = refl;
  }

  pub Failed-At : (e : Bool) (n : ℕ) (h : Half W) → n < 2 → At e n h → Failed h
  Failed-At e n h few a = record { lives = a.lives; early = omega (arith, a.state) }

  pub At-world :
      (e : Bool) (n : ℕ) (h : Half W) (w : W) → At e n h → At e n (record h { world = w })
  At-world e n h w a = record {
    lives = record { lived = a.lives.lived; state = a.lives.state; bounded = a.lives.bounded };
    endpoint = a.endpoint;
    goes_on = a.goes_on;
    state = a.state;
  }

  pub spawn_endpoint-At :
      (address : Option String) (h : Half W)
      → At false 0 h
      → At (given address) 0 (spawn_endpoint address h)
  spawn_endpoint-At none h a = a
  spawn_endpoint-At (some address) h a = record {
    lives = record {
      lived = (
        spawned_steps (seen h.trace) a.endpoint a.goes_on (omega (arith, a.lives.state, a.state)),
        a.lives.lived,
      );
      state = a.lives.state;
      bounded = a.lives.bounded;
    };
    endpoint = refl;
    goes_on = a.goes_on;
    state = a.state;
  }

  pub advance_half-At :
      (s : State) (e : Bool) (n : ℕ) (h : Half W)
      → At e n h
      → At e (max n (code_of s)) (advance_half s h)
  unfolding advance_half advance_to
  advance_half-At s e n h a = record {
    lives = advance_half-IsLived s h a.lives;
    endpoint = a.endpoint;
    goes_on = a.goes_on;
    state = omega (arith, a.state);
  }

  pub printed-At :
      (e : Bool) (n : ℕ) (h : Half W) → At e n h → At e n (add_moment address_printed h)
  printed-At e n h a = record {
    lives = printed-IsLived h a.lives;
    endpoint = a.endpoint;
    goes_on = a.goes_on;
    state = a.state;
  }

module _ {W E A : Type 0} where
  pub settled-At :
      (text : String) (e : Bool) (n : ℕ) (h : Half W) (r : Result E A)
      → n < 2
      → At e n h
      → Post (At e n) Failed (settled text r h)
  settled-At text e n h (ok a) few at = at
  settled-At text e n h (err x) few at = Failed-At e n h few at

  done-At :
      (text : String) (e : Bool) (n : ℕ) (h : Half W) (r : Result E A × W)
      → n < 2
      → At e n h
      → Post (At e n) Failed (attempt text (λ _. r) h)
  done-At text e n h (ok a, w) few at = At-world e n h w at
  done-At text e n h (err x, w) few at = Failed-At e n _ few (At-world e n h w at)

  pub attempt-At :
      (text : String) (call : W → Result E A × W) (e : Bool) (n : ℕ) (h : Half W)
      → n < 2
      → At e n h
      → Post (At e n) Failed (attempt text call h)
  attempt-At text call e n h few at = done-At text e n h (call h.world) few at

module _ {W E : Type 0} where
  pub bind_endpoint-At :
      (bind : String → W → Result E (Unit {0}) × W) (address : Option String) (h : Half W)
      → At false 0 h
      → Post (At false 0) Failed (bind_endpoint bind address h)
  unfolding bind_endpoint
  bind_endpoint-At bind none h at = at
  bind_endpoint-At bind (some address) h at =
      attempt-At (append "binding the metrics endpoint on " address) (bind address) false 0 h
        (omega arith) at

-- What a supervisor finds now: of a half that runs, whether it asked for an endpoint.
abbrev pub phase_now : {E : Type 0} → Ending E → Bool → Phase
phase_now running true = ready
phase_now running false = unseen
phase_now returned g = gone
phase_now (failed e) g = gone

-- How a whole run of `main` hangs on its startup. Where that failed, `main` fails with the same
-- error and was never ready; else it is ready to the end.
abbrev pub Ran :
    {W E A : Type 0} → Bool → Result (Failure E) A × Half W → Ending E × Half W → Type 0
Ran g (err e, h0) (ending, h) =
    (ending ≡ failed e) × (is_ready (state_of h.health) ≡ false) × (phase_of (seen h.trace) ≡ gone)
Ran g (ok a, h0) (ending, h) =
    (is_ready (state_of h.health) ≡ true) × (phase_of (seen h.trace) ≡ phase_now ending g)

module _ {W : Type 0} where
  pub Failed-is_ready : (h : Half W) → Failed h → is_ready (state_of h.health) ≡ false
  unfolding is_ready state_of
  Failed-is_ready h f = ground (arith, f.early)

  pub At-is_ready : (e : Bool) (h : Half W) → At e 2 h → is_ready (state_of h.health) ≡ true
  unfolding is_ready state_of
  At-is_ready e h a = ground (arith, a.state)

  pub At-phase :
      (E : Type 0) (e : Bool) (h : Half W)
      → At e 2 h
      → phase_of (seen h.trace) ≡ phase_now {E = E} running e
  At-phase E true h a = rw (a.endpoint, a.goes_on, two) refl
    where
      two : ((seen h.trace).state == 2) ≡ true
      two = ground (arith, a.lives.state, a.state)
  At-phase E false h a = rw (a.endpoint, a.goes_on) refl
