-- ===== src/Server/Startup/Life.antt =====
-- src/bin/server.rs, `main` as a whole: what a supervisor sees of it, and where it ends.
use lwd_mixnet_proxy.Common.{
  ℕ, ◌+◌, ◌-◌, ◌≡◌, refl, Bool, true, false, List, ◌==◌, if◌then◌else◌, min, Option, none, some,
  Result, ok, err, arith,
}
use lwd_mixnet_proxy.Health.{registered, serving, is_ready, state_of}
use lwd_mixnet_proxy.Metrics.Registration.{Prometheus, new_server}
use lwd_mixnet_proxy.Half.{
  Half, Failure, Ending, running, returned, failed, begin_half, add_moment, shut_down, exited,
}
use lwd_mixnet_proxy.Half.Lifecycle.{
  seen, phase_of, IsLived, Lived, shut_down-IsLived, exited-IsLived,
}
use lwd_mixnet_proxy.Half.Rules.{
  Ran, phase_now, At-is_ready, At-phase, Failed-is_ready, Post, Post-and_then, At, Failed, given,
  At-begin, At-world, Failed-At, settled-At, bind_endpoint-At, spawn_endpoint-At, attempt-At,
  advance_half-At, printed-At,
}
use lwd_mixnet_proxy.Server.Capacity.{Semaphore, Listening, Event, begin_listening, listen}
use lwd_mixnet_proxy.Splice.{from_secs}
use lwd_mixnet_proxy.Server.{Settings}
use lwd_mixnet_proxy.Server.Startup.{
  Arguments, Surroundings, connect, settings_of, connected_within, connect_within, startup,
}

-- How many streams are abandoned, if `finishing` would end within the grace period.
unfoldable pub drain : ℕ → ℕ → ℕ
drain in_flight finishing = if in_flight == 0 then 0 else in_flight - min in_flight finishing

module _ {W E R B S : Type 0} (around : Surroundings W E) (p : Prometheus R B E)
    (sem : Semaphore S) where
  -- How the loop is left, if it is: by a drain of the streams that are in the set.
  abbrev pub leave_if : Bool → ℕ → Half W → Ending E × Half W
  leave_if false abandoned h = (running, h)
  leave_if true abandoned h = (returned, shut_down abandoned h)

  abbrev pub leave_listening : ℕ → Listening S → Half W → Ending E × Half W
  leave_listening finishing l h = leave_if l.shutting_down (drain (l.serving + l.over) finishing) h

  abbrev pub after_startup :
      ℕ → ℕ → List Event → Result (Failure E) (Unit {0}) × Half W → Ending E × Half W
  after_startup max_streams finishing events (err e, h) = (failed e, add_moment exited h)
  after_startup max_streams finishing events (ok _, h) =
      leave_listening finishing (listen sem (begin_listening sem max_streams) events) h

  -- `main`, over what its loop finds ready; of the streams in the set when it is left, `finishing`
  -- would end within the grace period.
  unfoldable pub server_main : Arguments → ℕ → List Event → W → Ending E × Half W
  unfolding startup listen begin_listening drain
  server_main arguments finishing events w =
      after_startup arguments.max_streams finishing events
        (startup around p arguments (begin_half w))

  connected_within-At :
      (wait : ℕ) (e : Bool) (h : Half W) (r : Option (Result (Failure E) (Unit {0})) × W)
      → At e 0 h
      → Post (At e 0) Failed (connected_within around wait h r)
  connected_within-At wait e h (none, w) a = Failed-At e 0 _ (omega arith) (At-world e 0 h w a)
  connected_within-At wait e h (some (ok u), w) a = At-world e 0 h w a
  connected_within-At wait e h (some (err x), w) a =
      Failed-At e 0 _ (omega arith) (At-world e 0 h w a)

  connect_within-At :
      (arguments : Arguments) (e : Bool) (h : Half W)
      → At e 0 h
      → Post (At e 0) Failed (connect_within around arguments h)
  unfolding connect_within
  connect_within-At arguments e h a =
      let wait = from_secs arguments.gateway_wait_secs in
      connected_within-At wait e h
        (around.within wait
          (connect around arguments.state_dir (Settings.idle_timeout (settings_of arguments)))
          h.world)
        a

  startup-At :
      (arguments : Arguments) (w : W)
      → Post
          (At (given arguments.metrics_bind) 2)
          Failed
          (startup around p arguments (begin_half w))
  unfolding startup
  startup-At arguments w =
      let g = given arguments.metrics_bind in
      let last = At g 2 in
      Post-and_then (At false 0) last Failed _ _
        (settled-At _ false 0 _ (new_server p) (omega arith) (At-begin w))
        λ _ s a.
          Post-and_then (At false 0) last Failed _ _
            (bind_endpoint-At around.bind arguments.metrics_bind s a)
            λ _ s a.
              Post-and_then (At g 0) last Failed _ _
                (connect_within-At arguments g _ (spawn_endpoint-At arguments.metrics_bind s a))
                λ _ s a.
                  Post-and_then (At g 1) last Failed _ _
                    (attempt-At _ around.listener g 1 _ (omega arith)
                      (printed-At g 1 _ (advance_half-At registered g 0 s a)))
                    λ _ s a. advance_half-At serving g 1 s a

  leave_if-Lived :
      (g : Bool) (h : Half W) (o : Bool) (n : ℕ)
      → At g 2 h
      → IsLived (leave_if o n h).1
        × (is_ready (state_of (leave_if o n h).1.health) ≡ true)
        × (phase_of (seen (leave_if o n h).1.trace) ≡ phase_now (leave_if o n h).0 g)
  leave_if-Lived g h false n a = (a.lives, At-is_ready g h a, At-phase E g h a)
  leave_if-Lived g h true n a = (shut_down-IsLived n h a.lives, At-is_ready g h a, refl)

  after_startup-Ran :
      (g : Bool) (max_streams finishing : ℕ) (events : List Event)
      (r : Result (Failure E) (Unit {0}) × Half W)
      → Post (At g 2) Failed r
      → IsLived (after_startup max_streams finishing events r).1
        × Ran g r (after_startup max_streams finishing events r)
  after_startup-Ran g max_streams finishing events (err e, h) f =
      (exited-IsLived h f.lives, (refl, Failed-is_ready h f, refl))
  after_startup-Ran g max_streams finishing events (ok u, h) a =
      let (l, r, q) = leave_if-Lived g h _ _ a in (l, (r, q))

  -- The life of a server half: what a supervisor can see of it is a run of the same machine as of a
  -- client half. Where startup fails, the wait for a gateway included, `main` fails with that error,
  -- without having been ready; else the half is ready, and visible if it was asked for an endpoint,
  -- until its loop is left.
  pub server_main-Lived :
      (arguments : Arguments) (finishing : ℕ) (events : List Event) (w : W)
      → Lived (server_main arguments finishing events w).1.trace
        × Ran
            (given arguments.metrics_bind)
            (startup around p arguments (begin_half w))
            (server_main arguments finishing events w)
  unfolding server_main
  server_main-Lived arguments finishing events w =
      let (l, ran) =
        after_startup-Ran (given arguments.metrics_bind) arguments.max_streams finishing events
          (startup around p arguments (begin_half w)) (startup-At arguments w) in
      (l.lived, ran)
