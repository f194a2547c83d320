-- ===== src/Client/Startup/Life.antt =====
-- src/bin/client.rs, `main` as a whole: what a supervisor sees of it, and where it ends.
use lwd_mixnet_proxy.Common.{
  ℕ, ◌≡◌, refl, Bool, true, false, List, Option, none, some, Result, ok, err, arith,
}
use lwd_mixnet_proxy.Health.{registered, serving, is_ready, state_of}
use lwd_mixnet_proxy.Metrics.Registration.{Prometheus, new_client}
use lwd_mixnet_proxy.Half.{
  Half, Failure, Ending, running, returned, failed, bail, begin_half, add_moment, shut_down, exited,
}
use lwd_mixnet_proxy.Half.Lifecycle.{
  seen, phase_of, IsLived, Lived, shut_down-IsLived, exited-IsLived,
}
use lwd_mixnet_proxy.Half.Rules.{
  Ran, phase_now, At-is_ready, At-phase, Failed-is_ready, Post, Post-and_then, At, Failed, given,
  At-begin, settled-At, bind_endpoint-At, spawn_endpoint-At, attempt-At, advance_half-At,
}
use lwd_mixnet_proxy.Client.Serving.{Event, Exit, stopped, bailed, begin_serving, serve_all}
use lwd_mixnet_proxy.Client.Startup.{Arguments, Surroundings, startup}

module _ {W E R B : Type 0} (around : Surroundings W E) (p : Prometheus R B E) where
  -- How the loop is left.
  abbrev pub leave : Half W → Option Exit → Ending E × Half W
  leave h none = (running, h)
  leave h (some (stopped abandoned)) = (returned, shut_down abandoned h)
  leave h (some (bailed abandoned)) =
      (failed (bail "the local mixnet client stopped opening streams"), shut_down abandoned h)

  abbrev pub after_startup :
      ℕ → List Event → Result (Failure E) (Unit {0}) × Half W → Ending E × Half W
  after_startup finishing events (err e, h) = (failed e, add_moment exited h)
  after_startup finishing events (ok _, h) = leave h (serve_all finishing begin_serving events).1

  -- `main`, over what its loop finds ready; of the connections in flight when it is left,
  -- `finishing` would end within the grace period.
  unfoldable pub client_main : Arguments → ℕ → List Event → W → Ending E × Half W
  unfolding startup serve_all begin_serving
  client_main arguments finishing events w =
      after_startup finishing events (startup around p arguments (begin_half w))

  -- What startup leaves.
  pub startup-At :
      (arguments : Arguments) (w : W)
      → Post
          (At (given arguments.metrics_bind) 2)
          Failed
          (startup around p arguments (begin_half w))
  unfolding startup
  startup-At arguments w =
      let g = given arguments.metrics_bind in
      let last = At g 2 in
      Post-and_then (At false 0) last Failed _ _
        (settled-At _ false 0 _ (around.parse_recipient arguments.server) (omega arith)
          (At-begin w))
        λ _ s a.
          Post-and_then (At false 0) last Failed _ _
            (settled-At _ false 0 s (new_client p) (omega arith) a)
            λ _ s a.
              Post-and_then (At false 0) last Failed _ _
                (bind_endpoint-At around.bind arguments.metrics_bind s a)
                λ _ s a.
                  Post-and_then (At g 0) last Failed _ _
                    (attempt-At _ around.connect_new g 0 _ (omega arith)
                      (spawn_endpoint-At arguments.metrics_bind s a))
                    λ _ s a.
                      Post-and_then (At g 1) last Failed _ _
                        (attempt-At _ (around.bind arguments.bind) g 1 _ (omega arith)
                          (advance_half-At registered g 0 s a))
                        λ _ s a. advance_half-At serving g 1 s a

  -- A half that has been told to stop, or has ended, is seen as gone.
  pub leave-IsLived : (h : Half W) (o : Option Exit) → IsLived h → IsLived (leave h o).1
  leave-IsLived h none l = l
  leave-IsLived h (some (stopped n)) l = shut_down-IsLived n h l
  leave-IsLived h (some (bailed n)) l = shut_down-IsLived n h l

  leave-phase :
      (g : Bool) (h : Half W) (o : Option Exit)
      → At g 2 h
      → (is_ready (state_of (leave h o).1.health) ≡ true)
        × (phase_of (seen (leave h o).1.trace) ≡ phase_now (leave h o).0 g)
  leave-phase g h none a = (At-is_ready g h a, At-phase E g h a)
  leave-phase g h (some (stopped n)) a = (At-is_ready g h a, refl)
  leave-phase g h (some (bailed n)) a = (At-is_ready g h a, refl)

  after_startup-Ran :
      (g : Bool) (finishing : ℕ) (events : List Event) (r : Result (Failure E) (Unit {0}) × Half W)
      → Post (At g 2) Failed r
      → IsLived (after_startup finishing events r).1 × Ran g r (after_startup finishing events r)
  after_startup-Ran g finishing events (err e, h) f =
      (exited-IsLived h f.lives, (refl, Failed-is_ready h f, refl))
  after_startup-Ran g finishing events (ok u, h) a =
      let left = (serve_all finishing begin_serving events).1 in
      (leave-IsLived h left a.lives, leave-phase g h left a)

  -- The life of a client half. Whatever its surroundings do and whatever its loop finds ready, all
  -- that a supervisor can see of it is a run of the abstract machine: it appears at most once, not
  -- ready, may get ready, never ceases to be ready but by being gone, and stays gone. Where startup
  -- fails `main` fails with that error, without having been ready; else the half is ready, and
  -- visible if it was asked for an endpoint, until its loop is left.
  pub client_main-Lived :
      (arguments : Arguments) (finishing : ℕ) (events : List Event) (w : W)
      → Lived (client_main arguments finishing events w).1.trace
        × Ran
            (given arguments.metrics_bind)
            (startup around p arguments (begin_half w))
            (client_main arguments finishing events w)
  unfolding client_main
  client_main-Lived arguments finishing events w =
      let (l, ran) =
        after_startup-Ran (given arguments.metrics_bind) finishing events
          (startup around p arguments (begin_half w)) (startup-At arguments w) in
      (l.lived, ran)
