-- ===== src/Server/Tasks/Counted.antt =====
-- src/bin/server.rs, `serve`: what one task has added to the metrics, at each of its calls.
use lwd_mixnet_proxy.Common.{ℕ, ◌+◌, ◌≤◌, ◌≡◌, refl, ap, [], ◌∷◌, ◌++◌, arith}
use lwd_mixnet_proxy.Common.Weights.{weigh}
use lwd_mixnet_proxy.Handshake.{Wire}
use lwd_mixnet_proxy.Metrics.{Call}
use lwd_mixnet_proxy.Metrics.Server.{
  ServerMetric, Calls, streams_accepted, streams_without_request, in_flight, upstream_connections,
  upstream_failures,
}
use lwd_mixnet_proxy.Metrics.Totals.{raised, lowered}
use lwd_mixnet_proxy.Metrics.Behind.{Behind, Behind-room, Behind-call, weigh-call}
use lwd_mixnet_proxy.Server.Carried.{is}
use lwd_mixnet_proxy.Server.Tasks.{
  Stage, handshaking, reading, connecting, forwarding, splicing, leaving, gone, Task, spawned,
  call_next, on_to, end,
}

abbrev pub ups : ServerMetric → Call ServerMetric → ℕ
ups m = raised (is m)

abbrev pub guards_up : Call ServerMetric → ℕ
guards_up = ups in_flight

abbrev pub guards_down : Call ServerMetric → ℕ
guards_down = lowered (is in_flight)

-- What becomes of an accepted stream.
abbrev pub settlements : Call ServerMetric → ℕ
settlements c = ups streams_without_request c + ups upstream_failures c + ups upstream_connections c

module _ {W U : Type 0} where
  -- Whether the guard is there, whether it ever was, and whether it is still to be settled what becomes
  -- of an accepted stream.
  abbrev pub has_guard : Stage W U → ℕ
  has_guard (forwarding u w opening) = 1
  has_guard (splicing u w) = 1
  has_guard _ = 0

  abbrev pub had_guard : Stage W U → ℕ
  had_guard (handshaking s) = 0
  had_guard (reading w) = 0
  had_guard (connecting w opening) = 0
  had_guard _ = 1

  abbrev pub unsettled : Stage W U → ℕ
  unsettled (reading w) = 1
  unsettled (connecting w opening) = 1
  unsettled _ = 0

  -- Whether the task has its permit.
  abbrev pub live : Stage W U → ℕ
  live gone = 0
  live _ = 1

  abbrev pub whole : (Call ServerMetric → ℕ) → Task W U → ℕ
  whole w t = weigh w t.made + weigh w t.pending

  pub record IsServed (t : Task W U) : Type 0 where
    pub gauge :
        Behind guards_up guards_down (weigh guards_up t.made) (weigh guards_down t.made) t.pending
    pub settled :
        Behind
          (ups streams_accepted)
          settlements
          (weigh (ups streams_accepted) t.made)
          (weigh settlements t.made)
          t.pending
    pub guard : whole guards_up t ≡ whole guards_down t + has_guard t.stage
    pub once : whole guards_up t ≤ had_guard t.stage
    pub open_still : whole settlements t + unsettled t.stage ≤ whole (ups streams_accepted) t
    pub still : weigh guards_down t.pending ≤ live t.stage

  pub spawned-IsServed : (wire : Wire W) → IsServed (spawned wire)
  unfolding spawned
  spawned-IsServed wire = record {
    gauge = Behind-room _ _ _ _ _ (omega arith);
    settled = Behind-room _ _ _ _ _ (omega arith);
    guard = refl;
    once = omega arith;
    open_still = omega arith;
    still = omega arith;
  }

  pub call_next-IsServed :
      (t : Task W U) (c : Call ServerMetric) (later : Calls)
      → t.pending ≡ c ∷ later
      → IsServed t
      → IsServed (call_next t c later)
  unfolding call_next
  call_next-IsServed t c later e h = record {
    gauge = Behind-call _ _ t.made t.pending c later e h.gauge;
    settled = Behind-call _ _ t.made t.pending c later e h.settled;
    guard = omega (arith, same guards_up, same guards_down, h.guard);
    once = omega (arith, same guards_up, h.once);
    open_still = omega (arith, same settlements, same (ups streams_accepted), h.open_still);
    still = omega (arith, ap (weigh guards_down) e, h.still);
  }
    where
      same :
          (w : Call ServerMetric → ℕ)
          → weigh w (t.made ++ (c ∷ [])) + weigh w later ≡ weigh w t.made + weigh w t.pending
      same w = weigh-call w t.made t.pending c later e

  -- From a stage with these calls to another one, the accounts still hold.
  pub record Fits (before : Stage W U) (next : Calls × Stage W U) : Type 0 where
    pub guarded : weigh guards_down next.0 ≤ has_guard before
    pub settling : weigh settlements next.0 ≤ unsettled before
    pub guard :
        weigh guards_up next.0 + has_guard before ≡ weigh guards_down next.0 + has_guard next.1
    pub once : weigh guards_up next.0 + had_guard before ≤ had_guard next.1
    pub open_still :
        weigh settlements next.0 + unsettled next.1
        ≤ weigh (ups streams_accepted) next.0 + unsettled before
    pub still : weigh guards_down next.0 ≤ live next.1
    pub alive : live next.1 ≡ live before

  pub on_to-IsServed :
      (t : Task W U) (next : Calls × Stage W U)
      → t.pending ≡ []
      → Fits t.stage next
      → IsServed t
      → IsServed (on_to t next)
  unfolding on_to
  on_to-IsServed t (cs, stage) idle f h = record {
    gauge =
        Behind-room _ _ _ _ _ (omega (arith, now guards_up, now guards_down, f.guarded, h.guard));
    settled =
        Behind-room _ _ _ _ _
          (omega (arith, now settlements, now (ups streams_accepted), f.settling, h.open_still));
    guard = omega (arith, now guards_up, now guards_down, f.guard, h.guard);
    once = omega (arith, now guards_up, f.once, h.once);
    open_still =
        omega (arith, now settlements, now (ups streams_accepted), f.open_still, h.open_still);
    still = f.still;
  }
    where
      now : (w : Call ServerMetric → ℕ) → weigh w t.made ≡ whole w t
      now w = rw idle (omega arith)

  -- A task that drops its permit has nothing left to do.
  pub end-IsServed :
      (t : Task W U) → t.pending ≡ [] → t.stage ≡ leaving → IsServed t → IsServed (end t)
  unfolding end
  end-IsServed t idle at h = record {
    gauge = h.gauge;
    settled = h.settled;
    guard = rw at at h.guard;
    once = rw at at h.once;
    open_still = rw at at h.open_still;
    still = rw idle (omega arith);
  }

  -- No more guards than permits.
  pub guards_le :
      (t : Task W U) → IsServed t → weigh guards_up t.made ≤ weigh guards_down t.made + live t.stage
  guards_le t h = by_stage t.stage h.guard h.once h.still
    where
      by_stage :
          (s : Stage W U)
          → whole guards_up t ≡ whole guards_down t + has_guard s
          → whole guards_up t ≤ had_guard s
          → weigh guards_down t.pending ≤ live s
          → weigh guards_up t.made ≤ weigh guards_down t.made + live s
      by_stage gone guard once still = omega arith
      by_stage (handshaking s) guard once still = omega arith
      by_stage (reading w) guard once still = omega arith
      by_stage (connecting w opening) guard once still = omega arith
      by_stage (forwarding u w opening) guard once still = omega arith
      by_stage (splicing u w) guard once still = omega arith
      by_stage leaving guard once still = omega arith
