-- ===== src/Client/Tasks/Counted.antt =====
-- src/bin/client.rs, `carry`: what one task has added to the metrics, at each of its calls.
use lwd_mixnet_proxy.Common.{ℕ, ◌+◌, ◌≤◌, ◌≡◌, refl, ◌∙◌, Bool, true, false, [], ◌∷◌, arith}
use lwd_mixnet_proxy.Common.Weights.{weigh}
use lwd_mixnet_proxy.Splice.{Ended, Transfer}
use lwd_mixnet_proxy.Metrics.{Call}
use lwd_mixnet_proxy.Metrics.Client.{
  ClientMetric, Calls, connections, in_flight, unestablished, first_round_failures, finished,
  in_flight_dropped, connection_accepted,
}
use lwd_mixnet_proxy.Metrics.Totals.{raised, lowered}
use lwd_mixnet_proxy.Metrics.Behind.{
  Behind, Behind-now, Behind-room, Behind-append, Behind-call, weigh-call,
}
use lwd_mixnet_proxy.Streaks.{Outcome}
use lwd_mixnet_proxy.Client.Carried.{is}
use lwd_mixnet_proxy.Client.Tasks.{
  Stage, dialling, folding, splicing, done, Connection, spawned, call_one, leave, go_on, finish,
}

-- By how much a call raises a metric.
abbrev pub ups : ClientMetric → Call ClientMetric → ℕ
ups m = raised (is m)

abbrev pub downs : ClientMetric → Call ClientMetric → ℕ
downs m = lowered (is m)

-- What a task's calls come to, those that are pending with them.
abbrev pub whole : (Call ClientMetric → ℕ) → Connection → ℕ
whole w t = weigh w t.made + weigh w t.pending

-- A task's calls keep two sums in order from where it stands to its last pending call.
abbrev pub Leads : (Call ClientMetric → ℕ) → (Call ClientMetric → ℕ) → Connection → Type 0
Leads lead follow t = Behind lead follow (weigh lead t.made) (weigh follow t.made) t.pending

abbrev pub is_done : Stage → ℕ
is_done done = 1
is_done _ = 0

abbrev pub is_settled : Stage → ℕ
is_settled dialling = 0
is_settled _ = 1

pub record IsCounted (t : Connection) : Type 0 where
  pub crude : Leads (ups connections) (ups first_round_failures) t
  pub visible : Leads (ups first_round_failures) (ups unestablished) t
  pub gauge : Leads (ups in_flight) (downs in_flight) t
  pub once : whole (ups connections) t ≡ 1
  pub up : whole (ups in_flight) t ≡ 1
  pub down : whole (downs in_flight) t ≡ is_done t.stage
  pub failed : whole (ups first_round_failures) t ≤ is_settled t.stage

pub spawned-IsCounted : (now : ℕ) → IsCounted (spawned now)
unfolding spawned connection_accepted
spawned-IsCounted now = record {
  crude = Behind-room _ _ _ _ _ (omega arith);
  visible = Behind-room _ _ _ _ _ (omega arith);
  gauge = Behind-append _ _ 0 0 connection_accepted [] (omega arith) (omega arith);
  once = refl;
  up = refl;
  down = refl;
  failed = omega arith;
}

pub idle-whole :
    (w : Call ClientMetric → ℕ) (t : Connection) → t.pending ≡ [] → whole w t ≡ weigh w t.made
idle-whole w t e = rw e (omega arith)

pub is_settled_le : (s : Stage) → is_settled s ≤ 1
is_settled_le s = ground arith

is_done_le : (s : Stage) → is_done s ≤ 1
is_done_le s = ground arith

-- A task that has nothing pending is given calls, and goes to another stage.
pub on_to-IsCounted :
    (t : Connection) (next : Calls) (stage : Stage)
    → t.pending ≡ []
    → IsCounted t
    → weigh (ups connections) next ≡ 0
    → weigh (ups in_flight) next ≡ 0
    → weigh (downs in_flight) next + is_done t.stage ≡ is_done stage
    → weigh (ups first_round_failures) next + is_settled t.stage ≤ is_settled stage
    → Leads (ups first_round_failures) (ups unestablished) (record t { pending = next })
    → IsCounted (record t { pending = next; stage = stage })
on_to-IsCounted t next stage idle h conn up down failed visible = record {
  crude = Behind-room _ _ _ _ _ (
      omega (
        arith,
        idle-whole (ups first_round_failures) t idle,
        idle-whole (ups connections) t idle,
        h.failed,
        h.once,
        is_settled_le stage,
      ));
  visible = visible;
  gauge = Behind-room _ _ _ _ _ (
      omega (
        arith,
        idle-whole (downs in_flight) t idle,
        idle-whole (ups in_flight) t idle,
        h.down,
        h.up,
        is_done_le stage,
      ));
  once = omega (arith, idle-whole (ups connections) t idle, h.once);
  up = omega (arith, idle-whole (ups in_flight) t idle, h.up);
  down = omega (arith, idle-whole (downs in_flight) t idle, h.down);
  failed = omega (arith, idle-whole (ups first_round_failures) t idle, h.failed);
}

-- Calls that say nothing of a dial leave what the dial has left.
pub quiet-visible :
    (t : Connection) (next : Calls)
    → t.pending ≡ []
    → IsCounted t
    → weigh (ups unestablished) next ≡ 0
    → Leads (ups first_round_failures) (ups unestablished) (record t { pending = next })
quiet-visible t next idle h quiet =
    let stands : weigh (ups unestablished) t.made ≤ weigh (ups first_round_failures) t.made =
      Behind-now _ _ _ _ t.pending h.visible in
    Behind-room _ _ _ _ next (omega (arith, stands, quiet))

pub leave-IsCounted :
    (t : Connection) → t.pending ≡ [] → is_done t.stage ≡ 0 → IsCounted t → IsCounted (leave t)
unfolding leave in_flight_dropped
leave-IsCounted t idle on h =
    on_to-IsCounted t in_flight_dropped done idle h refl refl (omega arith)
      (omega (arith, is_settled_le t.stage)) (quiet-visible t in_flight_dropped idle h refl)

pub go_on-IsCounted :
    (t : Connection) (outcome : Outcome) (onward : Bool)
    → t.pending ≡ []
    → t.stage ≡ folding outcome onward
    → IsCounted t
    → IsCounted (go_on t onward)
unfolding go_on
go_on-IsCounted t outcome false idle at h = leave-IsCounted t idle (rw at refl) h
go_on-IsCounted t outcome true idle at h = record {
  crude = h.crude;
  visible = h.visible;
  gauge = h.gauge;
  once = h.once;
  up = h.up;
  down = rw at at h.down;
  failed = omega (arith, h.failed, is_settled_le t.stage);
}

pub finish-IsCounted :
    {E : Type 0} (t : Connection) (transfer : Transfer) (ended : Ended E)
    → t.pending ≡ []
    → t.stage ≡ splicing
    → IsCounted t
    → IsCounted (finish t transfer ended)
unfolding finish finished in_flight_dropped
finish-IsCounted t transfer ended idle at h =
    on_to-IsCounted t _ done idle h refl refl (rw at refl) (rw at (omega arith))
      (quiet-visible t _ idle h refl)

pub call_one-IsCounted :
    (t : Connection) (c : Call ClientMetric) (later : Calls)
    → t.pending ≡ c ∷ later
    → IsCounted t
    → IsCounted (call_one t c later)
unfolding call_one
call_one-IsCounted t c later e h = record {
  crude = Behind-call _ _ t.made t.pending c later e h.crude;
  visible = Behind-call _ _ t.made t.pending c later e h.visible;
  gauge = Behind-call _ _ t.made t.pending c later e h.gauge;
  once = weigh-call (ups connections) t.made t.pending c later e ∙ h.once;
  up = weigh-call (ups in_flight) t.made t.pending c later e ∙ h.up;
  down = weigh-call (downs in_flight) t.made t.pending c later e ∙ h.down;
  failed =
      omega (arith, weigh-call (ups first_round_failures) t.made t.pending c later e, h.failed);
}
