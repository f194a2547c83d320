-- ===== src/Server/Tasks/Capped.antt =====
-- src/bin/server.rs, `serve` in the tasks that `main` spawns: permits, guards and counters, whatever the
-- order in which the tasks go on.
use lwd_mixnet_proxy.Common.{ℕ, ◌+◌, ◌≤◌, ◌≡◌, refl, ap, sym, List, [], ◌∷◌, ◌++◌, All, arith}
use lwd_mixnet_proxy.Common.Weights.{
  weigh, weigh-append, weigh-put, weigh-le, weigh-add, sums-put, All-map, All-picked, All-put,
}
use mathlib.Core.List.{append-nil}
use lwd_mixnet_proxy.Handshake.{Io}
use lwd_mixnet_proxy.Metrics.{Call}
use lwd_mixnet_proxy.Metrics.Server.{
  ServerMetric, Calls, streams_accepted, streams_without_request, in_flight, upstream_connections,
  upstream_failures, stream_dropped_over_capacity,
}
use lwd_mixnet_proxy.Metrics.Totals.{drops}
use lwd_mixnet_proxy.Metrics.Interleaved.{weigh-total, weigh-drops}
use lwd_mixnet_proxy.Metrics.Behind.{Behind-now}
use lwd_mixnet_proxy.Server.{Settings, Upstream}
use lwd_mixnet_proxy.Server.Carried.{is, counted}
use lwd_mixnet_proxy.Server.Capacity.{Semaphore}
use lwd_mixnet_proxy.Server.Tasks.{
  leaving, Task, spawned, call_next, on_to, end, Move, calls, goes_on, aborts, Running, at_first,
  Step, takes_in, drops as drops_one, picks, ends, Reach, start, later,
}
use lwd_mixnet_proxy.Server.Tasks.Counted.{
  ups, guards_up, guards_down, settlements, live, IsServed, spawned-IsServed, end-IsServed,
  guards_le,
}
use lwd_mixnet_proxy.Server.Tasks.Waits.{Move-IsServed, advance-Fits, aborted-Fits}

-- No task that has its permit is left out.
abbrev pub served_now : {W U : Type 0} → List (Task W U) → ℕ
served_now = weigh (λ t. live (Task.stage t))

as_total : (m : ServerMetric) (cs : Calls) → weigh (ups m) cs ≡ counted m cs
as_total m cs = weigh-total (is m) cs

weigh-settlements :
    (cs : Calls)
    → weigh settlements cs
      ≡ counted streams_without_request cs
        + counted upstream_failures cs
        + counted upstream_connections cs
weigh-settlements cs = omega (
  arith,
  weigh-add (λ c. ups streams_without_request c + ups upstream_failures c)
      (ups upstream_connections) cs,
  weigh-add (ups streams_without_request) (ups upstream_failures) cs,
  as_total streams_without_request cs,
  as_total upstream_failures cs,
  as_total upstream_connections cs,
)

-- Calls that a dropped stream is not counted by.
abbrev IsServing : (Call ServerMetric → ℕ) → Type 0
IsServing w = weigh w stream_dropped_over_capacity ≡ 0

module _ {S W U E : Type 0} (sem : Semaphore S) (io : Io W E) (up : Upstream W U E)
    (settings : Settings) where
  -- Permits are free or with a task, and what is counted was counted by a task.
  pub record IsHeld (max_streams : ℕ) (s : Running S W U) : Type 0 where
    pub served : All IsServed s.tasks
    pub sums :
        (w : Call ServerMetric → ℕ)
        → IsServing w
        → weigh w s.calls ≡ weigh (λ t. weigh w t.made) s.tasks
    pub permits : sem.available s.capacity + weigh (λ t. live t.stage) s.tasks ≡ max_streams

  Move-made :
      {t t' : Task W U} {made : Calls}
      → Move io up settings t t' made
      → (t'.made ≡ t.made ++ made) × (live t'.stage ≡ live t.stage)
  unfolding call_next on_to
  Move-made (calls e) = (refl, refl)
  Move-made {t} (goes_on idle) =
      (sym (append-nil t.made), (advance-Fits io up settings t.stage).alive)
  Move-made {t} (aborts idle) = (sym (append-nil t.made), (aborted-Fits t.stage).alive)

  had_permit : (t : Task W U) → t.stage ≡ leaving → live t.stage ≡ 1
  had_permit t leaves = rw leaves refl

  Step-IsHeld :
      (n : ℕ) {s s' : Running S W U} → Step sem io up settings s s' → IsHeld n s → IsHeld n s'
  Step-IsHeld n {s} (takes_in {rest} wire found) h = record {
    served = (spawned-IsServed wire, h.served);
    sums = λ w fit. unfold spawned in omega (arith, h.sums w fit);
    permits = unfold spawned in omega (arith, h.permits, sem.acquire_one s.capacity rest found);
  }
  Step-IsHeld n {s} (drops_one found) h = record {
    served = h.served;
    sums = λ w fit.
        omega (arith, h.sums w fit, fit, weigh-append w s.calls stream_dropped_over_capacity);
    permits = h.permits;
  }
  Step-IsHeld n {s} (picks before after {t} {t'} {made} at move) h =
      let all : All IsServed (before ++ (t ∷ after)) = rw at at h.served in
      let picked = All-picked IsServed before after t all in
      let (made_by, live_by) = Move-made move in
      record {
        served = All-put IsServed before after t' t all (Move-IsServed io up settings move picked);
        sums = λ w fit.
            sums-put w Task.made s.calls made s.tasks before after t t' at made_by (h.sums w fit);
        permits = omega (
          arith,
          h.permits,
          live_by,
          ap (weigh (λ t. live t.stage)) at,
          weigh-put (λ t. live t.stage) before after t' t,
        );
      }
  Step-IsHeld n {s} (ends before after t at idle leaves) h =
      let all : All IsServed (before ++ (t ∷ after)) = rw at at h.served in
      let picked = All-picked IsServed before after t all in
      record {
        served = All-put IsServed before after (end t) t all (end-IsServed t idle leaves picked);
        sums = λ w fit.
            unfold end in
            omega (
              arith,
              h.sums w fit,
              ap (weigh (λ u. weigh w (Task.made u))) at,
              weigh-put (λ u. weigh w (Task.made u)) before after (end t) t,
            );
        permits =
            unfold end in
            omega (
              arith,
              h.permits,
              sem.release_one s.capacity,
              had_permit t leaves,
              ap (weigh (λ u. live (Task.stage u))) at,
              weigh-put (λ u. live (Task.stage u)) before after (end t) t,
            );
      }

  Reach-IsHeld :
      (n : ℕ) {s : Running S W U}
      → Reach sem io up settings (at_first sem io up settings n) s
      → IsHeld n s
  unfolding at_first
  Reach-IsHeld n start = record {
    served = tt;
    sums = λ w fit. refl;
    permits = omega (arith, sem.available-new n);
  }
  Reach-IsHeld n (later r step) = Step-IsHeld n step (Reach-IsHeld n r)

  -- What each task keeps in order, the process does.
  sums_le :
      (n : ℕ) (s : Running S W U) (h : IsHeld n s) (v w : Call ServerMetric → ℕ)
      → IsServing v
      → IsServing w
      → (extra : Task W U → ℕ)
      → ((t : Task W U) → IsServed t → weigh v t.made ≤ weigh w t.made + extra t)
      → weigh v s.calls ≤ weigh w s.calls + weigh extra s.tasks
  sums_le n s h v w fit_v fit_w extra each =
      let le =
        weigh-le (λ t. weigh v (Task.made t)) (λ t. weigh w (Task.made t) + extra t) s.tasks
          (All-map IsServed _ s.tasks each h.served) in
      omega (
        arith,
        le,
        h.sums v fit_v,
        h.sums w fit_w,
        weigh-add (λ t. weigh w (Task.made t)) extra s.tasks,
      )

  -- Whatever streams arrive, in whatever order their tasks go on, and whichever are aborted: at every
  -- single call on the metrics no more than `max_streams` tasks have their permit, the gauge of streams
  -- in flight is not below zero and not above the number of these tasks, and no more streams are
  -- counted as without a request, as an upstream failure or as an upstream connection than were counted
  -- as accepted.
  pub Reach-capped :
      (max_streams : ℕ) {s : Running S W U}
      → Reach sem io up settings (at_first sem io up settings max_streams) s
      → (served_now s.tasks ≤ max_streams)
        × (drops (is in_flight) s.calls ≤ counted in_flight s.calls)
        × (counted in_flight s.calls ≤ drops (is in_flight) s.calls + served_now s.tasks)
        × (counted streams_without_request s.calls
              + counted upstream_failures s.calls
              + counted upstream_connections s.calls
            ≤ counted streams_accepted s.calls)
  unfolding stream_dropped_over_capacity
  Reach-capped n {s} r =
      let h = Reach-IsHeld n r in
      let low =
        sums_le n s h guards_down guards_up refl refl (λ _. 0)
          (λ t k. omega (arith, Behind-now _ _ _ _ t.pending k.gauge)) in
      let high = sums_le n s h guards_up guards_down refl refl (λ t. live t.stage) guards_le in
      let settled =
        sums_le n s h settlements (ups streams_accepted) refl refl (λ _. 0)
          (λ t k. omega (arith, Behind-now _ _ _ _ t.pending k.settled)) in
      let none_more : weigh (λ (t : Task W U). 0) s.tasks ≡ 0 = no_weight s.tasks in
      let down = weigh-drops (is in_flight) s.calls in
      (
        omega (arith, h.permits),
        omega (arith, low, none_more, down, as_total in_flight s.calls),
        omega (arith, high, down, as_total in_flight s.calls),
        omega (
          arith,
          settled,
          none_more,
          weigh-settlements s.calls,
          as_total streams_accepted s.calls,
        ),
      )
    where
      no_weight : (ts : List (Task W U)) → weigh (λ _. 0) ts ≡ 0
      no_weight [] = refl
      no_weight (t ∷ ts) = omega (arith, no_weight ts)
