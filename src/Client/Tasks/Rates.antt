-- ===== src/Client/Tasks/Rates.antt =====
-- src/bin/client.rs, `carry`, for connections beside each other: the rates, the gauge and the
-- reports, whatever the order in which the tasks go on.
use lwd_mixnet_proxy.Common.{ℕ, ◌≤◌, ◌≡◌, refl, ◌∙◌, List, [], ◌∷◌, All, length, arith}
use lwd_mixnet_proxy.Common.Weights.{weigh, weigh-le, All-map}
use lwd_mixnet_proxy.Dial.Accounting.{IsValid}
use lwd_mixnet_proxy.Metrics.{Call}
use lwd_mixnet_proxy.Metrics.Client.{
  ClientMetric, connections, in_flight, unestablished, first_round_failures,
}
use lwd_mixnet_proxy.Metrics.Totals.{drops}
use lwd_mixnet_proxy.Metrics.Interleaved.{weigh-total, weigh-drops}
use lwd_mixnet_proxy.Metrics.Behind.{Behind-now}
use lwd_mixnet_proxy.Client.{Carrying}
use lwd_mixnet_proxy.Client.Carried.{is, counted}
use lwd_mixnet_proxy.Client.Tasks.{Connection, Running, Reach}
use lwd_mixnet_proxy.Client.Tasks.Counted.{ups, downs, IsCounted, whole, is_done, idle-whole}
use lwd_mixnet_proxy.Client.Tasks.Reached.{at_first, IsConsistent, Reach-IsConsistent}

abbrev ones : List Connection → ℕ
ones = weigh (λ _. 1)

ones-length : (ts : List Connection) → ones ts ≡ length ts
ones-length [] = refl
ones-length (t ∷ ts) = omega (arith, ones-length ts)

-- Of these tasks, how many have ended.
abbrev pub ended_in : List Connection → ℕ
ended_in = weigh (λ t. is_done t.stage)

-- No task has a call left to make before it goes on.
abbrev pub IsIdle : List Connection → Type 0
IsIdle = All (λ t. t.pending ≡ [])

module _ (s : Running) (h : IsConsistent s) where
  -- What each task keeps in order, the process does.
  sums_le :
      (v w : Call ClientMetric → ℕ)
      → ((t : Connection) → IsCounted t → weigh v t.made ≤ weigh w t.made)
      → weigh v s.calls ≤ weigh w s.calls
  sums_le v w each =
      let le =
        weigh-le (λ t. weigh v t.made) (λ t. weigh w t.made) s.tasks
          (All-map IsCounted _ s.tasks each h.counted_all) in
      omega (arith, le, h.sums v, h.sums w)

  -- What each task has added once it is idle.
  sums_eq :
      (v : Call ClientMetric → ℕ) (n : Connection → ℕ)
      → IsIdle s.tasks
      → ((t : Connection) → IsCounted t → whole v t ≡ n t)
      → weigh v s.calls ≡ weigh n s.tasks
  sums_eq v n idle each = h.sums v ∙ sums_of s.tasks idle h.counted_all
    where
      sums_of :
          (ts : List Connection)
          → IsIdle ts
          → All IsCounted ts
          → weigh (λ t. weigh v t.made) ts ≡ weigh n ts
      sums_of [] i k = refl
      sums_of (t ∷ ts) i k = omega (arith, idle-whole v t i.0, each t k.0, sums_of ts i.1 k.1)

  accepted_le : counted connections s.calls ≤ length s.tasks
  accepted_le =
      let le =
        weigh-le (λ t. weigh (ups connections) t.made) (λ _. 1) s.tasks
          (All-map IsCounted _ s.tasks (λ t k. omega (arith, k.once)) h.counted_all) in
      omega (
        arith,
        le,
        h.sums (ups connections),
        ones-length s.tasks,
        weigh-total (is connections) s.calls,
      )

module _ (C W E N : Type 0) (carrying : Carrying) where
  -- Many connections beside each other, with valid settings. Whatever the order in which their tasks
  -- go on, and whichever are aborted, at every single call on the metrics no more connections have
  -- gone unestablished than first rounds have failed, no more of these than connections were
  -- accepted, no more of these than there are tasks, and the in-flight gauge is not below zero.
  pub Reach-ordered :
      {s : Running}
      → IsValid carrying.dial_settings
      → Reach C W E N carrying at_first s
      → (counted unestablished s.calls ≤ counted first_round_failures s.calls)
        × (counted first_round_failures s.calls ≤ counted connections s.calls)
        × (counted connections s.calls ≤ length s.tasks)
        × (drops (is in_flight) s.calls ≤ counted in_flight s.calls)
  Reach-ordered {s} valid r =
      let h = Reach-IsConsistent C W E N carrying valid r in
      let visible =
        sums_le s h (ups unestablished) (ups first_round_failures)
          (λ t k. Behind-now _ _ _ _ t.pending k.visible) in
      let crude =
        sums_le s h (ups first_round_failures) (ups connections)
          (λ t k. Behind-now _ _ _ _ t.pending k.crude) in
      let gauge =
        sums_le s h (downs in_flight) (ups in_flight)
          (λ t k. Behind-now _ _ _ _ t.pending k.gauge) in
      (
        omega (arith, visible, as_total unestablished, as_total first_round_failures),
        omega (arith, crude, as_total connections, as_total first_round_failures),
        accepted_le s h,
        omega (arith, gauge, as_total in_flight, weigh-drops (is in_flight) s.calls),
      )
    where
      as_total : (m : ClientMetric) → weigh (ups m) s.calls ≡ counted m s.calls
      as_total m = weigh-total (is m) s.calls

  -- Whenever no task has a call left to make before it goes on, each task has been counted once as a
  -- connection, and the in-flight gauge was raised once for each task and lowered once for each that
  -- has ended: it is the number of tasks that still dial or carry.
  pub Reach-gauge :
      {s : Running}
      → IsValid carrying.dial_settings
      → Reach C W E N carrying at_first s
      → IsIdle s.tasks
      → (counted connections s.calls ≡ length s.tasks)
        × (counted in_flight s.calls ≡ length s.tasks)
        × (drops (is in_flight) s.calls ≡ ended_in s.tasks)
  Reach-gauge {s} valid r idle =
      let h = Reach-IsConsistent C W E N carrying valid r in
      let once = sums_eq s h (ups connections) (λ _. 1) idle (λ t k. k.once) in
      let up = sums_eq s h (ups in_flight) (λ _. 1) idle (λ t k. k.up) in
      let down = sums_eq s h (downs in_flight) (λ t. is_done t.stage) idle (λ t k. k.down) in
      (
        omega (arith, once, ones-length s.tasks, weigh-total (is connections) s.calls),
        omega (arith, up, ones-length s.tasks, weigh-total (is in_flight) s.calls),
        omega (arith, down, weigh-drops (is in_flight) s.calls),
      )
