-- ===== src/Splice/Reaping.antt =====
-- src/splice.rs, the loop of `splice` with an idle deadline alone, as the server half sets it: when a
-- splice is reaped.
use lwd_mixnet_proxy.Common.{
  ℕ, ◌+◌, ◌-◌, ◌≤◌, ◌<◌, ◌≡◌, refl, ap, ◌∙◌, true, false, Bool, List, [], ◌∷◌, Option, none, some,
  ok, length, arith, leb, max, if◌then◌else◌, Bool-cases, inl, inr,
}
use lwd_mixnet_proxy.Common.Words.{u64_mod}
use lwd_mixnet_proxy.Splice.{
  Watchdog, Ended, idle, Transfer, as_millis, moved_at, record_moved, or_zero, tripped,
}
use lwd_mixnet_proxy.Splice.Loop.{
  Pass, Splice, Ready, outbound, inbound, tick, turn, run, or_continue,
}
use lwd_mixnet_proxy.Splice.Copies.{chunk_of}

abbrev pub idle_after : ℕ → Watchdog
idle_after d = record { stall = none; idle = some d }

-- A pass that moves bytes and goes on.
pub record IsMoved {E : Type 0} (pass : Pass E) : Type 0 where
  pub byte : ℕ
  pub bytes : List ℕ
  pub reads : pass.read ≡ ok (byte ∷ bytes)
  pub writes : pass.write ≡ ok tt
  pub flushes : pass.flush ≡ ok tt

-- Bytes move either way, or a check comes due, at times that do not run backwards.
abbrev pub Moving : {E : Type 0} → ℕ → List (ℕ × Ready E) → Type 0
Moving before [] = Unit {0}
Moving before ((now, tick) ∷ later) = (before ≤ now) × Moving now later
Moving before ((now, outbound pass) ∷ later) = (before ≤ now) × IsMoved pass × Moving now later
Moving before ((now, inbound pass) ∷ later) = (before ≤ now) × IsMoved pass × Moving now later

abbrev pub moved_in : {E : Type 0} → List (ℕ × Ready E) → ℕ
moved_in [] = 0
moved_in ((now, tick) ∷ later) = moved_in later
moved_in ((now, outbound pass) ∷ later) = length (chunk_of pass.read) + moved_in later
moved_in ((now, inbound pass) ∷ later) = length (chunk_of pass.read) + moved_in later

-- Whether some check comes the deadline after the latest movement before it, the first of them being
-- at `last`.
abbrev pub is_reaped : {E : Type 0} → ℕ → ℕ → List (ℕ × Ready E) → Bool
is_reaped d last [] = false
is_reaped d last ((now, tick) ∷ later) =
    let rest = is_reaped d last later in if leb (as_millis d) (now - last) then true else rest
is_reaped d last ((now, outbound pass) ∷ later) = is_reaped d now later
is_reaped d last ((now, inbound pass) ∷ later) = is_reaped d now later

abbrev pub reason_of : {E : Type 0} → Option (Transfer × Ended E) → Option (Ended E)
reason_of none = none
reason_of (some (moved, reason)) = some reason

abbrev pub reaped_or_on : {E : Type 0} → ℕ → Bool → Option (Ended E)
reaped_or_on d true = some (idle d)
reaped_or_on d false = none

-- When anything last moved, zero where nothing has.
abbrev pub last_moved : Splice → ℕ
last_moved s =
    max (or_zero (moved_at s.outbound.direction)) (or_zero (moved_at s.inbound.direction))

abbrev pub carried_by : Splice → ℕ
carried_by s = s.outbound.direction.bytes + s.inbound.direction.bytes

module _ (E : Type 0) (d : ℕ) where
  tick-idle :
      (s : Splice) (now : ℕ)
      → leb (as_millis d) (now - last_moved s) ≡ true
      → reason_of (turn {E = E} (idle_after d) s now tick).1 ≡ some (idle d)
  unfolding turn tripped
  tick-idle s now late = ground (arith, late)

  tick-on :
      (s : Splice) (now : ℕ)
      → leb (as_millis d) (now - last_moved s) ≡ false
      → ((turn {E = E} (idle_after d) s now tick).1 ≡ none)
        × ((turn {E = E} (idle_after d) s now tick).0.outbound ≡ s.outbound)
        × ((turn {E = E} (idle_after d) s now tick).0.inbound ≡ s.inbound)
  unfolding turn tripped
  tick-on s now early = (ground arith, ground arith, ground arith)

  -- A pass that moves bytes at `now`.
  record Moved (s s' : Splice) (now : ℕ) (pass : Pass E) : Type 0 where
    last : last_moved s' ≡ now
    sum : carried_by s' ≡ carried_by s + length (chunk_of pass.read)

  outbound-Moved :
      (s : Splice) (now : ℕ) (pass : Pass E)
      → IsMoved pass
      → last_moved s ≤ now
      → carried_by s + length (chunk_of pass.read) < u64_mod
      → ((turn (idle_after d) s now (outbound pass)).1 ≡ none)
        × Moved s (turn (idle_after d) s now (outbound pass)).0 now pass
  unfolding turn record_moved moved_at
  outbound-Moved s now pass m order fits =
      rw (m.reads, m.writes, m.flushes) (refl, record { last = ground arith; sum = ground arith })

  inbound-Moved :
      (s : Splice) (now : ℕ) (pass : Pass E)
      → IsMoved pass
      → last_moved s ≤ now
      → carried_by s + length (chunk_of pass.read) < u64_mod
      → ((turn (idle_after d) s now (inbound pass)).1 ≡ none)
        × Moved s (turn (idle_after d) s now (inbound pass)).0 now pass
  unfolding turn record_moved moved_at
  inbound-Moved s now pass m order fits = ground arith

  reason_of-next :
      (t rest : Splice × Option (Transfer × Ended E))
      → t.1 ≡ none
      → reason_of (or_continue t rest).1 ≡ reason_of rest.1
  reason_of-next (s, none) rest e = refl
  reason_of-next (s, some r) rest e = cc

  reason_of-ends :
      (t rest : Splice × Option (Transfer × Ended E)) (reason : Ended E)
      → reason_of t.1 ≡ some reason
      → reason_of (or_continue t rest).1 ≡ some reason
  reason_of-ends (s, none) rest reason e = cc
  reason_of-ends (s, some r) rest reason e = e

  -- With an idle deadline alone a splice, whose passes move bytes without error and fewer than 2^64 in
  -- all, and whose times do not run backwards, is reaped as idle if and only if some check comes that
  -- deadline or more after the latest movement in either direction, or after the start where there is
  -- none; and it goes on if no check does.
  pub run-reaped :
      (events : List (ℕ × Ready E)) (s : Splice) (before : ℕ)
      → Moving before events
      → last_moved s ≤ before
      → carried_by s + moved_in events < u64_mod
      → reason_of (run (idle_after d) s events).1
        ≡ reaped_or_on d (is_reaped d (last_moved s) events)
  unfolding run
  run-reaped [] s before m order fits = refl
  run-reaped ((now, tick) ∷ later) s before m order fits =
      let t = turn {E = E} (idle_after d) s now tick in
      elim (Bool-cases (leb (as_millis d) (now - last_moved s))) [
        | inl late ↦
            rw late
              (reason_of-ends t (run (idle_after d) t.0 later) (idle d) (tick-idle s now late))
        | inr early ↦
            let (on, out, back) = tick-on s now early in
            let same : last_moved t.0 ≡ last_moved s = rw (out, back) refl in
            let sum : carried_by t.0 ≡ carried_by s = rw (out, back) refl in
            rw (early, ← same)
              (reason_of-next t (run (idle_after d) t.0 later) on
                ∙ run-reaped later t.0 now m.1 (omega (arith, same)) (omega (arith, sum)))
      ]
  run-reaped ((now, outbound pass) ∷ later) s before m order fits =
      let t = turn (idle_after d) s now (outbound pass) in
      let (on, moved) =
        outbound-Moved s now pass m.1 (omega (arith, order, m.0)) (omega (arith, fits)) in
      reason_of-next t (run (idle_after d) t.0 later) on
      ∙ run-reaped later t.0 now m.2 (omega (arith, moved.last)) (omega (arith, fits, moved.sum))
      ∙ ap (λ last. reaped_or_on d (is_reaped d last later)) moved.last
  run-reaped ((now, inbound pass) ∷ later) s before m order fits =
      let t = turn (idle_after d) s now (inbound pass) in
      let (on, moved) =
        inbound-Moved s now pass m.1 (omega (arith, order, m.0)) (omega (arith, fits)) in
      reason_of-next t (run (idle_after d) t.0 later) on
      ∙ run-reaped later t.0 now m.2 (omega (arith, moved.last)) (omega (arith, fits, moved.sum))
      ∙ ap (λ last. reaped_or_on d (is_reaped d last later)) moved.last
