-- ===== src/Splice/Silence.antt =====
-- src/splice.rs, the loop of `splice`: a far side that stops answering is found out, whatever the
-- near side goes on writing.
use lwd_mixnet_proxy.Common.{
  ℕ, ◌+◌, ◌-◌, ◌≤◌, ◌<◌, ◌≡◌, refl, ◌⊎◌, inl, inr, false, List, [], ◌∷◌, ◌++◌, Option, none, some,
  ok, err, length, arith, leb, leb→le, Bool-cases,
}
use lwd_mixnet_proxy.Common.Words.{u64_mod}
use lwd_mixnet_proxy.Splice.{
  Watchdog, Ended, stalled, Transfer, as_millis, moved_at, record_moved, or_zero, tripped, since,
}
use lwd_mixnet_proxy.Splice.Loop.{
  Pass, Splice, Ready, outbound, inbound, tick, turn, run, or_continue,
}

-- What a stretch of a splice looks like in which the far side says nothing: the near side writes,
-- or a check comes due, at times that do not run backwards from `before` on.
abbrev pub Unheard : {E : Type 0} → ℕ → List (ℕ × Ready E) → Type 0
Unheard before [] = Unit {0}
Unheard before ((now, tick) ∷ later) = (before ≤ now) × Unheard now later
Unheard before ((now, inbound pass) ∷ later) = ⊥
Unheard before ((now, outbound pass) ∷ later) =
    (before ≤ now)
    × ((chunk : List ℕ) × (pass.read ≡ ok chunk) × (0 < length chunk))
    × (pass.write ≡ ok tt)
    × (pass.flush ≡ ok tt)
    × Unheard now later

abbrev pub Stalls : {S E : Type 0} → ℕ → S × Option (Transfer × Ended E) → Type 0
Stalls d (s, none) = ⊥
Stalls d (s, some (moved, reason)) = reason ≡ stalled d

-- Both kinds of deadline are the client's: it sets the stall deadline alone.
abbrev pub stall_after : ℕ → Watchdog
stall_after d = record { stall = some d; idle = none }

-- A request is out at `before`, and nothing has come back since it was last written to.
pub record IsUnanswered (s : Splice) (before : ℕ) : Type 0 where
  pub asked : 0 < s.outbound.direction.bytes
  pub latest : s.outbound.direction.last_at_millis ≤ before
  pub silent :
      (s.inbound.direction.bytes ≡ 0)
      ⊎ (s.inbound.direction.last_at_millis < s.outbound.direction.last_at_millis)

-- And the clock of that runs from `start`.
record IsRunning (s : Splice) (start before : ℕ) : Type 0 where
  open_request : IsUnanswered s before
  started : s.clock.since_millis ≡ some start
  heard_before : (s.inbound.direction.bytes ≡ 0) ⊎ (s.inbound.direction.last_at_millis ≤ start)

-- The bytes that the near side writes in a stretch.
abbrev pub asked_in : {E : Type 0} → List (ℕ × Ready E) → ℕ
asked_in [] = 0
asked_in ((now, outbound pass) ∷ later) =
    (elim pass.read [ ok chunk ↦ length chunk | err _ ↦ 0 ]) + asked_in later
asked_in ((now, _) ∷ later) = asked_in later

module _ (E : Type 0) (d : ℕ) where
  tick_ends :
      (s : Splice) (start before now : ℕ)
      → IsRunning s start before
      → as_millis d ≤ now - start
      → Stalls d (turn {E = E} (stall_after d) s now tick)
  unfolding turn tripped moved_at
  tick_ends s start before now r late = ground arith

  tick_runs :
      (s : Splice) (start before now : ℕ)
      → IsRunning s start before
      → before ≤ now
      → leb (as_millis d) (now - start) ≡ false
      → ((turn {E = E} (stall_after d) s now tick).1 ≡ none)
        × IsRunning (turn {E = E} (stall_after d) s now tick).0 start now
        × ((turn {E = E} (stall_after d) s now tick).0.outbound.direction.bytes
            ≡ s.outbound.direction.bytes)
  unfolding turn tripped moved_at
  tick_runs s start before now r later early = (ground arith, ground arith, refl)

  write_runs :
      (s : Splice) (start before now : ℕ) (pass : Pass E) (chunk : List ℕ)
      → IsRunning s start before
      → before ≤ now
      → pass.read ≡ ok chunk
      → 0 < length chunk
      → pass.write ≡ ok tt
      → pass.flush ≡ ok tt
      → s.outbound.direction.bytes + length chunk < u64_mod
      → ((turn (stall_after d) s now (outbound pass)).1 ≡ none)
        × IsRunning (turn (stall_after d) s now (outbound pass)).0 start now
        × ((turn (stall_after d) s now (outbound pass)).0.outbound.direction.bytes
            ≡ s.outbound.direction.bytes + length chunk)
  unfolding turn record_moved
  write_runs s start before now pass [] r later reads some_bytes writes flushes fits =
      absurd (omega arith)
  write_runs s start before now pass (b ∷ bs) r later reads some_bytes writes flushes fits =
      ground arith

  or_next :
      (t rest : Splice × Option (Transfer × Ended E))
      → t.1 ≡ none
      → Stalls d rest
      → Stalls d (or_continue t rest)
  or_next (s, none) rest e h = h
  or_next (s, some r) rest e h = cc

  or_ends :
      (t rest : Splice × Option (Transfer × Ended E)) → Stalls d t → Stalls d (or_continue t rest)
  or_ends (s, none) rest h = absurd h
  or_ends (s, some r) rest h = h

  run_next :
      (s : Splice) (now : ℕ) (ready : Ready E) (later : List (ℕ × Ready E))
      → (turn (stall_after d) s now ready).1 ≡ none
      → Stalls d (run (stall_after d) (turn (stall_after d) s now ready).0 later)
      → Stalls d (run (stall_after d) s ((now, ready) ∷ later))
  unfolding run
  run_next s now ready later goes_on h = or_next _ _ goes_on h

  run_ends :
      (s : Splice) (now : ℕ) (ready : Ready E) (later : List (ℕ × Ready E))
      → Stalls d (turn (stall_after d) s now ready)
      → Stalls d (run (stall_after d) s ((now, ready) ∷ later))
  unfolding run
  run_ends s now ready later h = or_ends _ _ h

  -- The last check comes at or after `start` and the deadline, and some check ends the splice.
  run-Stalls :
      (now : ℕ) (later : List (ℕ × Ready E)) (s : Splice) (start before : ℕ)
      → IsRunning s start before
      → Unheard before (later ++ ((now, tick) ∷ []))
      → s.outbound.direction.bytes + asked_in later < u64_mod
      → start + as_millis d ≤ now
      → Stalls d (run (stall_after d) s (later ++ ((now, tick) ∷ [])))
  run-Stalls now [] s start before r u fits late =
      run_ends s now tick [] (tick_ends s start before now r (omega arith))
  run-Stalls now ((at, inbound pass) ∷ later) s start before r u fits late = absurd u
  run-Stalls now ((at, outbound pass) ∷ later) s start before r u fits late =
      let (order, (chunk, reads, some_bytes), writes, flushes, rest) = u in
      let room : s.outbound.direction.bytes + length chunk + asked_in later < u64_mod =
        ground (arith, reads) in
      let (goes_on, r', sum) =
        write_runs s start before at pass chunk r order reads some_bytes writes flushes
          (omega arith) in
      run_next s at (outbound pass) _ goes_on
        (run-Stalls now later _ start at r' rest (omega (arith, sum)) late)
  run-Stalls now ((at, tick) ∷ later) s start before r u fits late =
      elim (Bool-cases (leb (as_millis d) (at - start))) [
        | inl over ↦ run_ends s at tick _ (tick_ends s start before at r (leb→le _ _ over))
        | inr early ↦
            let (goes_on, r', same) = tick_runs s start before at r u.0 early in
            run_next s at tick _ goes_on
              (run-Stalls now later _ start at r' u.1 (omega (arith, same)) late)
      ]

  abbrev starts : Splice → ℕ
  starts s = since s.clock s.outbound.direction.last_at_millis (moved_at s.inbound.direction)

  module _ (s : Splice) (before first : ℕ) (waiting : IsUnanswered s before)
      (order : before ≤ first) (past : or_zero s.clock.since_millis ≤ first) where
    starts_past : starts s ≤ first
    unfolding moved_at
    starts_past = ground arith

    first_tick_ends :
        as_millis d ≤ first - starts s → Stalls d (turn {E = E} (stall_after d) s first tick)
    unfolding turn tripped moved_at
    first_tick_ends late = ground arith

    first_tick_runs :
        leb (as_millis d) (first - starts s) ≡ false
        → ((turn {E = E} (stall_after d) s first tick).1 ≡ none)
          × IsRunning (turn {E = E} (stall_after d) s first tick).0 (starts s) first
          × ((turn {E = E} (stall_after d) s first tick).0.outbound.direction.bytes
              ≡ s.outbound.direction.bytes)
    unfolding turn tripped moved_at
    first_tick_runs early = (ground arith, ground arith, refl)

    -- While a request stays unanswered, further writes do not postpone the stall deadline: with
    -- that deadline alone set, fewer than 2^64 bytes written in all, times that do not run
    -- backwards, the stall clock started by `first` if at all, and a first check at `first` and
    -- another at the deadline after it or later, the splice ends as stalled by then, whatever is
    -- written and checked in between.
    pub unanswered-Stalls :
        (now : ℕ) (later : List (ℕ × Ready E))
        → Unheard first (later ++ ((now, tick) ∷ []))
        → s.outbound.direction.bytes + asked_in later < u64_mod
        → first + as_millis d ≤ now
        → Stalls d (run (stall_after d) s ((first, tick) ∷ (later ++ ((now, tick) ∷ []))))
    unanswered-Stalls now later u fits late =
        elim (Bool-cases (leb (as_millis d) (first - starts s))) [
          | inl over ↦ run_ends s first tick _ (first_tick_ends (leb→le _ _ over))
          | inr early ↦
              let (goes_on, r, same) = first_tick_runs early in
              run_next s first tick _ goes_on (
                run-Stalls now later _ (starts s) first r u (omega (arith, same))
                  (omega (arith, starts_past)))
        ]
