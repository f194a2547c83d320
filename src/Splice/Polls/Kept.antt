-- ===== src/Splice/Polls/Kept.antt =====
-- src/splice.rs, `splice` and `pump`, poll by poll: where each byte is that was read.
use mathlib.Core.List.{append-nil, append_assoc}
use lwd_mixnet_proxy.Common.{
  ℕ, ◌≡◌, refl, ap, ◌∙◌, sym, List, [], ◌∷◌, ◌++◌, take, drop, Option, none, some, Result, ok, err,
}
use lwd_mixnet_proxy.Splice.{Watchdog, Ended, Direction, Transfer}
use lwd_mixnet_proxy.Splice.Polls.{
  Pc, reading, writing, flushing, Pump, Answers, on_taken, poll, Polling, Woken, polls_outbound,
  polls_inbound, checks, wake, or_go_on, run_polls,
}
use lwd_mixnet_proxy.Splice.Polls.Passes.{take-append-drop}

-- What of its chunk a pump has still to hand to its writer.
abbrev pub left : Pc → List ℕ
left (writing taken rest) = rest
left _ = []

-- What a pump takes from its reader when it is polled.
unfoldable pub reads : {E : Type 0} → Pc → Answers E → List ℕ
reads reading a = elim a.read [ ok chunk ↦ chunk | err _ ↦ [] ]
reads _ a = []

-- The two pumps of a splice.
pub data Side : Type 0 where
  to_remote from_remote : Side

abbrev pub pump_at : Side → Polling → Pump
pump_at to_remote s = s.outbound
pump_at from_remote s = s.inbound

unfoldable pub reads_at : {E : Type 0} → Side → Polling → Woken E → List ℕ
unfolding reads
reads_at to_remote s (polls_outbound a) = reads s.outbound.at a
reads_at from_remote s (polls_inbound a) = reads s.inbound.at a
reads_at _ s _ = []

abbrev pub kept : Pump → List ℕ
kept p = p.written ++ left p.at

left_on_taken : (taken rest : List ℕ) → left (on_taken taken rest) ≡ rest
unfolding on_taken
left_on_taken taken [] = refl
left_on_taken taken (b ∷ rest) = refl

module _ {E : Type 0} where
  -- All that the pump reads in a run, up to where the run ends.
  unfoldable pub reads_in : Watchdog → Side → Polling → List (ℕ × Woken E) → List ℕ
  unfolding reads_at
  reads_in w side s [] = []
  reads_in w side s ((now, woken) ∷ later) =
      let rest = reads_in w side (wake w s now woken).0 later in
      reads_at side s woken ++ elim (wake w s now woken).1 [ none ↦ rest | some _ ↦ [] ]

  reading-kept :
      (d : Direction) (w : List ℕ) (now : ℕ) (r : Result E (List ℕ)) (write : Result E ℕ)
      (flush : Result E (Unit {0}))
      → let p : Pump = record { direction = d; written = w; at = reading } in
        let a : Answers E = record { read = r; write = write; flush = flush } in
        kept (poll p now a).0 ≡ kept p ++ reads p.at a
  unfolding poll reads
  reading-kept d w now (err e) write flush = sym (append-nil _)
  reading-kept d w now (ok []) write flush = sym (append-nil _)
  reading-kept d w now (ok (b ∷ bs)) write flush = ap (λ z. z ++ (b ∷ bs)) (sym (append-nil w))

  writing-kept :
      (d : Direction) (w taken rest : List ℕ) (now : ℕ) (read : Result E (List ℕ)) (r : Result E ℕ)
      (flush : Result E (Unit {0}))
      → let p : Pump = record { direction = d; written = w; at = writing taken rest } in
        let a : Answers E = record { read = read; write = r; flush = flush } in
        kept (poll p now a).0 ≡ kept p ++ []
  unfolding poll
  writing-kept d w taken rest now read (err e) flush = sym (append-nil _)
  writing-kept d w taken rest now read (ok n) flush =
      rw (left_on_taken (taken ++ take n rest) (drop n rest), append-nil (w ++ rest))
        (append_assoc w (take n rest) (drop n rest) ∙ ap (λ z. w ++ z) (take-append-drop n rest))

  flushing-kept :
      (d : Direction) (w chunk : List ℕ) (now : ℕ) (read : Result E (List ℕ)) (write : Result E ℕ)
      (r : Result E (Unit {0}))
      → let p : Pump = record { direction = d; written = w; at = flushing chunk } in
        let a : Answers E = record { read = read; write = write; flush = r } in
        kept (poll p now a).0 ≡ kept p ++ []
  unfolding poll
  flushing-kept d w chunk now read write (err e) = sym (append-nil _)
  flushing-kept d w chunk now read write (ok _) = sym (append-nil _)

  poll-kept : (p : Pump) (now : ℕ) (a : Answers E) → kept (poll p now a).0 ≡ kept p ++ reads p.at a
  unfolding reads
  poll-kept p now a = by_pc p.at
    where
      by_pc :
          (pc : Pc)
          → let p' : Pump = record p { at = pc } in kept (poll p' now a).0 ≡ kept p' ++ reads pc a
      by_pc reading = reading-kept p.direction p.written now a.read a.write a.flush
      by_pc (writing taken rest) =
          writing-kept p.direction p.written taken rest now a.read a.write a.flush
      by_pc (flushing chunk) = flushing-kept p.direction p.written chunk now a.read a.write a.flush

  wake-kept :
      (w : Watchdog) (side : Side) (s : Polling) (now : ℕ) (woken : Woken E)
      → kept (pump_at side (wake w s now woken).0) ≡ kept (pump_at side s) ++ reads_at side s woken
  unfolding wake reads_at
  wake-kept w to_remote s now (polls_outbound a) = poll-kept s.outbound now a
  wake-kept w from_remote s now (polls_inbound a) = poll-kept s.inbound now a
  wake-kept w to_remote s now (polls_inbound a) = sym (append-nil _)
  wake-kept w from_remote s now (polls_outbound a) = sym (append-nil _)
  wake-kept w to_remote s now checks = sym (append-nil _)
  wake-kept w from_remote s now checks = sym (append-nil _)

  -- At every moment of a splice, and where it ends, however its polls and checks fall: the bytes that a
  -- pump has read are those that its writer was handed and, after them, what it has still to hand over of
  -- the one chunk that it holds. None is lost but these, and none comes twice or in another place.
  pub run_polls-kept :
      (w : Watchdog) (side : Side) (events : List (ℕ × Woken E)) (s : Polling)
      → kept (pump_at side (run_polls w s events).0)
        ≡ kept (pump_at side s) ++ reads_in w side s events
  unfolding run_polls reads_in
  run_polls-kept w side [] s = sym (append-nil _)
  run_polls-kept w side ((now, woken) ∷ later) s =
      on (wake w s now woken) refl (λ u. run_polls-kept w side later u)
    where
      turned :
          (u : Polling × Option (Transfer × Ended E))
          → u ≡ wake w s now woken
          → kept (pump_at side u.0) ≡ kept (pump_at side s) ++ reads_at side s woken
      turned u e = ap (λ z. kept (pump_at side z.0)) e ∙ wake-kept w side s now woken

      on :
          (u : Polling × Option (Transfer × Ended E))
          → u ≡ wake w s now woken
          → ((v : Polling)
              → kept (pump_at side (run_polls w v later).0)
                ≡ kept (pump_at side v) ++ reads_in w side v later)
          → kept (pump_at side (or_go_on u (run_polls w u.0 later)).0)
            ≡ kept (pump_at side s)
              ++ (reads_at side s woken
                  ++ elim u.1 [ none ↦ reads_in w side u.0 later | some _ ↦ [] ])
      on (u, none) e rest =
          rest u
          ∙ ap (λ z. z ++ reads_in w side u later) (turned (u, none) e)
          ∙ append_assoc (kept (pump_at side s)) (reads_at side s woken) (reads_in w side u later)
      on (u, some r) e rest =
          turned (u, some r) e
          ∙ ap (λ z. kept (pump_at side s) ++ z) (sym (append-nil (reads_at side s woken)))
