-- ===== src/Splice/Copies.antt =====
-- src/splice.rs, `pump` and `splice`: the bytes that go through, and the counts that are reported.
use mathlib.Core.List.{append-nil, append_assoc}
use lwd_mixnet_proxy.Common.{
  ℕ, ◌+◌, ◌%◌, ◌≡◌, refl, ap, ◌∙◌, sym, List, [], ◌∷◌, ◌++◌, Option, none, some, Result, ok, err,
  length, length-append, arith,
}
use lwd_mixnet_proxy.Common.Words.{u64_mod}
use lwd_mixnet_proxy.Splice.{Watchdog, Ended, Transfer, record_moved}
use lwd_mixnet_proxy.Splice.Loop.{
  Pipe, Pass, Splice, Ready, outbound, inbound, tick, pump, turn, run, or_continue,
}

-- What the reads of a stretch put in the buffer, one after the other.
abbrev pub chunk_of : {E : Type 0} → Result E (List ℕ) → List ℕ
chunk_of (ok chunk) = chunk
chunk_of (err e) = []

abbrev pub read_from_local : {E : Type 0} → List (ℕ × Ready E) → List ℕ
read_from_local [] = []
read_from_local ((now, outbound pass) ∷ later) = chunk_of pass.read ++ read_from_local later
read_from_local ((now, inbound pass) ∷ later) = read_from_local later
read_from_local ((now, tick) ∷ later) = read_from_local later

abbrev pub read_from_remote : {E : Type 0} → List (ℕ × Ready E) → List ℕ
read_from_remote [] = []
read_from_remote ((now, outbound pass) ∷ later) = read_from_remote later
read_from_remote ((now, inbound pass) ∷ later) = chunk_of pass.read ++ read_from_remote later
read_from_remote ((now, tick) ∷ later) = read_from_remote later

-- Each count is the number of bytes handed over, as 64 bits hold it.
pub record IsCounted (s : Splice) : Type 0 where
  pub out : s.outbound.direction.bytes ≡ length s.outbound.written % u64_mod
  pub back : s.inbound.direction.bytes ≡ length s.inbound.written % u64_mod

joined :
    (first rest before : List ℕ) {whole between after : List ℕ}
    → whole ≡ first ++ rest
    → after ≡ between ++ rest
    → between ≡ before ++ first
    → after ≡ before ++ whole
joined first rest before w a b =
    a ∙ ap (λ t. t ++ rest) b ∙ append_assoc before first rest ∙ ap (◌++◌ before) (sym w)

module _ {E : Type 0} where
  -- A pass after which the pump goes on hands over just what it read, and counts it.
  pump_on :
      (p : Pipe) (now : ℕ) (pass : Pass E)
      → (pump p now pass).1 ≡ none
      → ((pump p now pass).0.written ≡ p.written ++ chunk_of pass.read)
        × ((pump p now pass).0.direction.bytes
            ≡ (p.direction.bytes + length (chunk_of pass.read)) % u64_mod)
  unfolding pump record_moved
  pump_on p now pass e = ground arith

  pump_counts :
      (p : Pipe) (now : ℕ) (pass : Pass E)
      → (pump p now pass).1 ≡ none
      → p.direction.bytes ≡ length p.written % u64_mod
      → (pump p now pass).0.direction.bytes ≡ length (pump p now pass).0.written % u64_mod
  pump_counts p now pass e h =
      let (wrote, moved) = pump_on p now pass e in
      omega (arith, moved, ap length wrote, length-append p.written (chunk_of pass.read))

  -- What `turn` makes of the result of a pump that goes on, or of one that returns.
  turn-pump_on :
      (w : Watchdog) (s : Splice) (now : ℕ) (pass : Pass E)
      → ((turn w s now (outbound pass)).1 ≡ none → (pump s.outbound now pass).1 ≡ none)
        × ((turn w s now (inbound pass)).1 ≡ none → (pump s.inbound now pass).1 ≡ none)
  unfolding turn
  turn-pump_on w s now pass = (λ e. ground arith, λ e. ground arith)

  -- A turn after which the loop goes on.
  pub record TurnedOn (s s' : Splice) (now : ℕ) (ready : Ready E) : Type 0 where
    pub out : s'.outbound.written ≡ s.outbound.written ++ read_from_local ((now, ready) ∷ [])
    pub back : s'.inbound.written ≡ s.inbound.written ++ read_from_remote ((now, ready) ∷ [])
    pub counts : IsCounted s → IsCounted s'

  pub turn-TurnedOn :
      (w : Watchdog) (s : Splice) (now : ℕ) (ready : Ready E)
      → (turn w s now ready).1 ≡ none
      → TurnedOn s (turn w s now ready).0 now ready
  turn-TurnedOn w s now (outbound pass) e =
      let on = (turn-pump_on w s now pass).0 e in
      let wrote = (pump_on s.outbound now pass on).0 in
      unfold turn in
      record {
        out = wrote ∙ ap (◌++◌ s.outbound.written) (sym (append-nil (chunk_of pass.read)));
        back = sym (append-nil s.inbound.written);
        counts = λ c. record { out = pump_counts s.outbound now pass on c.out; back = c.back };
      }
  turn-TurnedOn w s now (inbound pass) e =
      let on = (turn-pump_on w s now pass).1 e in
      let wrote = (pump_on s.inbound now pass on).0 in
      unfold turn in
      record {
        out = sym (append-nil s.outbound.written);
        back = wrote ∙ ap (◌++◌ s.inbound.written) (sym (append-nil (chunk_of pass.read)));
        counts = λ c. record { out = c.out; back = pump_counts s.inbound now pass on c.back };
      }
  turn-TurnedOn w s now tick e =
      unfold turn in
      record {
        out = sym (append-nil s.outbound.written);
        back = sym (append-nil s.inbound.written);
        counts = λ c. record { out = c.out; back = c.back };
      }

  run_head :
      (t rest : Splice × Option (Transfer × Ended E))
      → (or_continue t rest).1 ≡ none
      → (t.1 ≡ none) × (rest.1 ≡ none) × (or_continue t rest ≡ rest)
  run_head (s, none) rest e = (refl, e, refl)
  run_head (s, some r) rest e = cc

  pub read_from_local_cons :
      (now : ℕ) (ready : Ready E) (later : List (ℕ × Ready E))
      → read_from_local ((now, ready) ∷ later)
        ≡ read_from_local ((now, ready) ∷ []) ++ read_from_local later
  read_from_local_cons now (outbound pass) later = simp append-nil
  read_from_local_cons now (inbound pass) later = refl
  read_from_local_cons now tick later = refl

  pub read_from_remote_cons :
      (now : ℕ) (ready : Ready E) (later : List (ℕ × Ready E))
      → read_from_remote ((now, ready) ∷ later)
        ≡ read_from_remote ((now, ready) ∷ []) ++ read_from_remote later
  read_from_remote_cons now (outbound pass) later = refl
  read_from_remote_cons now (inbound pass) later = simp append-nil
  read_from_remote_cons now tick later = refl

  -- While a splice goes on, each writer has been handed what was read on the other side, every byte
  -- of it in its order and nothing else, and the two counts are the numbers of those bytes, as 64
  -- bits hold them.
  pub run-transparent :
      (w : Watchdog) (events : List (ℕ × Ready E)) (s : Splice)
      → (run w s events).1 ≡ none
      → IsCounted s
      → ((run w s events).0.outbound.written ≡ s.outbound.written ++ read_from_local events)
        × ((run w s events).0.inbound.written ≡ s.inbound.written ++ read_from_remote events)
        × IsCounted (run w s events).0
  unfolding run
  run-transparent w [] s e c = (sym (append-nil _), sym (append-nil _), c)
  run-transparent w ((now, ready) ∷ later) s e c =
      let (on, rest_on, same) =
        run_head (turn w s now ready) (run w (turn w s now ready).0 later) e in
      let turned = turn-TurnedOn w s now ready on in
      let (out, back, counted) =
        run-transparent w later (turn w s now ready).0 rest_on (turned.counts c) in
      rw same (
        joined _ _ _ (read_from_local_cons now ready later) out turned.out,
        joined _ _ _ (read_from_remote_cons now ready later) back turned.back,
        counted,
      )
