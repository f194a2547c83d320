-- ===== src/Splice/Polls/Passes.antt =====
-- src/splice.rs, `splice` and `pump`: the polls of a run, told as the passes that they make up.
use mathlib.Core.List.{append-nil}
use lwd_mixnet_proxy.Common.{
  ℕ, zero, suc, ◌≡◌, refl, ap, sym, List, [], ◌∷◌, ◌++◌, take, drop, Option, none, some, ok, err,
}
use lwd_mixnet_proxy.Splice.{Watchdog}
use lwd_mixnet_proxy.Splice.Loop.{Pipe, Pass, Ready, outbound, inbound, tick}
use lwd_mixnet_proxy.Splice.Prefixes.{IsPrefix}
use lwd_mixnet_proxy.Splice.Polls.{
  Pc, reading, writing, flushing, Pump, Answers, on_taken, Polling, Woken, polls_outbound,
  polls_inbound, checks, wake,
}

module _ {E : Type 0} where
  -- The pass that a pump ends with a poll, if it ends one.
  unfoldable pub pass_of : Pc → Answers E → Option (Pass E)
  pass_of reading a = elim a.read [
    | err e ↦ some (record { read = err e; write = ok tt; flush = ok tt })
    | ok [] ↦ some (record { read = ok []; write = ok tt; flush = ok tt })
    | ok (b ∷ bs) ↦ none
  ]
  pass_of (writing taken rest) a = elim a.write [
    | err e ↦ some (record { read = ok (taken ++ rest); write = err e; flush = ok tt })
    | ok n ↦ none
  ]
  pass_of (flushing chunk) a = some (record { read = ok chunk; write = ok tt; flush = a.flush })

  abbrev pub ready_at : ℕ → (Pass E → Ready E) → Option (Pass E) → List (ℕ × Ready E)
  ready_at now ready none = []
  ready_at now ready (some pass) = (now, ready pass) ∷ []

  unfoldable pub passes_in : Polling → ℕ → Woken E → List (ℕ × Ready E)
  unfolding pass_of
  passes_in s now (polls_outbound a) = ready_at now outbound (pass_of s.outbound.at a)
  passes_in s now (polls_inbound a) = ready_at now inbound (pass_of s.inbound.at a)
  passes_in s now checks = (now, tick) ∷ []

  -- What becomes ready in a run, with a pump's pass where it ends.
  unfoldable pub passes : Watchdog → Polling → List (ℕ × Woken E) → List (ℕ × Ready E)
  unfolding passes_in
  passes w s [] = []
  passes w s ((now, woken) ∷ later) =
      let rest = passes w (wake w s now woken).0 later in passes_in s now woken ++ rest

-- What of the chunk that a pump holds its writer has taken.
abbrev pub taken_of : Pc → List ℕ
taken_of reading = []
taken_of (writing taken rest) = taken
taken_of (flushing chunk) = chunk

-- The chunk that a pump holds.
abbrev pub held : Pc → List ℕ
held reading = []
held (writing taken rest) = taken ++ rest
held (flushing chunk) = chunk

-- A pump that does not wait for a read holds a chunk that is not empty.
abbrev pub IsHolding : Pc → Type 0
IsHolding reading = Unit {0}
IsHolding pc = (b : ℕ) × (bs : List ℕ) × (held pc ≡ b ∷ bs)

-- A pump between two polls, and the pipe that its ended passes leave.
pub record Matches (p : Pump) (q : Pipe) : Type 0 where
  pub same_direction : p.direction ≡ q.direction
  pub taken : p.written ≡ q.written ++ taken_of p.at
  pub holding : IsHolding p.at

-- The same, with the pump perhaps in the midst of a chunk of which more or less was taken.
pub record Exceeds (p : Pump) (q : Pipe) : Type 0 where
  pub same_direction : p.direction ≡ q.direction
  pub part : List ℕ
  pub more : p.written ≡ q.written ++ part
  pub within : IsPrefix part (held p.at)

pub take-append-drop : (n : ℕ) (xs : List ℕ) → take n xs ++ drop n xs ≡ xs
take-append-drop zero xs = refl
take-append-drop (suc n) [] = refl
take-append-drop (suc n) (x ∷ xs) = ap (◌∷◌ x) (take-append-drop n xs)

pub taken-IsPrefix : (pc : Pc) → IsPrefix (taken_of pc) (held pc)
taken-IsPrefix reading = ([], refl)
taken-IsPrefix (writing taken rest) = (rest, refl)
taken-IsPrefix (flushing chunk) = ([], sym (append-nil chunk))

pub Matches-Exceeds : (p : Pump) (q : Pipe) → Matches p q → Exceeds p q
Matches-Exceeds p q m = record {
  same_direction = m.same_direction;
  part = taken_of p.at;
  more = m.taken;
  within = taken-IsPrefix p.at;
}

-- The writer takes some of what is left.
pub on_taken_of :
    (taken rest : List ℕ)
    → (taken_of (on_taken taken rest) ≡ taken) × (held (on_taken taken rest) ≡ taken ++ rest)
unfolding on_taken
on_taken_of taken [] = (refl, sym (append-nil taken))
on_taken_of taken (b ∷ rest) = (refl, refl)

pub held-IsHolding : (pc : Pc) (b : ℕ) (bs : List ℕ) → held pc ≡ b ∷ bs → IsHolding pc
held-IsHolding reading b bs e = tt
held-IsHolding (writing taken rest) b bs e = (b, bs, e)
held-IsHolding (flushing chunk) b bs e = (b, bs, e)
