-- ===== src/Splice/Prefixes.antt =====
-- src/splice.rs, `splice`: what the writers were handed, however the splice ended.
use mathlib.Core.List.{append-nil, append_assoc}
use lwd_mixnet_proxy.Common.{
  ℕ, ◌≡◌, refl, ap, ◌∙◌, sym, List, [], ◌∷◌, ◌++◌, Option, none, some, Result, ok, err, ◌⊎◌, inl,
  inr,
}
use lwd_mixnet_proxy.Splice.{Watchdog, Ended, Transfer}
use lwd_mixnet_proxy.Splice.Loop.{
  Pipe, Pass, Splice, Ready, outbound, inbound, tick, pump, turn, run, or_continue,
}
use lwd_mixnet_proxy.Splice.Copies.{
  chunk_of, read_from_local, read_from_remote, turn-TurnedOn, read_from_local_cons,
  read_from_remote_cons,
}

abbrev pub IsPrefix : List ℕ → List ℕ → Type 0
IsPrefix xs ys = (rest : List ℕ) × (ys ≡ xs ++ rest)

pub IsPrefix-trans : (xs ys zs : List ℕ) → IsPrefix xs ys → IsPrefix ys zs → IsPrefix xs zs
IsPrefix-trans xs ys zs (r, e) (q, h) = (r ++ q, h ∙ ap (λ t. t ++ q) e ∙ append_assoc xs r q)

-- The same bytes before both.
pub IsPrefix-append : (xs ys zs : List ℕ) → IsPrefix ys zs → IsPrefix (xs ++ ys) (xs ++ zs)
IsPrefix-append xs ys zs (r, e) = (r, ap (λ t. xs ++ t) e ∙ sym (append_assoc xs ys r))

-- What both writers have been handed, of what was there before and what was read since.
pub record Handed (before after : Splice) (from_local from_remote : List ℕ) : Type 0 where
  pub out : IsPrefix after.outbound.written (before.outbound.written ++ from_local)
  pub back : IsPrefix after.inbound.written (before.inbound.written ++ from_remote)

-- Nothing more is read after this chunk.
IsPrefix-last :
    (xs before chunk : List ℕ)
    → IsPrefix xs (before ++ chunk)
    → IsPrefix xs (before ++ (chunk ++ []))
IsPrefix-last xs before chunk (r, e) = (r, ap (λ t. before ++ t) (append-nil chunk) ∙ e)

-- What was handed over of a first stretch is a prefix of the whole.
IsPrefix-longer :
    (xs before first whole rest : List ℕ)
    → whole ≡ first ++ rest
    → IsPrefix xs (before ++ first)
    → IsPrefix xs (before ++ whole)
IsPrefix-longer xs before first whole rest w p =
    IsPrefix-trans xs (before ++ first) (before ++ whole) p
      (rest, ap (λ t. before ++ t) w ∙ sym (append_assoc before first rest))

-- All of a first stretch was handed over, and then this.
IsPrefix-on :
    (xs before between first whole rest : List ℕ)
    → whole ≡ first ++ rest
    → between ≡ before ++ first
    → IsPrefix xs (between ++ rest)
    → IsPrefix xs (before ++ whole)
IsPrefix-on xs before between first whole rest w b (r, e) = (
  r,
  ap (λ t. before ++ t) w ∙ sym (append_assoc before first rest) ∙ ap (λ t. t ++ rest) (sym b) ∙ e,
)

module _ {E : Type 0} where
  pump-IsPrefix :
      (p : Pipe) (now : ℕ) (pass : Pass E)
      → IsPrefix (pump p now pass).0.written (p.written ++ chunk_of pass.read)
  unfolding pump
  pump-IsPrefix p now pass = by_read pass.read pass.write pass.flush
    where
      by_read :
          (read : Result E (List ℕ)) (write flush : Result E (Unit {0}))
          → IsPrefix
              (pump p now (record { read = read; write = write; flush = flush })).0.written
              (p.written ++ chunk_of read)
      by_read (err e) write flush = ([], refl)
      by_read (ok []) write flush = ([], refl)
      by_read (ok (b ∷ bs)) (err e) flush = (b ∷ bs, refl)
      by_read (ok (b ∷ bs)) (ok u) (err e) = ([], sym (append-nil _))
      by_read (ok (b ∷ bs)) (ok u) (ok v) = ([], sym (append-nil _))

  turn-Handed :
      (w : Watchdog) (s : Splice) (now : ℕ) (ready : Ready E)
      → Handed s
          (turn w s now ready).0
          (read_from_local ((now, ready) ∷ []))
          (read_from_remote ((now, ready) ∷ []))
  unfolding turn
  turn-Handed w s now (outbound pass) = record {
    out = IsPrefix-last _ _ _ (pump-IsPrefix s.outbound now pass);
    back = ([], refl);
  }
  turn-Handed w s now (inbound pass) = record {
    out = ([], refl);
    back = IsPrefix-last _ _ _ (pump-IsPrefix s.inbound now pass);
  }
  turn-Handed w s now tick = record { out = ([], refl); back = ([], refl) }

  -- The loop over a first turn: the rest of it where it goes on, else that turn.
  or_continue-cases :
      (t rest : Splice × Option (Transfer × Ended E))
      → ((t.1 ≡ none) × (or_continue t rest ≡ rest)) ⊎ (or_continue t rest ≡ t)
  or_continue-cases (s, none) rest = inl (refl, refl)
  or_continue-cases (s, some r) rest = inr refl

  -- However a splice comes to an end, and while it goes on, each writer has been handed a beginning of
  -- what was read on the other side: no byte of it out of order, changed or added.
  pub run-Handed :
      (w : Watchdog) (events : List (ℕ × Ready E)) (s : Splice)
      → Handed s (run w s events).0 (read_from_local events) (read_from_remote events)
  unfolding run
  run-Handed w [] s = record { out = ([], refl); back = ([], refl) }
  run-Handed w ((now, ready) ∷ later) s =
      let t = turn w s now ready in
      let rest = run-Handed w later t.0 in
      let first = turn-Handed w s now ready in
      let local = read_from_local_cons now ready later in
      let remote = read_from_remote_cons now ready later in
      elim (or_continue-cases t (run w t.0 later)) [
        | inl (on, same) ↦
            let turned = turn-TurnedOn w s now ready on in
            rw same (record {
              out = IsPrefix-on _ _ _ _ _ _ local turned.out rest.out;
              back = IsPrefix-on _ _ _ _ _ _ remote turned.back rest.back;
            })
        | inr same ↦ rw same (record {
          out = IsPrefix-longer _ _ _ _ _ local first.out;
          back = IsPrefix-longer _ _ _ _ _ remote first.back;
        })
      ]
