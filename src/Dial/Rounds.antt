-- ===== src/Dial/Rounds.antt =====
-- src/dial.rs, `run_round`: what one round records, and how it ends.
use lwd_mixnet_proxy.Common.{
  ℕ, zero, suc, ◌+◌, ◌-◌, ◌≤◌, ◌<◌, ◌≡◌, refl, ap, Bool, true, false, not, List, [], ◌∷◌, ◌++◌,
  if◌then◌else◌, Option, none, some, Result, ok, err, inl, inr, Result-cases, arith, length,
  length-append,
}
use lwd_mixnet_proxy.Common.Words.{u32_mod}
use lwd_mixnet_proxy.Handshake.{HandshakeError}
use lwd_mixnet_proxy.Dial.{
  DialError, Discarded, Round, open_error, probe_error, failures_in, attempted, unanswered,
  is_open_failure,
}
use lwd_mixnet_proxy.Dial.Run.{
  Network, Probed, discard, opened_one, open_all, probe_all, first_answer, finish,
}

module _ {E N : Type 0} where
  pub failures_in-append :
      (m : DialError E N → Bool) (xs ys : List (Discarded E N))
      → failures_in m (xs ++ ys) ≡ failures_in m xs + failures_in m ys
  unfolding failures_in
  failures_in-append m [] ys = omega arith
  failures_in-append m (x ∷ xs) ys = ground (arith, failures_in-append m xs ys)

  -- The two kinds of failures are all of them.
  pub failures_split :
      (ds : List (Discarded E N))
      → failures_in is_open_failure ds + failures_in (λ e. not (is_open_failure e)) ds ≡ length ds
  unfolding failures_in
  failures_split [] = omega arith
  failures_split (d ∷ ds) = ground (arith, failures_split ds)

abbrev pub is_some {ℓ} : {A : Type ℓ} → Option A → Bool
is_some none = false
is_some (some _) = true

abbrev pub one_if : Bool → ℕ
one_if b = if b then 1 else 0

module _ {C W E N : Type 0} (net : Network C W E N) where
  -- Opening `n` more: each is an attempt, and nothing else changes but the streams kept.
  pub record Opened (n : ℕ) (r : Round E N) (ws : List W) (r' : Round E N) (ws' : List W)
      : Type 0 where
    pub attempts : attempted r' ≡ attempted r + n
    pub verdicts : unanswered r' ≡ unanswered r
    pub kept : r'.opened + length ws ≡ r.opened + length ws'
    pub most : r'.opened ≤ r.opened + n
    pub flag : r'.answered ≡ r.answered

  discard_open :
      (r : Round E N) (elapsed : ℕ) (e : N)
      → (attempted (discard net r elapsed (open_error e)) ≡ attempted r + 1)
        × (unanswered (discard net r elapsed (open_error e)) ≡ unanswered r)
  unfolding attempted unanswered
  discard_open r elapsed e = ground (
    arith,
    failures_in-append is_open_failure r.discarded
        (record { elapsed = elapsed; error = open_error e } ∷ []),
    failures_in-append (λ e. not (is_open_failure e)) r.discarded
        (record { elapsed = elapsed; error = open_error e } ∷ []),
  )

  discard_probe :
      (r : Round E N) (elapsed : ℕ) (e : HandshakeError E)
      → (attempted (discard net r elapsed (probe_error e)) ≡ attempted r)
        × (unanswered (discard net r elapsed (probe_error e)) ≡ unanswered r + 1)
  unfolding attempted unanswered
  discard_probe r elapsed e = ground (
    arith,
    failures_in-append is_open_failure r.discarded
        (record { elapsed = elapsed; error = probe_error e } ∷ []),
    failures_in-append (λ e. not (is_open_failure e)) r.discarded
        (record { elapsed = elapsed; error = probe_error e } ∷ []),
  )

  opened_one-Opened :
      (started : ℕ) (r : Round E N) (ws : List W) (o : Result N W × C)
      → r.opened + 1 < u32_mod
      → Opened 1 r ws (opened_one net started r ws o).0 (opened_one net started r ws o).1
  unfolding attempted unanswered
  opened_one-Opened started r ws (ok w, c) fits = ground (arith, length-append ws (w ∷ []))
  opened_one-Opened started r ws (err e, c) fits =
      let tried = discard_open r (net.clock c - started) e in
      record {
        attempts = tried.0;
        verdicts = tried.1;
        kept = refl;
        most = omega arith;
        flag = refl;
      }

  Opened-trans :
      (n : ℕ) (r r' r'' : Round E N) (ws ws' ws'' : List W)
      → Opened 1 r ws r' ws'
      → Opened n r' ws' r'' ws''
      → Opened (suc n) r ws r'' ws''
  Opened-trans n r r' r'' ws ws' ws'' x y = ground arith

  pub open_all-Opened :
      (surbs : Option ℕ) (started n : ℕ) (r : Round E N) (ws : List W) (c : C)
      → r.opened + n < u32_mod
      → Opened n r ws
          (open_all net surbs started n r ws c).0
          (open_all net surbs started n r ws c).1
  unfolding open_all
  open_all-Opened surbs started zero r ws c fits = record {
    attempts = omega arith;
    verdicts = refl;
    kept = refl;
    most = omega arith;
    flag = refl;
  }
  open_all-Opened surbs started (suc n) r ws c fits =
      let one = opened_one net started r ws (net.open_stream surbs c) in
      let first = opened_one-Opened started r ws (net.open_stream surbs c) (omega arith) in
      Opened-trans n r one.0 _ ws one.1 _ first
        (open_all-Opened surbs started n one.0 one.1 one.2 (omega (arith, first.most)))

  pub length-probe_all :
      (timeout from : ℕ) (ws : List W) (token : ℕ)
      → length (probe_all net timeout from token ws).0 ≡ length ws
  unfolding probe_all
  length-probe_all timeout from [] token = refl
  length-probe_all timeout from (w ∷ ws) token = ap suc (length-probe_all timeout from ws _)

  -- How the answers to the probes of `n` streams leave the round.
  pub record Heard (n : ℕ) (r : Round E N) (answer : Option (W × ℕ)) (r' : Round E N) : Type 0 where
    pub attempts : attempted r' ≡ attempted r
    pub opened : r'.opened ≡ r.opened
    pub flag : r'.answered ≡ is_some answer
    pub verdicts : unanswered r' + one_if r'.answered ≤ unanswered r + n
    pub all_verdicts : r'.answered ≡ false → unanswered r' ≡ unanswered r + n

  pub answered-Heard :
      (n elapsed : ℕ) (w : W) (r : Round E N)
      → r.answered ≡ false
      → Heard (suc n) r (some (w, elapsed)) (record r { answered = true })
  unfolding attempted unanswered
  answered-Heard n elapsed w r no_answer = ground arith

  pub discarded-Heard :
      (n elapsed : ℕ) (e : HandshakeError E) (r : Round E N) (answer : Option (W × ℕ))
      (r' : Round E N)
      → Heard n (discard net r elapsed (probe_error e)) answer r'
      → Heard (suc n) r answer r'
  discarded-Heard n elapsed e r answer r' h = ground (arith, discard_probe r elapsed e)

  pub first_answer-Heard :
      (started time : ℕ) (r : Round E N) (ps : List (Probed W E))
      → r.answered ≡ false
      → Heard
          (length ps)
          r
          (first_answer net started time r ps).0
          (first_answer net started time r ps).1
  unfolding first_answer
  first_answer-Heard started time r [] no_answer = ground arith
  first_answer-Heard started time r (p ∷ ps) no_answer = elim (Result-cases p.outcome) [
    | inl (d, e) ↦
        rw (e, first_answer)
          (answered-Heard (length ps) (finish net p - started) p.stream r no_answer)
    | inr (x, e) ↦
        rw (e, first_answer)
          (discarded-Heard (length ps) (finish net p - started) x r _ _ (
            first_answer-Heard started (finish net p)
              (discard net r (finish net p - started) (probe_error x)) ps no_answer))
  ]
