-- ===== src/Splice/Polls/Pumps.antt =====
-- src/splice.rs, `pump`: one poll of a pump goes on with its pass, or ends it.
use mathlib.Core.List.{append-nil, append_assoc}
use lwd_mixnet_proxy.Common.{
  ℕ, ◌≡◌, refl, ap, ◌∙◌, sym, List, [], ◌∷◌, ◌++◌, take, drop, length, none, some, Result, ok, err,
  ◌⊎◌, inl, inr,
}
use lwd_mixnet_proxy.Splice.{Direction, record_moved}
use lwd_mixnet_proxy.Splice.Loop.{Pipe, Pass, pump, after_write}
use lwd_mixnet_proxy.Splice.Polls.{Pc, reading, writing, flushing, Pump, Answers, poll}
use lwd_mixnet_proxy.Splice.Polls.Passes.{
  pass_of, Matches, Exceeds, Matches-Exceeds, take-append-drop, on_taken_of, held-IsHolding,
}

module _ {E : Type 0} where
  -- One poll of a pump: either its pass goes on, or the pass that it ends is a pass of the pipe.
  pub record PollsOn (p : Pump) (now : ℕ) (a : Answers E) (q : Pipe) : Type 0 where
    pub no_pass : pass_of p.at a ≡ none
    pub goes_on : (poll p now a).1 ≡ none
    pub matches : Matches (poll p now a).0 q

  pub record EndsPass (p : Pump) (now : ℕ) (a : Answers E) (q : Pipe) : Type 0 where
    pub pass : Pass E
    pub ends : pass_of p.at a ≡ some pass
    pub same_result : (poll p now a).1 ≡ (pump q now pass).1
    pub exceeds : Exceeds (poll p now a).0 (pump q now pass).0
    pub matches : (poll p now a).1 ≡ none → Matches (poll p now a).0 (pump q now pass).0

  -- A pass with a chunk that is not empty.
  pump_whole :
      (q : Pipe) (now : ℕ) (chunk : List ℕ) (b : ℕ) (bs : List ℕ)
      (write flush : Result E (Unit {0}))
      → chunk ≡ b ∷ bs
      → pump q now (record { read = ok chunk; write = write; flush = flush })
        ≡ after_write q chunk now flush write
  unfolding pump
  pump_whole q now chunk b bs write flush e = rw e refl

  still :
      (p : Pump) (now : ℕ) (a : Answers E) (q : Pipe) (pass : Pass E)
      → Matches p q
      → pass_of p.at a ≡ some pass
      → (poll p now a).0 ≡ p
      → (pump q now pass).0 ≡ q
      → (poll p now a).1 ≡ (pump q now pass).1
      → EndsPass p now a q
  still p now a q pass m ends stays stands same = record {
    pass = pass;
    ends = ends;
    same_result = same;
    exceeds = rw (stays, stands) (Matches-Exceeds p q m);
    matches = λ _. rw (stays, stands) m;
  }

  reading-cases :
      (d : Direction) (w : List ℕ) (now : ℕ) (r : Result E (List ℕ)) (write : Result E ℕ)
      (flush : Result E (Unit {0})) (q : Pipe)
      → let p : Pump = record { direction = d; written = w; at = reading } in
        let a : Answers E = record { read = r; write = write; flush = flush } in
        Matches p q → PollsOn p now a q ⊎ EndsPass p now a q
  unfolding poll pass_of pump
  reading-cases d w now (err e) write flush q m = inr (still _ now _ q _ m refl refl refl refl)
  reading-cases d w now (ok []) write flush q m = inr (still _ now _ q _ m refl refl refl refl)
  reading-cases d w now (ok (b ∷ bs)) write flush q m = inl (record {
    no_pass = refl;
    goes_on = refl;
    matches = record {
      same_direction = m.same_direction;
      taken = m.taken;
      holding = (b, bs, refl);
    };
  })

  writing-cases :
      (d : Direction) (w taken rest : List ℕ) (now : ℕ) (read : Result E (List ℕ)) (r : Result E ℕ)
      (flush : Result E (Unit {0})) (q : Pipe)
      → let p : Pump = record { direction = d; written = w; at = writing taken rest } in
        let a : Answers E = record { read = read; write = r; flush = flush } in
        Matches p q → PollsOn p now a q ⊎ EndsPass p now a q
  unfolding poll pass_of
  writing-cases d w taken rest now read (err e) flush q m =
      let (b, bs, same) = m.holding in
      let whole = pump_whole q now (taken ++ rest) b bs (err e) (ok tt) same in
      inr (still _ now _ q _ m refl refl (ap (λ z. z.0) whole) (sym (ap (λ z. z.1) whole)))
  writing-cases d w taken rest now read (ok n) flush q m =
      let (b, bs, same) = m.holding in
      let (now_taken, now_held) = on_taken_of (taken ++ take n rest) (drop n rest) in
      inl (record {
        no_pass = refl;
        goes_on = refl;
        matches = record {
          same_direction = m.same_direction;
          taken =
              ap (λ z. z ++ take n rest) m.taken
              ∙ append_assoc q.written taken (take n rest)
              ∙ ap (λ z. q.written ++ z) (sym now_taken);
          holding = held-IsHolding _ b bs (
              now_held
              ∙ append_assoc taken (take n rest) (drop n rest)
              ∙ ap (λ z. taken ++ z) (take-append-drop n rest)
              ∙ same);
        };
      })

  flushing-cases :
      (d : Direction) (w chunk : List ℕ) (now : ℕ) (read : Result E (List ℕ)) (write : Result E ℕ)
      (r : Result E (Unit {0})) (q : Pipe)
      → let p : Pump = record { direction = d; written = w; at = flushing chunk } in
        let a : Answers E = record { read = read; write = write; flush = r } in
        Matches p q → EndsPass p now a q
  unfolding poll pass_of
  flushing-cases d w chunk now read write (err e) q m =
      let (b, bs, same) = m.holding in
      let whole = pump_whole q now chunk b bs (ok tt) (err e) same in
      record {
        pass = _;
        ends = refl;
        same_result = rw whole refl;
        exceeds = rw whole (record {
          same_direction = m.same_direction;
          part = [];
          more = m.taken ∙ sym (append-nil _);
          within = (chunk, refl);
        });
        matches = λ h. cc;
      }
  flushing-cases d w chunk now read write (ok u) q m =
      let (b, bs, same) = m.holding in
      let whole = pump_whole q now chunk b bs (ok tt) (ok u) same in
      let moved = ap (λ z. record_moved z (length chunk) now) m.same_direction in
      record {
        pass = _;
        ends = refl;
        same_result = rw whole refl;
        exceeds = rw whole (record {
          same_direction = moved;
          part = [];
          more = m.taken ∙ sym (append-nil _);
          within = ([], refl);
        });
        matches = λ _.
            rw whole (record {
              same_direction = moved;
              taken = m.taken ∙ sym (append-nil _);
              holding = tt;
            });
      }

  pub poll-cases :
      (p : Pump) (now : ℕ) (a : Answers E) (q : Pipe)
      → Matches p q
      → PollsOn p now a q ⊎ EndsPass p now a q
  poll-cases p now a q = by_pc p.at
    where
      by_pc :
          (pc : Pc)
          → let p' : Pump = record p { at = pc } in
            Matches p' q → PollsOn p' now a q ⊎ EndsPass p' now a q
      by_pc reading m = reading-cases p.direction p.written now a.read a.write a.flush q m
      by_pc (writing taken rest) m =
          writing-cases p.direction p.written taken rest now a.read a.write a.flush q m
      by_pc (flushing chunk) m =
          inr (flushing-cases p.direction p.written chunk now a.read a.write a.flush q m)
