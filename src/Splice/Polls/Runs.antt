-- ===== src/Splice/Polls/Runs.antt =====
-- src/splice.rs, `splice`: a run poll by poll, and the run of its passes.
use lwd_mixnet_proxy.Common.{
  ℕ, ◌≡◌, refl, ap, ◌∙◌, List, [], ◌∷◌, Option, none, some, Result, ◌⊎◌, inl, inr,
}
use lwd_mixnet_proxy.Splice.{Watchdog, Ended, Transfer, tripped}
use lwd_mixnet_proxy.Splice.Loop.{
  Splice, Ready, outbound, inbound, tick, begin, activity, pump, turn, run, or_continue,
}
use lwd_mixnet_proxy.Splice.Loop
use lwd_mixnet_proxy.Splice.Polls.{
  Answers, poll, Polling, begin_polling, Woken, polls_outbound, polls_inbound, checks, wake,
  or_go_on, run_polls, activity_of, returned, returned_for,
}
use lwd_mixnet_proxy.Splice.Polls.Passes.{
  passes_in, passes, ready_at, Matches, Exceeds, Matches-Exceeds,
}
use lwd_mixnet_proxy.Splice.Polls.Pumps.{poll-cases}

record Agrees (s : Polling) (t : Splice) : Type 0 where
  pub out : Matches s.outbound t.outbound
  pub back : Matches s.inbound t.inbound
  pub same_clock : s.clock ≡ t.clock

-- What a run has come to, and what its passes have: the counts and the clock are the same, and each
-- writer has been handed what the passes hand it and some of the chunk that its pump holds.
pub record Nears (s : Polling) (t : Splice) : Type 0 where
  pub out : Exceeds s.outbound t.outbound
  pub back : Exceeds s.inbound t.inbound
  pub same_clock : s.clock ≡ t.clock

Agrees-Nears : {s : Polling} {t : Splice} → Agrees s t → Nears s t
Agrees-Nears h = record {
  out = Matches-Exceeds _ _ h.out;
  back = Matches-Exceeds _ _ h.back;
  same_clock = h.same_clock;
}

Nears-activity : (s : Polling) (t : Splice) → Nears s t → activity_of s ≡ activity t
Nears-activity s t h = rw (h.out.same_direction, h.back.same_direction) refl

module _ {E : Type 0} where
  record WakesOn (w : Watchdog) (s : Polling) (t : Splice) (now : ℕ) (woken : Woken E)
      : Type 0 where
    pub no_pass : passes_in s now woken ≡ []
    pub goes_on : (wake w s now woken).1 ≡ none
    pub agrees : Agrees (wake w s now woken).0 t

  record EndsTurn (w : Watchdog) (s : Polling) (t : Splice) (now : ℕ) (woken : Woken E)
      : Type 0 where
    pub ready : Ready E
    pub ends : passes_in s now woken ≡ (now, ready) ∷ []
    pub same_result : (wake w s now woken).1 ≡ (turn w t now ready).1
    pub nears : Nears (wake w s now woken).0 (turn w t now ready).0
    pub agrees :
        (wake w s now woken).1 ≡ none → Agrees (wake w s now woken).0 (turn w t now ready).0

  returned_same :
      (s : Polling) (t : Splice) (r : Option (Result E (Unit {0})))
      → activity_of s ≡ activity t
      → returned s r ≡ Loop.returned t r
  returned_same s t none e = refl
  returned_same s t (some r) e = rw e refl

  returned-eq-none :
      (s : Polling) (r : Option (Result E (Unit {0}))) → returned s r ≡ none → r ≡ none
  returned-eq-none s none e = refl
  returned-eq-none s (some r) e = cc

  returned_for_same :
      (s : Polling) (t : Splice) (r q : Option (Ended E))
      → activity_of s ≡ activity t
      → r ≡ q
      → returned_for s r ≡ Loop.returned_for t q
  returned_for_same s t none q e same = rw (← same) refl
  returned_for_same s t (some r) q e same = rw (← same) (rw e refl)

  wake-outbound :
      (w : Watchdog) (s : Polling) (t : Splice) (now : ℕ) (a : Answers E)
      → Agrees s t
      → WakesOn w s t now (polls_outbound a) ⊎ EndsTurn w s t now (polls_outbound a)
  unfolding wake turn passes_in
  wake-outbound w s t now a h = elim (poll-cases s.outbound now a t.outbound h.out) [
    | inl on ↦ inl (record {
      no_pass = ap (ready_at now outbound) on.no_pass;
      goes_on = rw on.goes_on refl;
      agrees = record { out = on.matches; back = h.back; same_clock = h.same_clock };
    })
    | inr end ↦
        let s' : Polling = record s { outbound = (poll s.outbound now a).0 } in
        let t' : Splice = record t { outbound = (pump t.outbound now end.pass).0 } in
        let nears : Nears s' t' = record {
          out = end.exceeds;
          back = Matches-Exceeds _ _ h.back;
          same_clock = h.same_clock;
        } in
        inr (record {
          ready = outbound end.pass;
          ends = ap (ready_at now outbound) end.ends;
          same_result =
              returned_same s' t' _ (Nears-activity s' t' nears)
              ∙ ap (Loop.returned t') end.same_result;
          nears = nears;
          agrees = λ e. record {
            out = end.matches (returned-eq-none s' _ e);
            back = h.back;
            same_clock = h.same_clock;
          };
        })
  ]

  wake-inbound :
      (w : Watchdog) (s : Polling) (t : Splice) (now : ℕ) (a : Answers E)
      → Agrees s t
      → WakesOn w s t now (polls_inbound a) ⊎ EndsTurn w s t now (polls_inbound a)
  unfolding wake turn passes_in
  wake-inbound w s t now a h = elim (poll-cases s.inbound now a t.inbound h.back) [
    | inl on ↦ inl (record {
      no_pass = ap (ready_at now inbound) on.no_pass;
      goes_on = rw on.goes_on refl;
      agrees = record { out = h.out; back = on.matches; same_clock = h.same_clock };
    })
    | inr end ↦
        let s' : Polling = record s { inbound = (poll s.inbound now a).0 } in
        let t' : Splice = record t { inbound = (pump t.inbound now end.pass).0 } in
        let nears : Nears s' t' = record {
          out = Matches-Exceeds _ _ h.out;
          back = end.exceeds;
          same_clock = h.same_clock;
        } in
        inr (record {
          ready = inbound end.pass;
          ends = ap (ready_at now inbound) end.ends;
          same_result =
              returned_same s' t' _ (Nears-activity s' t' nears)
              ∙ ap (Loop.returned t') end.same_result;
          nears = nears;
          agrees = λ e. record {
            out = h.out;
            back = end.matches (returned-eq-none s' _ e);
            same_clock = h.same_clock;
          };
        })
  ]

  wake-checks :
      (w : Watchdog) (s : Polling) (t : Splice) (now : ℕ) → Agrees s t → EndsTurn w s t now checks
  unfolding wake turn passes_in
  wake-checks w s t now h =
      let same = Nears-activity s t (Agrees-Nears h) in
      let trips = tripped w s.clock (activity_of s) now in
      let trip : trips ≡ tripped w t.clock (activity t) now = rw (same, h.same_clock) refl in
      let s' : Polling = record s { clock = trips.1 } in
      let t' : Splice = record t { clock = (tripped {E = E} w t.clock (activity t) now).1 } in
      let agrees : Agrees s' t' = record {
        out = h.out;
        back = h.back;
        same_clock = ap (λ z. z.1) trip;
      } in
      record {
        ready = tick;
        ends = refl;
        same_result =
            returned_for_same s' t' _ _ (Nears-activity s' t' (Agrees-Nears agrees))
              (ap (λ z. z.0) trip);
        nears = Agrees-Nears agrees;
        agrees = λ _. agrees;
      }

  wake-cases :
      (w : Watchdog) (s : Polling) (t : Splice) (now : ℕ) (woken : Woken E)
      → Agrees s t
      → WakesOn w s t now woken ⊎ EndsTurn w s t now woken
  wake-cases w s t now (polls_outbound a) h = wake-outbound w s t now a h
  wake-cases w s t now (polls_inbound a) h = wake-inbound w s t now a h
  wake-cases w s t now checks h = inr (wake-checks w s t now h)

  go_on_none :
      (u rest : Polling × Option (Transfer × Ended E)) → u.1 ≡ none → or_go_on u rest ≡ rest
  go_on_none (s, none) rest e = refl
  go_on_none (s, some r) rest e = cc

  -- How a run, and the run of its passes, go on after a turn that both make.
  SameRun : Polling × Option (Transfer × Ended E) → Splice × Option (Transfer × Ended E) → Type 0
  SameRun u v = (u.1 ≡ v.1) × Nears u.0 v.0

  same_on :
      (u rest : Polling × Option (Transfer × Ended E))
      (v rest' : Splice × Option (Transfer × Ended E))
      → u.1 ≡ v.1
      → Nears u.0 v.0
      → (u.1 ≡ none → SameRun rest rest')
      → SameRun (or_go_on u rest) (or_continue v rest')
  unfolding SameRun
  same_on (s, none) rest (t, none) rest' e n on = on refl
  same_on (s, none) rest (t, some r) rest' e n on = cc
  same_on (s, some r) rest (t, none) rest' e n on = cc
  same_on (s, some r) rest (t, some q) rest' e n on = (e, n)

  run_polls-on :
      (w : Watchdog) (events : List (ℕ × Woken E)) (s : Polling) (t : Splice)
      → Agrees s t
      → SameRun (run_polls w s events) (run w t (passes w s events))
  unfolding run_polls run passes
  run_polls-on w [] s t h = (unfold SameRun in (refl, Agrees-Nears h))
  run_polls-on w ((now, woken) ∷ later) s t h = elim (wake-cases w s t now woken h) [
    | inl on ↦
        let rest = run_polls-on w later (wake w s now woken).0 t on.agrees in
        rw (on.no_pass, go_on_none (wake w s now woken) _ on.goes_on) rest
    | inr end ↦ rw end.ends (
        same_on (wake w s now woken) _ (turn w t now end.ready) _ end.same_result end.nears
          (λ e. run_polls-on w later _ _ (end.agrees e)))
  ]

  -- A splice poll by poll, from its beginning and however its polls and checks fall: it ends, or
  -- runs on, exactly as the loop does that takes each pass of a pump in one piece where the pass
  -- ends, with the same counts and the same clock; and of the chunk that a pump holds in the midst
  -- of a pass its writer has been handed a beginning besides.
  pub run_polls-run :
      (w : Watchdog) (events : List (ℕ × Woken E))
      → let u = run_polls w begin_polling events in
        let v = run w begin (passes w begin_polling events) in (u.1 ≡ v.1) × Nears u.0 v.0
  unfolding SameRun begin_polling begin
  run_polls-run w events = run_polls-on w events begin_polling begin (record {
    out = record { same_direction = refl; taken = refl; holding = tt };
    back = record { same_direction = refl; taken = refl; holding = tt };
    same_clock = refl;
  })
