-- ===== src/Client/Startup/Ranges.antt =====
-- src/bin/client.rs, `carry` with the arguments of `main`: what a process keeps fits its types.
use lwd_mixnet_proxy.Common.{
  ℕ, ◌+◌, ◌%◌, ◌≤◌, ◌<◌, ◌≡◌, refl, Bool, true, false, List, some, Result, ok, err, leb, arith,
}
use lwd_mixnet_proxy.Common.Words.{u64_mod, u32_mod}
use lwd_mixnet_proxy.Dial.{GaveUp}
use lwd_mixnet_proxy.Dial.Run.{Network, Dialled, DialEnd, dial}
use lwd_mixnet_proxy.Dial.Accounting.{IsValid}
use lwd_mixnet_proxy.Dial.Tokens.{streams_in, rounds_of, dial-Drawn}
use lwd_mixnet_proxy.Health.{Health}
use lwd_mixnet_proxy.Splice.Loop.{Ready}
use lwd_mixnet_proxy.Streaks.{
  Streaks, Outcome, answered, unprobed, nothing_opened, nothing_answered, count, report, fold,
  dead_end_limit,
}
use lwd_mixnet_proxy.Client.{Process, carry, carry_dialled, carry_on, settle_dial}
use lwd_mixnet_proxy.Client.Startup.{Arguments, carrying_for}

-- Both numbers are `NonZeroU32`.
pub record IsTyped (arguments : Arguments) : Type 0 where
  pub some_attempt : 0 < arguments.probe_attempts
  pub some_stream : 0 < arguments.probe_concurrency
  pub attempts_fit : arguments.probe_attempts < u32_mod

carrying_for-IsValid :
    (arguments : Arguments) → IsTyped arguments → IsValid (carrying_for arguments).dial_settings
unfolding carrying_for
carrying_for-IsValid arguments typed = record {
  tries = ground (arith, typed.some_attempt);
  sizes = ground (arith, typed.some_stream);
  word = ground (arith, typed.attempts_fit);
}

-- The streaks fit: both counts are `usize`, and the state is one of three.
pub record FitsStreaks (s : Streaks) : Type 0 where
  pub refusals : s.counts.refusals < u64_mod
  pub dead_ends : s.counts.dead_ends < u64_mod
  pub state : s.health.state ≤ 2

pub record InRange {C : Type 0} (p : Process C) : Type 0 where
  pub token : p.next_token < u64_mod
  pub streaks : FitsStreaks p.streaks

report-state : (d e : Bool) (h : Health) → (report d e h).state ≡ h.state
unfolding lwd_mixnet_proxy.Health.set_degraded
report-state true true h = refl
report-state true false h = refl
report-state false true h = refl
report-state false false h = refl

fold-FitsStreaks : (s : Streaks) (o : Outcome) → FitsStreaks s → FitsStreaks (fold s o)
unfolding fold
fold-FitsStreaks s o f = record {
  refusals = fewer_refusals o;
  dead_ends = fewer_dead_ends o;
  state =
      omega
        (arith, f.state, report-state (leb dead_end_limit (count o s.counts).dead_ends) _ s.health);
}
  where
    fewer_refusals : (o : Outcome) → (count o s.counts).refusals < u64_mod
    fewer_refusals answered = omega arith
    fewer_refusals unprobed = omega arith
    fewer_refusals nothing_opened = omega arith
    fewer_refusals nothing_answered = omega arith

    fewer_dead_ends : (o : Outcome) → (count o s.counts).dead_ends < u64_mod
    fewer_dead_ends answered = omega arith
    fewer_dead_ends unprobed = omega (arith, f.dead_ends)
    fewer_dead_ends nothing_opened = omega arith
    fewer_dead_ends nothing_answered = omega arith

module _ {C W E N : Type 0} (net : Network C W E N) where
  carry_dialled-InRange :
      (arguments : Arguments) (traffic : W → List (ℕ × Ready E)) (accepted : ℕ) (p : Process C)
      (end : DialEnd C W E N) (r : Result (GaveUp E N) (Dialled W E N))
      → FitsStreaks p.streaks
      → let q =
          carry_on net
            (carrying_for arguments)
            traffic
            (settle_dial net (carrying_for arguments) accepted p end r)
            r in
        (q.next_token ≡ end.next_token) × FitsStreaks q.streaks
  unfolding carry_on settle_dial
  carry_dialled-InRange arguments traffic accepted p end (ok d) f = (refl, fold-FitsStreaks _ _ f)
  carry_dialled-InRange arguments traffic accepted p end (err g) f = (refl, fold-FitsStreaks _ _ f)

  -- With arguments of their types, a connection of any traffic is carried: its dial returns, and what
  -- the process keeps from one connection to the next stays within its machine words and its three
  -- states. The token generator has moved by one for each stream that the dial opened.
  pub carry-InRange :
      (arguments : Arguments) (traffic : W → List (ℕ × Ready E)) (accepted : ℕ) (p : Process C)
      → IsTyped arguments
      → InRange p
      → (q : Process C) × (e : DialEnd C W E N) × (carry net
            (carrying_for arguments)
            traffic
            accepted
            p
          ≡ some q)
        × (dial net (carrying_for arguments).dial_settings p.client p.next_token ≡ some e)
        × (q.next_token ≡ (p.next_token + streams_in (rounds_of e.result)) % u64_mod)
        × InRange q
  unfolding carry_dialled carry carrying_for
  carry-InRange arguments traffic accepted p typed fits =
      let carrying = carrying_for arguments in
      let (e, found, drawn) =
        dial-Drawn net carrying.dial_settings p.client p.next_token
          (carrying_for-IsValid arguments typed) fits.token in
      let (kept, streaks) =
        carry_dialled-InRange arguments traffic accepted p e e.result fits.streaks in
      (
        carry_dialled net carrying traffic accepted p e,
        e,
        rw (carry, found) refl,
        found,
        omega (arith, kept, drawn),
        record { token = omega (arith, kept, drawn); streaks = streaks },
      )
