-- ===== src/Client/Refusals.antt =====
-- src/bin/client.rs, `carry`, with src/streaks.rs: what a process knows after its connections.
use lwd_mixnet_proxy.Common.{
  ℕ, ◌+◌, ◌<◌, ◌≡◌, ◌↔◌, refl, ap, ◌∙◌, length, List, [], ◌∷◌, Option, none, some, false, Result,
  ok, err, leb, arith,
}
use lwd_mixnet_proxy.Common.Words.{u64_mod}
use lwd_mixnet_proxy.Dial.{GaveUp, nothing_opened}
use lwd_mixnet_proxy.Dial.Run.{Network, Dialled, DialEnd, dial}
use lwd_mixnet_proxy.Dial.Accounting.{IsValid}
use lwd_mixnet_proxy.Dial.Budget.{dial-Spent}
use lwd_mixnet_proxy.Health.{Health, start}
use lwd_mixnet_proxy.Splice.Loop.{Ready}
use lwd_mixnet_proxy.Streaks.{Outcome, new, fold}
use lwd_mixnet_proxy.Streaks.History.{
  after, dead_run, HasRefusals, after-degraded, notified-HasRefusals,
}
use lwd_mixnet_proxy.Client.{
  Carrying, Process, settle_dial, carry_on, carry_dialled, carry, outcome_of_probe,
  outcome_of_opens,
}
use lwd_mixnet_proxy.Client.Gauge.{carry_all}

-- How a dial that ended so is folded.
abbrev pub outcome_of : {W E N : Type 0} → Carrying → Result (GaveUp E N) (Dialled W E N) → Outcome
outcome_of carrying (ok dialled) = outcome_of_probe carrying.dial_settings.probe
outcome_of carrying (err gave) = outcome_of_opens (nothing_opened gave.rounds)

pub after-dead_run :
    (health : Health) (h : List Outcome)
    → health.degraded ≡ false
    → length h < u64_mod
    → (after (new health) h).health.degraded ≡ leb 3 (dead_run h)
unfolding after new
after-dead_run health [] sound fits = sound
after-dead_run health (o ∷ h) sound fits = after-degraded health o h fits

module _ {C W E N : Type 0} (net : Network C W E N) where
  -- The outcomes of the dials of these connections, the newest first and before those of earlier ones.
  unfoldable pub dial_outcomes :
      Carrying
      → List ((W → List (ℕ × Ready E)) × ℕ)
      → Process C
      → List Outcome
      → Option (List Outcome)
  dial_outcomes carrying [] p before = some before
  dial_outcomes carrying ((traffic, accepted) ∷ later) p before =
      elim (dial net carrying.dial_settings p.client p.next_token) [
        | none ↦ none
        | some end ↦
            dial_outcomes carrying later (carry_dialled net carrying traffic accepted p end)
              (outcome_of carrying end.result ∷ before)
      ]

  pub carry_on-streaks :
      (carrying : Carrying) (traffic : W → List (ℕ × Ready E)) (accepted : ℕ) (p : Process C)
      (end : DialEnd C W E N) (r : Result (GaveUp E N) (Dialled W E N))
      → (carry_on net carrying traffic (settle_dial net carrying accepted p end r) r).streaks
        ≡ fold p.streaks (outcome_of carrying r)
  unfolding carry_on settle_dial
  carry_on-streaks carrying traffic accepted p end (ok d) = refl
  carry_on-streaks carrying traffic accepted p end (err g) = refl

  carry_all-after :
      (carrying : Carrying) (conns : List ((W → List (ℕ × Ready E)) × ℕ)) (p : Process C)
      (before : List Outcome)
      → IsValid carrying.dial_settings
      → p.streaks ≡ after (new start) before
      → (q : Process C) × (os : List Outcome) × (carry_all net carrying conns p ≡ some q)
        × (dial_outcomes carrying conns p before ≡ some os)
        × (q.streaks ≡ after (new start) os)
        × (length os ≡ length before + length conns)
  unfolding carry_all dial_outcomes
  carry_all-after carrying [] p before valid known = (p, before, refl, refl, known, omega arith)
  carry_all-after carrying ((traffic, accepted) ∷ later) p before valid known =
      let (e, found, spent) = dial-Spent net carrying.dial_settings p.client p.next_token valid in
      let p' = carry_dialled net carrying traffic accepted p e in
      let o = outcome_of carrying e.result in
      let carried : carry net carrying traffic accepted p ≡ some p' =
        unfold carry in rw (found, carry) refl in
      let known' : p'.streaks ≡ after (new start) (o ∷ before) =
        unfold carry_dialled after in
        (carry_on-streaks carrying traffic accepted p e e.result ∙ ap (λ s. fold s o) known) in
      let (q, os, all, outcomes, now, n) =
        carry_all-after carrying later p' (o ∷ before) valid known' in
      (
        q,
        os,
        rw (carried, carry_all) all,
        rw (found, dial_outcomes) outcomes,
        now,
        omega (arith, n),
      )

  -- Over a client half's first connections, one after the other and fewer than 2^64, with valid
  -- settings, each dial returns, and what the half knows is what these dials say: it has been told that
  -- its client is dead if and only if some five of them in a row opened nothing, and it is degraded if
  -- and only if three or more, unprobed ones left out, ended with nothing since the last answer.
  pub carry_all-HasRefusals :
      (carrying : Carrying) (conns : List ((W → List (ℕ × Ready E)) × ℕ)) (p : Process C)
      → IsValid carrying.dial_settings
      → p.streaks ≡ new start
      → length conns < u64_mod
      → (q : Process C) × (os : List Outcome) × (carry_all net carrying conns p ≡ some q)
        × (dial_outcomes carrying conns p [] ≡ some os)
        × ((0 < q.streaks.notified) ↔ HasRefusals os)
        × (q.streaks.health.degraded ≡ leb 3 (dead_run os))
  unfolding after
  carry_all-HasRefusals carrying conns p valid fresh fits =
      let (q, os, all, outcomes, now, n) = carry_all-after carrying conns p [] valid fresh in
      (
        q,
        os,
        all,
        outcomes,
        rw now (notified-HasRefusals start os (omega (arith, n))),
        rw now (after-dead_run start os (unfold start in refl) (omega (arith, n))),
      )
