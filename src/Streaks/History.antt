-- ===== src/Streaks/History.antt =====
-- src/streaks.rs, `fold`: what the two runs and the report say of the dials so far.
use lwd_mixnet_proxy.Common.{
  ℕ, zero, suc, ◌≤◌, ◌<◌, ◌≡◌, ◌↔◌, refl, ap, false, List, [], ◌∷◌, ◌++◌, leb, leb→le, Bool-cases,
  inl, inr, length, some, last?, arith,
}
use lwd_mixnet_proxy.Common.Words.{u64_mod}
use lwd_mixnet_proxy.Health.{Health}
use lwd_mixnet_proxy.Metrics.{set}
use lwd_mixnet_proxy.Metrics.Client.{failed_in_a_row}
use lwd_mixnet_proxy.Streaks.{
  Outcome, answered, unprobed, nothing_opened, nothing_answered, Counts, Streaks, new, count, fold,
  dead_end_limit,
}

-- A history is a list of outcomes, the newest first.
unfoldable pub after : Streaks → List Outcome → Streaks
after s [] = s
after s (o ∷ earlier) = fold (after s earlier) o

-- The dials since the last answer, those without a probe left out.
abbrev pub dead_run : List Outcome → ℕ
dead_run [] = 0
dead_run (answered ∷ earlier) = 0
dead_run (unprobed ∷ earlier) = dead_run earlier
dead_run (nothing_opened ∷ earlier) = suc (dead_run earlier)
dead_run (nothing_answered ∷ earlier) = suc (dead_run earlier)

-- The newest dials that opened nothing.
abbrev pub refusal_run : List Outcome → ℕ
refusal_run (nothing_opened ∷ earlier) = suc (refusal_run earlier)
refusal_run _ = 0

pub last-append {ℓ} : {A : Type ℓ} (xs : List A) (x : A) → last? (xs ++ (x ∷ [])) ≡ some x
last-append [] x = refl
last-append (y ∷ []) x = refl
last-append (y ∷ z ∷ ys) x = last-append (z ∷ ys) x

-- After every fold, whatever came before it, the three reports agree: the gauge was last set to the
-- count of dead ends, and the half is degraded exactly if that count has reached its limit.
pub fold-agrees :
    (s : Streaks) (o : Outcome)
    → (last? (fold s o).published ≡ some (set failed_in_a_row (fold s o).counts.dead_ends))
      × ((fold s o).health.degraded ≡ leb dead_end_limit (fold s o).counts.dead_ends)
      × ((fold s o).health.state ≡ s.health.state)
unfolding fold
fold-agrees s o = (
  last-append s.published (set failed_in_a_row (count o s.counts).dead_ends),
  ground arith,
  ground arith,
)

runs_le : (h : List Outcome) → (dead_run h ≤ length h) × (refusal_run h ≤ length h)
runs_le [] = omega arith
runs_le (answered ∷ h) = omega (arith, runs_le h)
runs_le (unprobed ∷ h) = omega (arith, runs_le h)
runs_le (nothing_opened ∷ h) = omega (arith, runs_le h)
runs_le (nothing_answered ∷ h) = omega (arith, runs_le h)

count_runs :
    (o : Outcome) (h : List Outcome) (c : Counts)
    → suc (length h) < u64_mod
    → (c.refusals ≡ refusal_run h) × (c.dead_ends ≡ dead_run h)
    → ((count o c).refusals ≡ refusal_run (o ∷ h)) × ((count o c).dead_ends ≡ dead_run (o ∷ h))
count_runs answered h c fits e = (refl, refl)
count_runs unprobed h c fits e = (refl, e.1)
count_runs nothing_opened h c fits e = omega (arith, runs_le h)
count_runs nothing_answered h c fits e = omega (arith, runs_le h)

-- From the start, over fewer than 2^64 dials, the counts are the lengths of the two runs: the dials
-- since the last answer, unprobed ones left out, and the newest dials that opened nothing.
pub after-runs :
    (health : Health) (h : List Outcome)
    → length h < u64_mod
    → ((after (new health) h).counts.refusals ≡ refusal_run h)
      × ((after (new health) h).counts.dead_ends ≡ dead_run h)
unfolding after new fold
after-runs health [] fits = (refl, refl)
after-runs health (o ∷ h) fits =
    count_runs o h (after (new health) h).counts fits (after-runs health h (omega arith))

-- Over fewer than 2^64 dials, on a half that was in any health before them, the half is degraded
-- after a dial if and only if three or more dials ended with nothing since the last answer.
pub after-degraded :
    (health : Health) (o : Outcome) (h : List Outcome)
    → length (o ∷ h) < u64_mod
    → (after (new health) (o ∷ h)).health.degraded ≡ leb 3 (dead_run (o ∷ h))
unfolding after
after-degraded health o h fits =
    rw (← (after-runs health (o ∷ h) fits).1) (fold-agrees (after (new health) h) o).1

-- `n` dials in a row that opened nothing, before them `earlier`.
abbrev pub refused : ℕ → List Outcome → List Outcome
refused zero earlier = earlier
refused (suc n) earlier = nothing_opened ∷ refused n earlier

-- Some five dials in a row opened nothing.
pub record HasRefusals (h : List Outcome) : Type 0 where
  pub later : List Outcome
  pub earlier : List Outcome
  pub splits : h ≡ later ++ refused 5 earlier

refused_of :
    (n : ℕ) (h : List Outcome)
    → n ≤ refusal_run h
    → (earlier : List Outcome) × (h ≡ refused n earlier)
refused_of zero h le = (h, refl)
refused_of (suc n) [] le = absurd (omega arith)
refused_of (suc n) (answered ∷ h) le = absurd (omega arith)
refused_of (suc n) (unprobed ∷ h) le = absurd (omega arith)
refused_of (suc n) (nothing_answered ∷ h) le = absurd (omega arith)
refused_of (suc n) (nothing_opened ∷ h) le =
    let (earlier, e) = refused_of n h (omega arith) in (earlier, ap (◌∷◌ nothing_opened) e)

fold_notified :
    (s : Streaks) (o : Outcome)
    → (s.notified ≤ (fold s o).notified)
      × ((s.notified < (fold s o).notified) ↔ (5 ≤ (fold s o).counts.refusals))
unfolding fold
fold_notified s o = (ground arith, (λ h. ground arith, λ h. ground arith))

notified_after :
    (health : Health) (later earlier : List Outcome)
    → length (later ++ refused 5 earlier) < u64_mod
    → 0 < (after (new health) (later ++ refused 5 earlier)).notified
unfolding after
notified_after health [] earlier fits =
    let h = refused 4 earlier in
    let runs = after-runs health (nothing_opened ∷ h) fits in
    omega (arith, (fold_notified (after (new health) h) nothing_opened).1.1 (omega (arith, runs.0)))
notified_after health (o ∷ later) earlier fits =
    let h = later ++ refused 5 earlier in
    omega (
      arith,
      (fold_notified (after (new health) h) o).0,
      notified_after health later earlier (omega arith),
    )

notified_of :
    (health : Health) (h : List Outcome)
    → length h < u64_mod
    → HasRefusals h
    → 0 < (after (new health) h).notified
notified_of health h fits r =
    rw r.splits (notified_after health r.later r.earlier (rw (← r.splits) fits))

notified_to :
    (health : Health) (h : List Outcome)
    → length h < u64_mod
    → 0 < (after (new health) h).notified
    → HasRefusals h
unfolding after new
notified_to health [] fits pos = absurd (omega arith)
notified_to health (o ∷ h) fits pos = elim (Bool-cases (leb 5 (refusal_run (o ∷ h)))) [
  | inl now ↦
      let (earlier, e) = refused_of 5 (o ∷ h) (leb→le _ _ now) in
      record { later = []; earlier = earlier; splits = e }
  | inr not_now ↦
      let before = notified_to health h (omega arith) (unmoved not_now) in
      record {
        later = o ∷ before.later;
        earlier = before.earlier;
        splits = ap (◌∷◌ o) before.splits;
      }
]
  where
    unmoved : leb 5 (refusal_run (o ∷ h)) ≡ false → 0 < (after (new health) h).notified
    unmoved e =
        let runs = (after-runs health (o ∷ h) fits).0 in
        ground (
          arith,
          (fold_notified (after (new health) h) o).0,
          (fold_notified (after (new health) h) o).1.0,
        )

-- The process is told that its client is dead if and only if some five dials in a row opened
-- nothing, over fewer than 2^64 dials from the start.
pub notified-HasRefusals :
    (health : Health) (h : List Outcome)
    → length h < u64_mod
    → (0 < (after (new health) h).notified) ↔ HasRefusals h
notified-HasRefusals health h fits = (notified_to health h fits, notified_of health h fits)
