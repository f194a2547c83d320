-- ===== src/Splice/Deadlines.antt =====
-- src/splice.rs, `Watchdog::tripped` and `check_period`: when the two deadlines end a splice.
use lwd_mixnet_proxy.Common.{
  ℕ, ◌-◌, ◌*◌, ◌≤◌, ◌<◌, ◌≡◌, refl, ◌⊎◌, inl, inr, Option, none, some, max, arith, ltb, ltb→lt, ap,
  Bool-cases,
}
use lwd_mixnet_proxy.Splice.{
  Watchdog, stalled, idle, StallClock, Activity, as_millis, moved_at, or_zero, outstanding, tripped,
  check_period, from_millis, from_secs, stall_check,
}

-- The far side has been written to and has said nothing since.
abbrev pub Waiting : Activity → Type 0
Waiting a =
    (wrote : ℕ) × (moved_at a.to_remote ≡ some wrote)
    × ((moved_at a.from_remote ≡ none)
        ⊎ ((heard : ℕ) × (moved_at a.from_remote ≡ some heard) × (heard < wrote)))

outstanding_to :
    (wrote heard : Option ℕ) (v : ℕ)
    → outstanding wrote heard ≡ some v
    → (wrote ≡ some v) × ((heard ≡ none) ⊎ ((at : ℕ) × (heard ≡ some at) × (at < v)))
outstanding_to none heard v e = cc
outstanding_to (some x) none v e = (e, inl refl)
outstanding_to (some x) (some y) v e = elim (Bool-cases (ltb y x)) [
  | inl before ↦
      let same : x ≡ v = ground arith in
      (ap some same, inr (y, refl, omega (arith, ltb→lt y x before)))
  | inr after ↦ ground arith
]

module _ {E : Type 0} (w : Watchdog) (clock : StallClock) (a : Activity) (now : ℕ) where
  stalled_check :
      (d : ℕ) (o : Option ℕ)
      → (stall_check {E = E} w clock a now o).0 ≡ some (stalled d)
      → (w.stall ≡ some d)
        × ((v : ℕ) × (o ≡ some v))
        × (as_millis d ≤ now - or_zero (moved_at a.from_remote))
  stalled_check d none h = absurd (ground arith)
  stalled_check d (some v) h = (ground arith, (v, refl), ground arith)

  -- A splice is called stalled only with a stall deadline set, a request outstanding, and nothing
  -- heard from the far side for the whole of that deadline.
  pub tripped-stalled :
      (d : ℕ)
      → (tripped {E = E} w clock a now).0 ≡ some (stalled d)
      → (w.stall ≡ some d) × Waiting a × (as_millis d ≤ now - or_zero (moved_at a.from_remote))
  unfolding tripped
  tripped-stalled d h =
      let (set, (v, o), quiet) = stalled_check d _ h in
      let (wrote, silent) = outstanding_to _ _ v o in (set, (v, wrote, silent), quiet)

  -- A splice is called idle only with an idle deadline set and nothing moved in either direction for
  -- the whole of that deadline.
  pub tripped-idle :
      (d : ℕ)
      → (tripped {E = E} w clock a now).0 ≡ some (idle d)
      → (w.idle ≡ some d)
        × (as_millis d ≤ now - or_zero (moved_at a.to_remote))
        × (as_millis d ≤ now - or_zero (moved_at a.from_remote))
  unfolding tripped
  tripped-idle d h = ground arith

-- With a deadline set, checks are 100 ms to 5 s apart, and four of them take at most that deadline,
-- or 400 ms if it is shorter.
pub check_period_bounds :
    (w : Watchdog) (d : ℕ)
    → (w.stall ≡ some d) ⊎ (w.idle ≡ some d)
    → (from_millis 100 ≤ check_period w)
      × (check_period w ≤ from_secs 5)
      × (check_period w * 4 ≤ max d (from_millis 400))
unfolding check_period
check_period_bounds w d h = ground arith
