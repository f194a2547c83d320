-- ===== src/Streaks.antt =====
-- src/streaks.rs: two runs of failed dials, folded one dial at a time and published.
pub mod History
use lwd_mixnet_proxy.Common.{
  ℕ, suc, ◌+◌, ◌%◌, Bool, true, false, List, [], ◌∷◌, ◌++◌, leb, if◌then◌else◌,
}
use lwd_mixnet_proxy.Common.Words.{u64_mod}
use lwd_mixnet_proxy.Health.{Health, is_degraded, set_degraded}
use lwd_mixnet_proxy.Metrics.Client.{Calls, set_failed_in_a_row}

abbrev pub refusal_limit : ℕ
refusal_limit = 5

abbrev pub dead_end_limit : ℕ
dead_end_limit = 3

pub data Outcome : Type 0 where
  answered unprobed nothing_opened nothing_answered : Outcome

pub record Counts : Type 0 where
  pub refusals : ℕ
  pub dead_ends : ℕ

-- `published` is what the metrics were told, `notified` how often `client_is_dead` was notified.
pub record Streaks : Type 0 where
  pub counts : Counts
  pub health : Health
  pub published : Calls
  pub notified : ℕ

-- `Streaks::new`, on the health that it shares.
unfoldable pub new : Health → Streaks
new health = record {
  counts = record { refusals = 0; dead_ends = 0 };
  health = health;
  published = [];
  notified = 0;
}

abbrev pub one_more : ℕ → ℕ
one_more n = (n + 1) % u64_mod

-- The `match` of `fold`. `usize` is 64 bits wide.
abbrev pub count : Outcome → Counts → Counts
count answered c = record { refusals = 0; dead_ends = 0 }
count unprobed c = record c { refusals = 0 }
count nothing_opened c = record { refusals = one_more c.refusals; dead_ends = one_more c.dead_ends }
count nothing_answered c = record { refusals = 0; dead_ends = one_more c.dead_ends }

-- `if degraded != self.health.is_degraded() { … }`.
abbrev pub report : Bool → Bool → Health → Health
report true false h = set_degraded h true
report false true h = set_degraded h false
report _ _ h = h

unfoldable pub fold : Streaks → Outcome → Streaks
unfolding is_degraded set_degraded set_failed_in_a_row
fold s outcome =
    let counts = count outcome s.counts in
    let degraded = leb dead_end_limit counts.dead_ends in
    record {
      counts = counts;
      health = report degraded (is_degraded s.health) s.health;
      published = s.published ++ set_failed_in_a_row counts.dead_ends;
      notified = if leb refusal_limit counts.refusals then suc s.notified else s.notified;
    }
