-- ===== src/Dial.antt =====
-- src/dial.rs: opening a stream that has been shown to work. Here the settings, the record of each
-- round and what is counted from it; `Run` is `dial` itself.
pub mod Run
pub mod Rounds
pub mod Accounting
pub mod Budget
pub mod Tokens
use lwd_mixnet_proxy.Common.{
  ℕ, suc, ◌+◌, ◌-◌, Bool, true, false, not, ◌&&◌, List, [], ◌∷◌, ◌==◌, if◌then◌else◌, Option, none,
  some, map, length, last?, sum,
}
use lwd_mixnet_proxy.Handshake.{HandshakeError}

-- `attempts` and `concurrency` are `NonZeroU32`; durations are nanoseconds.
pub record ProbeSettings : Type 0 where
  pub timeout : ℕ
  pub attempts : ℕ
  pub concurrency : ℕ

pub record DialSettings : Type 0 where
  pub reply_surbs : Option ℕ
  pub probe : Option ProbeSettings

-- `IoError` is `io::Error`, `SdkError` is `nym_sdk::Error`. The source's names are `Open` and
-- `Probe`.
pub data DialError (IoError SdkError : Type 0) : Type 0 where
  open_error : SdkError → DialError IoError SdkError
  probe_error : HandshakeError IoError → DialError IoError SdkError

pub record Discarded (IoError SdkError : Type 0) : Type 0 where
  pub elapsed : ℕ
  pub error : DialError IoError SdkError

pub record Round (IoError SdkError : Type 0) : Type 0 where
  pub opened : ℕ
  pub discarded : List (Discarded IoError SdkError)
  pub answered : Bool

pub record GaveUp (IoError SdkError : Type 0) : Type 0 where
  pub rounds : List (Round IoError SdkError)

module _ {E N : Type 0} where
  unfoldable pub is_open_failure : DialError E N → Bool
  is_open_failure (open_error _) = true
  is_open_failure (probe_error _) = false

  -- `filter(matching).count()` over the discarded streams.
  unfoldable pub failures_in : (DialError E N → Bool) → List (Discarded E N) → ℕ
  failures_in matching [] = 0
  failures_in matching (d ∷ ds) =
      let rest = failures_in matching ds in if matching d.error then suc rest else rest

  unfoldable pub failures : Round E N → (DialError E N → Bool) → ℕ
  unfolding failures_in
  failures round matching = failures_in matching round.discarded

  unfoldable pub attempted : Round E N → ℕ
  unfolding failures is_open_failure
  attempted round = round.opened + failures round is_open_failure

  unfoldable pub unanswered : Round E N → ℕ
  unfolding failures is_open_failure
  unanswered round = failures round (λ error. not (is_open_failure error))

  -- Both subtractions saturate, as `-` does.
  unfoldable pub cancelled : Round E N → ℕ
  unfolding failures is_open_failure
  cancelled round =
      round.opened
      - failures round (λ error. not (is_open_failure error))
      - (if round.answered then 1 else 0)

  -- `GaveUp::attempts`, and the number in its message.
  unfoldable pub attempts_of : List (Round E N) → ℕ
  attempts_of rounds = sum (map attempted rounds)

  -- `Dialled::discarded`.
  unfoldable pub discarded_of : List (Round E N) → ℕ
  discarded_of rounds = sum (map (λ (r : Round E N). length r.discarded) rounds)

  abbrev error_of : Option (Discarded E N) → Option (DialError E N)
  error_of none = none
  error_of (some d) = some d.error

  abbrev error_in : Option (Round E N) → Option (DialError E N)
  error_in none = none
  error_in (some r) = error_of (last? r.discarded)

  -- `GaveUp::last_error`.
  unfoldable pub last_error : List (Round E N) → Option (DialError E N)
  last_error rounds = error_in (last? rounds)

  -- `GaveUp::nothing_opened`.
  unfoldable pub nothing_opened : List (Round E N) → Bool
  nothing_opened [] = true
  nothing_opened (r ∷ rs) = r.opened == 0 && nothing_opened rs
