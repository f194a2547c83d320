-- ===== src/Shutdown.antt =====
-- src/shutdown.rs: waiting to be asked to stop. Signals are tokio's; they are given in the order in
-- which they arrive from the first poll on, the earlier ones being missed.
use lwd_mixnet_proxy.Common.{
  ◌≡◌, Bool, true, false, List, [], ◌∷◌, ◌++◌, if◌then◌else◌, Option, none, some, All,
}

pub data Signal : Type 0 where
  terminate interrupt : Signal

-- Whether the future is waiting for the signal: for an interrupt always, for `SIGTERM` on a Unix
-- where its handler could be registered.
abbrev pub awaits : Bool → Bool → Signal → Bool
awaits unix registered interrupt = true
awaits unix registered terminate = if unix then registered else false

-- The signals from the one that resolves it on; `none` while nothing does.
unfoldable pub requested : Bool → Bool → List Signal → Option (List Signal)
requested unix registered [] = none
requested unix registered (s ∷ later) =
    let rest = requested unix registered later in
    if awaits unix registered s then some (s ∷ later) else rest

-- What it comes to: it has resolved with the first signal that it awaits, or none of them is one.
abbrev pub Resolved : Bool → Bool → List Signal → Option (List Signal) → Type 0
Resolved unix registered signals none = All (λ s. awaits unix registered s ≡ false) signals
Resolved unix registered signals (some []) = ⊥
Resolved unix registered signals (some (s ∷ later)) =
    (awaits unix registered s ≡ true)
    × ((before : List Signal) × (signals ≡ before ++ (s ∷ later))
        × All (λ r. awaits unix registered r ≡ false) before)
