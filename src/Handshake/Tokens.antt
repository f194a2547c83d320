-- ===== src/Handshake/Tokens.antt =====
-- src/handshake.rs, `Header::next`: tokens from one counter.
use lwd_mixnet_proxy.Common.{
  ℕ, ◌+◌, ◌%◌, ◌≤◌, ◌<◌, ◌≡◌, ◌≢◌, Bool, List, [], ◌∷◌, length, All, arith,
}
use lwd_mixnet_proxy.Common.Words.{IsU64, u64_mod}
use lwd_mixnet_proxy.Handshake.{Header, next}

-- The headers that a process builds, one for each request for an echo or none, from a counter on.
unfoldable pub headers : ℕ → List Bool → List Header
headers counter [] = []
headers counter (echo ∷ rest) =
    let (header, counter') = next echo counter in header ∷ headers counter' rest

-- No two headers of a list carry one token.
abbrev pub OwnTokens : List Header → Type 0
OwnTokens [] = Unit {0}
OwnTokens (h ∷ hs) = All (λ k. h.token ≢ k.token) hs × OwnTokens hs

-- The token `distance` steps after the counter, wrapped.
not_met :
    (token counter : ℕ) (echoes : List Bool)
    → token < u64_mod
    → counter < u64_mod
    → (d : ℕ) → 0 < d
    → d + length echoes ≤ u64_mod
    → counter ≡ (token + d) % u64_mod
    → All (λ k. token ≢ k.token) (headers counter echoes)
unfolding headers next
not_met token counter [] ht hc d pos fits e = tt
not_met token counter (echo ∷ rest) ht hc d pos fits e = (
  omega arith,
  not_met token ((counter + 1) % u64_mod) rest ht (omega arith) (d + 1) (omega arith) (omega arith)
      (omega arith),
)

-- Up to 2^64 headers built in a row carry a token each of their own, wherever the counter stood.
pub headers-OwnTokens :
    (counter : ℕ) (echoes : List Bool)
    → IsU64 counter
    → length echoes ≤ u64_mod
    → OwnTokens (headers counter echoes)
unfolding headers next
headers-OwnTokens counter [] h fits = tt
headers-OwnTokens counter (echo ∷ rest) h fits = (
  not_met counter ((counter + 1) % u64_mod) rest h (omega arith) 1 (omega arith) (omega arith)
      (omega arith),
  headers-OwnTokens ((counter + 1) % u64_mod) rest (omega arith) (omega arith),
)
