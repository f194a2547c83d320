-- ===== src/Bench/Opens.antt =====
-- src/bin/bench.rs, `Trial::refused_opens`: that its subtraction is one.
use lwd_mixnet_proxy.Common.{ℕ, ◌+◌, ◌≡◌, refl, List, [], ◌∷◌, map, sum, arith}
use lwd_mixnet_proxy.Dial.{Round, attempted, failures, is_open_failure}
use lwd_mixnet_proxy.Bench.{Trial, opened, opened_over, refused_opens}

-- The opens of these rounds that the client refused.
abbrev pub refusals_in : {E N : Type 0} → List (Round E N) → ℕ
refusals_in [] = 0
refusals_in (r ∷ rs) = failures r is_open_failure + refusals_in rs

module _ {E N : Type 0} where
  opened-refusals :
      (rs : List (Round E N)) → sum (map attempted rs) ≡ opened_over rs + refusals_in rs
  unfolding attempted
  opened-refusals [] = refl
  opened-refusals (r ∷ rs) = omega (arith, opened-refusals rs)

  -- The opens of a trial that count as refused are those that the client refused, one for one, and
  -- with the streams that were opened they make up all that was attempted: the subtraction that
  -- finds them never goes below 0.
  pub refused_opens-attempted :
      (t : Trial E N)
      → (refused_opens t ≡ refusals_in t.rounds)
        × (opened t + refused_opens t ≡ sum (map attempted t.rounds))
  unfolding refused_opens opened
  refused_opens-attempted t =
      (omega (arith, opened-refusals t.rounds), omega (arith, opened-refusals t.rounds))
