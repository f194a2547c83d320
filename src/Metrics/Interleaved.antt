-- ===== src/Metrics/Interleaved.antt =====
-- src/metrics.rs: what a metric comes to over the same calls in another order, as tasks that run beside
-- each other may make them.
use lwd_mixnet_proxy.Common.{◌+◌, ◌≡◌, refl, ap, ◌∙◌, sym, Bool, List, [], ◌∷◌, Perm}
use lwd_mixnet_proxy.Common.Weights.{weigh, weigh-Perm}
use lwd_mixnet_proxy.Metrics.{Call}
use lwd_mixnet_proxy.Metrics.Totals.{raised, lowered, total, drops}

module _ {M : Type 0} (is : M → Bool) where
  pub weigh-total : (cs : List (Call M)) → weigh (raised is) cs ≡ total is cs
  unfolding total
  weigh-total [] = refl
  weigh-total (c ∷ cs) = ap (λ n. raised is c + n) (weigh-total cs)

  pub weigh-drops : (cs : List (Call M)) → weigh (lowered is) cs ≡ drops is cs
  unfolding drops
  weigh-drops [] = refl
  weigh-drops (c ∷ cs) = ap (λ n. lowered is c + n) (weigh-drops cs)

  pub total-Perm : {cs ds : List (Call M)} → Perm cs ds → total is cs ≡ total is ds
  total-Perm {cs} {ds} p = sym (weigh-total cs) ∙ weigh-Perm (raised is) p ∙ weigh-total ds

  pub drops-Perm : {cs ds : List (Call M)} → Perm cs ds → drops is cs ≡ drops is ds
  drops-Perm {cs} {ds} p = sym (weigh-drops cs) ∙ weigh-Perm (lowered is) p ∙ weigh-drops ds
