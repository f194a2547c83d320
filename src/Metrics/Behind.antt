-- ===== src/Metrics/Behind.antt =====
-- src/metrics.rs: one metric that never gets ahead of another, at whichever call one looks.
use lwd_mixnet_proxy.Common.{ℕ, ◌+◌, ◌≤◌, ◌≡◌, List, [], ◌∷◌, ◌++◌, arith}
use lwd_mixnet_proxy.Common.Weights.{weigh, weigh-append}

module _ {A : Type 0} (lead follow : A → ℕ) where
  -- From `l` and `f` on, the second sum is within the first before and after each call.
  unfoldable pub Behind : ℕ → ℕ → List A → Type 0
  Behind l f [] = f ≤ l
  Behind l f (c ∷ cs) = (f ≤ l) × Behind (l + lead c) (f + follow c) cs

  pub Behind-now : (l f : ℕ) (cs : List A) → Behind l f cs → f ≤ l
  unfolding Behind
  Behind-now l f [] h = h
  Behind-now l f (c ∷ cs) h = h.0

  pub Behind-next :
      (l f : ℕ) (c : A) (cs : List A) → Behind l f (c ∷ cs) → Behind (l + lead c) (f + follow c) cs
  unfolding Behind
  Behind-next l f c cs h = h.1

  -- There is room for all that is to follow.
  pub Behind-room : (l f : ℕ) (cs : List A) → f + weigh follow cs ≤ l → Behind l f cs
  unfolding Behind
  Behind-room l f [] h = omega arith
  Behind-room l f (c ∷ cs) h =
      (omega arith, Behind-room (l + lead c) (f + follow c) cs (omega arith))

  -- The calls `ds` find room that the calls `cs` have made.
  pub Behind-append :
      (l f : ℕ) (cs ds : List A)
      → f + weigh follow cs ≤ l
      → f + weigh follow cs + weigh follow ds ≤ l + weigh lead cs
      → Behind l f (cs ++ ds)
  unfolding Behind
  Behind-append l f [] ds h k = Behind-room l f ds (omega arith)
  Behind-append l f (c ∷ cs) ds h k =
      (omega arith, Behind-append (l + lead c) (f + follow c) cs ds (omega arith) (omega arith))

module _ {A : Type 0} where
  weigh_one : (w : A → ℕ) (made : List A) (c : A) → weigh w (made ++ (c ∷ [])) ≡ weigh w made + w c
  weigh_one w made c = omega (arith, weigh-append w made (c ∷ []))

  -- A call that is made is no longer pending.
  pub Behind-call :
      (lead follow : A → ℕ) (made pending : List A) (c : A) (later : List A)
      → pending ≡ c ∷ later
      → Behind lead follow (weigh lead made) (weigh follow made) pending
      → Behind lead follow (weigh lead (made ++ (c ∷ []))) (weigh follow (made ++ (c ∷ []))) later
  Behind-call lead follow made pending c later e h =
      let next : Behind lead follow (weigh lead made + lead c) (weigh follow made + follow c)
          later =
        Behind-next lead follow _ _ c later (rw e at h) in
      rw (weigh_one lead made c, weigh_one follow made c) next

  pub weigh-call :
      (w : A → ℕ) (made pending : List A) (c : A) (later : List A)
      → pending ≡ c ∷ later
      → weigh w (made ++ (c ∷ [])) + weigh w later ≡ weigh w made + weigh w pending
  weigh-call w made pending c later e = rw e (omega (arith, weigh_one w made c))
