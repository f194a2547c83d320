-- ===== src/Common/Weights.antt =====
-- Sums over lists, and what one element of a list adds to them.
use Prim.Native.Nat.{ℕ, ◌+◌, ◌≤◌}
use mathlib.Core.Path.{◌≡◌, refl, ap, ◌∙◌}
use mathlib.Core.List.{List, [], ◌∷◌, ◌++◌, Perm, Permᴰ}
use mathlib.Core.Logic.{∥∥₁_elim}
use native.Mathlib.Nat.{ℕ_set}
use native.Mathlib.Omega.{arith}
use lwd_mixnet_proxy.Common.Lists.{All}

module _ {A : Type 0} (weight : A → ℕ) where
  abbrev pub weigh : List A → ℕ
  weigh [] = 0
  weigh (x ∷ xs) = weight x + weigh xs

  weigh-Permᴰ : {xs ys : List A} → Permᴰ xs ys → weigh xs ≡ weigh ys
  weigh-Permᴰ Permᴰ.nil = refl
  weigh-Permᴰ (Permᴰ.cons e p) = omega (arith, ap weight e, weigh-Permᴰ p)
  weigh-Permᴰ (Permᴰ.swap e f) = omega (arith, ap weight e, ap weight f)
  weigh-Permᴰ (Permᴰ.trans p q) = weigh-Permᴰ p ∙ weigh-Permᴰ q

  pub weigh-Perm : {xs ys : List A} → Perm xs ys → weigh xs ≡ weigh ys
  weigh-Perm p = ∥∥₁_elim p (ℕ_set _ _) weigh-Permᴰ

  pub weigh-append : (xs ys : List A) → weigh (xs ++ ys) ≡ weigh xs + weigh ys
  weigh-append [] ys = omega arith
  weigh-append (x ∷ xs) ys = omega (arith, weigh-append xs ys)

  -- What changes where one element is put in another's place.
  pub weigh-put :
      (before after : List A) (x y : A)
      → weigh (before ++ (x ∷ after)) + weight y ≡ weigh (before ++ (y ∷ after)) + weight x
  weigh-put before after x y =
      omega (arith, weigh-append before (x ∷ after), weigh-append before (y ∷ after))

module _ {A : Type 0} where
  pub weigh-le : (v w : A → ℕ) (xs : List A) → All (λ x. v x ≤ w x) xs → weigh v xs ≤ weigh w xs
  weigh-le v w [] h = omega arith
  weigh-le v w (x ∷ xs) h = omega (arith, h.0, weigh-le v w xs h.1)

  pub weigh-add : (v w : A → ℕ) (xs : List A) → weigh (λ x. v x + w x) xs ≡ weigh v xs + weigh w xs
  weigh-add v w [] = omega arith
  weigh-add v w (x ∷ xs) = omega (arith, weigh-add v w xs)

  pub weigh-eq : (v w : A → ℕ) (xs : List A) → All (λ x. v x ≡ w x) xs → weigh v xs ≡ weigh w xs
  weigh-eq v w [] h = refl
  weigh-eq v w (x ∷ xs) h = omega (arith, h.0, weigh-eq v w xs h.1)

-- Tasks that each make calls, and all the calls that were made: what one task calls, all have.
module _ {A T : Type 0} (weight : A → ℕ) (made : T → List A) where
  pub sums-put :
      (calls cs : List A) (tasks before after : List T) (t u : T)
      → tasks ≡ before ++ (t ∷ after)
      → made u ≡ made t ++ cs
      → weigh weight calls ≡ weigh (λ x. weigh weight (made x)) tasks
      → weigh weight (calls ++ cs) ≡ weigh (λ x. weigh weight (made x)) (before ++ (u ∷ after))
  sums-put calls cs tasks before after t u at by sums =
      let each : T → ℕ = λ x. weigh weight (made x) in
      omega (
        arith,
        sums,
        ap (weigh each) at,
        ap (weigh weight) by,
        weigh-append weight (made t) cs,
        weigh-append weight calls cs,
        weigh-put each before after u t,
      )

module _ {A : Type 0} (P : A → Type 0) where
  pub All-map : (Q : A → Type 0) (xs : List A) → ((x : A) → P x → Q x) → All P xs → All Q xs
  All-map Q [] f h = tt
  All-map Q (x ∷ xs) f h = (f x h.0, All-map Q xs f h.1)

  pub All-append : (xs ys : List A) → All P xs → All P ys → All P (xs ++ ys)
  All-append [] ys h k = k
  All-append (x ∷ xs) ys h k = (h.0, All-append xs ys h.1 k)

  pub All-picked : (before after : List A) (x : A) → All P (before ++ (x ∷ after)) → P x
  All-picked [] after x h = h.0
  All-picked (y ∷ before) after x h = All-picked before after x h.1

  -- One element that is put in another's place.
  pub All-put :
      (before after : List A) (x y : A)
      → All P (before ++ (y ∷ after))
      → P x
      → All P (before ++ (x ∷ after))
  All-put [] after x y h p = (p, h.1)
  All-put (z ∷ before) after x y h p = (h.0, All-put before after x y h.1 p)
