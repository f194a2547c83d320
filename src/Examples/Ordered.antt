-- ===== src/Examples/Ordered.antt =====
-- A concrete `FuturesUnordered`: what finishes first comes first.
use mathlib.Core.List.Perm
use lwd_mixnet_proxy.Common.{
  ℕ, ◌≤◌, List, [], ◌∷◌, leb, leb→le, Bool-cases, inl, inr, if◌then◌else◌, Perm, All, arith,
}
use lwd_mixnet_proxy.Dial.Run.{InOrder}

module _ {A : Type 0} (key : A → ℕ) where
  unfoldable pub insert : A → List A → List A
  insert a [] = a ∷ []
  insert a (x ∷ xs) = let rest = insert a xs in if leb (key a) (key x) then a ∷ x ∷ xs else x ∷ rest

  unfoldable pub by_key : List A → List A
  unfolding insert
  by_key [] = []
  by_key (x ∷ xs) = insert x (by_key xs)

  insert-Perm : (a : A) (xs : List A) → Perm (insert a xs) (a ∷ xs)
  unfolding insert
  insert-Perm a [] = Perm.refl (a ∷ [])
  insert-Perm a (x ∷ xs) = elim (Bool-cases (leb (key a) (key x))) [
    | inl le ↦ rw le (Perm.refl (a ∷ x ∷ xs))
    | inr gt ↦ rw gt (Perm.trans (Perm.cons x (insert-Perm a xs)) (Perm.swap a x xs))
  ]

  pub by_key-Perm : (xs : List A) → Perm (by_key xs) xs
  unfolding by_key
  by_key-Perm [] = Perm.refl []
  by_key-Perm (x ∷ xs) = Perm.trans (insert-Perm x (by_key xs)) (Perm.cons x (by_key-Perm xs))

  above_trans :
      (a x : A) (xs : List A)
      → key a ≤ key x
      → All (λ y. key x ≤ key y) xs
      → All (λ y. key a ≤ key y) xs
  above_trans a x [] le h = tt
  above_trans a x (y ∷ ys) le h = (omega (arith, h.0), above_trans a x ys le h.1)

  above-insert :
      (b a : A) (xs : List A)
      → key b ≤ key a
      → All (λ y. key b ≤ key y) xs
      → All (λ y. key b ≤ key y) (insert a xs)
  unfolding insert
  above-insert b a [] le h = (le, tt)
  above-insert b a (x ∷ xs) le h = ground (arith, above-insert b a xs le h.1)

  insert-InOrder : (a : A) (xs : List A) → InOrder key xs → InOrder key (insert a xs)
  unfolding insert
  insert-InOrder a [] h = (tt, tt)
  insert-InOrder a (x ∷ xs) h = elim (Bool-cases (leb (key a) (key x))) [
    | inl le ↦ rw le ((leb→le _ _ le, above_trans a x xs (leb→le _ _ le) h.0), h)
    | inr gt ↦ rw gt (above-insert x a xs (ground arith) h.0, insert-InOrder a xs h.1)
  ]

  pub by_key-InOrder : (xs : List A) → InOrder key (by_key xs)
  unfolding by_key
  by_key-InOrder [] = tt
  by_key-InOrder (x ∷ xs) = insert-InOrder x (by_key xs) (by_key-InOrder xs)
