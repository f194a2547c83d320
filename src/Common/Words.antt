-- ===== src/Common/Words.antt =====
-- Big-endian byte strings, as `u64::to_be_bytes` and `u64::from_be_bytes` of the language.
use Prim.Native.Nat.{ℕ, zero, suc, ◌+◌, ◌-◌, ◌*◌, ◌/◌, ◌%◌, ◌^◌, ◌<◌}
use mathlib.Core.Path.{◌≡◌, refl}
use mathlib.Core.List.{
  List, [], ◌∷◌, ◌++◌, foldl, foldl-append, reverse, reverse-cons, reverse-reverse,
}
use native.Mathlib.Nat.{pow-suc}
use native.Mathlib.Omega.{arith}
use lwd_mixnet_proxy.Common.Lists.{length, length-append, All}

abbrev pub IsByte : ℕ → Type 0
IsByte b = b < 256

abbrev pub u64_mod : ℕ
u64_mod = 2 ^ 64

abbrev pub u32_mod : ℕ
u32_mod = 2 ^ 32

abbrev pub u64_max : ℕ
u64_max = 2 ^ 64 - 1

abbrev pub IsU64 : ℕ → Type 0
IsU64 n = n < 2 ^ 64

-- The low `k` bytes of `n`, the highest first.
unfoldable pub be_bytes : ℕ → ℕ → List ℕ
be_bytes zero n = []
be_bytes (suc k) n = be_bytes k (n / 256) ++ (n % 256 ∷ [])

unfoldable pub from_be_bytes : List ℕ → ℕ
from_be_bytes = foldl (λ acc b. acc * 256 + b) 0

pub length-be_bytes : (k n : ℕ) → length (be_bytes k n) ≡ k
unfolding be_bytes
length-be_bytes zero n = refl
length-be_bytes (suc k) n =
    omega (arith, length-append (be_bytes k (n / 256)) (n % 256 ∷ []), length-be_bytes k (n / 256))

from_be_bytes-append :
    (xs : List ℕ) (b : ℕ) → from_be_bytes (xs ++ (b ∷ [])) ≡ from_be_bytes xs * 256 + b
unfolding from_be_bytes
from_be_bytes-append xs b = foldl-append _ 0 xs (b ∷ [])

pub from_be_bytes-be_bytes : (k n : ℕ) → n < 256 ^ k → from_be_bytes (be_bytes k n) ≡ n
unfolding be_bytes
from_be_bytes-be_bytes zero n h = unfold from_be_bytes in omega arith
from_be_bytes-be_bytes (suc k) n h =
    rw (from_be_bytes-append (be_bytes k (n / 256)) (n % 256))
      (omega (arith, from_be_bytes-be_bytes k (n / 256) (omega (arith, pow-suc 256 k))))

-- A byte string goes through its number and back. Both facts are by recursion from the last byte.
module _ (b : ℕ) (byte : IsByte b) (ys : List ℕ) where
  from_be_bytes_lt_snoc :
      (k : ℕ) → from_be_bytes ys < 256 ^ k → from_be_bytes (ys ++ (b ∷ [])) < 256 ^ suc k
  from_be_bytes_lt_snoc k h = rw (from_be_bytes-append ys b) (omega (arith, pow-suc 256 k))

  be_bytes_snoc :
      (k : ℕ)
      → be_bytes k (from_be_bytes ys) ≡ ys
      → be_bytes (suc k) (from_be_bytes (ys ++ (b ∷ []))) ≡ ys ++ (b ∷ [])
  unfolding be_bytes
  be_bytes_snoc k h =
      let m = from_be_bytes ys in
      let high : (m * 256 + b) / 256 ≡ m = omega arith in
      let low : (m * 256 + b) % 256 ≡ b = omega arith in
      rw (from_be_bytes-append ys b, high, low, h)

length-reverse : (xs : List ℕ) → length (reverse xs) ≡ length xs
length-reverse [] = refl
length-reverse (x ∷ xs) =
    rw (reverse-cons x xs) (omega (arith, length-append (reverse xs) (x ∷ []), length-reverse xs))

All-append : (xs ys : List ℕ) → All IsByte xs → All IsByte ys → All IsByte (xs ++ ys)
All-append [] ys hx hy = hy
All-append (x ∷ xs) ys hx hy = (hx.0, All-append xs ys hx.1 hy)

All-reverse : (xs : List ℕ) → All IsByte xs → All IsByte (reverse xs)
All-reverse [] h = tt
All-reverse (x ∷ xs) h =
    rw (reverse-cons x xs) (All-append (reverse xs) (x ∷ []) (All-reverse xs h.1) (h.0, tt))

from_be_bytes_lt_reverse :
    (ys : List ℕ) → All IsByte ys → from_be_bytes (reverse ys) < 256 ^ length ys
from_be_bytes_lt_reverse [] h = unfold from_be_bytes in omega arith
from_be_bytes_lt_reverse (y ∷ ys) h =
    rw (reverse-cons y ys)
      (from_be_bytes_lt_snoc y h.0 (reverse ys) (length ys) (from_be_bytes_lt_reverse ys h.1))

be_bytes-reverse :
    (ys : List ℕ) → All IsByte ys → be_bytes (length ys) (from_be_bytes (reverse ys)) ≡ reverse ys
be_bytes-reverse [] h = unfold be_bytes in refl
be_bytes-reverse (y ∷ ys) h =
    rw (reverse-cons y ys) (be_bytes_snoc y h.0 (reverse ys) (length ys) (be_bytes-reverse ys h.1))

pub from_be_bytes_lt :
    (k : ℕ) (xs : List ℕ) → length xs ≡ k → All IsByte xs → from_be_bytes xs < 256 ^ k
from_be_bytes_lt k xs e h =
    rw (← e, ← length-reverse xs)
      (rw (reverse-reverse xs) at (from_be_bytes_lt_reverse (reverse xs) (All-reverse xs h)))

pub be_bytes-from_be_bytes :
    (k : ℕ) (xs : List ℕ) → length xs ≡ k → All IsByte xs → be_bytes k (from_be_bytes xs) ≡ xs
be_bytes-from_be_bytes k xs e h =
    rw (← e, ← length-reverse xs)
      (rw (reverse-reverse xs) at (be_bytes-reverse (reverse xs) (All-reverse xs h)))
