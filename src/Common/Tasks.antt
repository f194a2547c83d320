-- ===== src/Common/Tasks.antt =====
-- Fallible, stateful calls: what an `async fn` that returns a `Result` does to the state it runs in.
use mathlib.Core.Path.{◌≡◌, refl}
use native.Mathlib.Omega.{arith}
use lwd_mixnet_proxy.Common.Tests.{Result, ok, err}

abbrev pub Task : Type 0 → Type 0 → Type 0 → Type 0
Task S E A = S → Result E A × S

module _ {S E : Type 0} where
  abbrev pub and_then : {A B : Type 0} → Result E A × S → (A → Task S E B) → Result E B × S
  and_then (ok a, s) f = f a s
  and_then (err e, s) f = (err e, s)

  infixl 5 ◌>>=◌ ◌>>◌
  abbrev pub ◌>>=◌ : {A B : Type 0} → Task S E A → (A → Task S E B) → Task S E B
  ◌>>=◌ m f s = and_then (m s) f

  abbrev pub ◌>>◌ : {A B : Type 0} → Task S E A → Task S E B → Task S E B
  ◌>>◌ m k s = and_then (m s) (λ _. k)

  abbrev pub pure : {A : Type 0} → A → Task S E A
  pure a s = (ok a, s)

  abbrev pub fail : {A : Type 0} → E → Task S E A
  fail e s = (err e, s)

abbrev pub map_err {ℓ} : {E F A : Type 0} {S : Type ℓ} → (E → F) → Result E A × S → Result F A × S
map_err f (ok a, s) = (ok a, s)
map_err f (err e, s) = (err (f e), s)

-- A chain that succeeds had each part succeed.
pub and_then-eq-ok :
    {S E A B : Type 0} (r : Result E A × S) (f : A → Task S E B) {b : B} {s' : S}
    → and_then r f ≡ (ok b, s')
    → (a : A) × (s : S) × (r ≡ (ok a, s)) × (f a s ≡ (ok b, s'))
and_then-eq-ok (ok a, s) f h = (a, s, refl, h)
and_then-eq-ok (err e, s) f h = cc

pub map_err-eq-ok :
    {E F A S : Type 0} (f : E → F) (r : Result E A × S) {a : A} {s : S}
    → map_err f r ≡ (ok a, s)
    → r ≡ (ok a, s)
map_err-eq-ok f (ok b, t) h = ground arith
map_err-eq-ok f (err e, t) h = cc
