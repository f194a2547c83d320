-- ===== src/Metrics/Registration/Fresh.antt =====
-- src/metrics.rs: that the two constructors succeed.
use Prim.Native.String.{String}
use lwd_mixnet_proxy.Common.{
  ◌≡◌, refl, sym, ◌∙◌, ap, Bool, true, ◌&&◌, List, [], ◌∷◌, ◌++◌, ok, map, arith,
}
use mathlib.Core.Path.{subst}
use mathlib.Core.List.{append_assoc, append-nil}
use lwd_mixnet_proxy.Metrics.Registration.{
  Kind, counter, gauge, counter_vec, histogram, Family, well_described, not_in, Prometheus, make,
  add_family, add_families, client_families, server_families, new_client, new_server,
}

abbrev pub name_of : Family → String
name_of f = f.name

-- Each can be described, and has a name that is not among `seen` or the names before it.
abbrev Fresh : List String → List Family → Type 0
Fresh seen [] = Unit {0}
Fresh seen (f ∷ fs) =
    (well_described f ≡ true) × (not_in f.name seen ≡ true) × Fresh (seen ++ (f.name ∷ [])) fs

abbrev all_fresh : List String → List Family → Bool
all_fresh seen [] = true
all_fresh seen (f ∷ fs) =
    well_described f && not_in f.name seen && all_fresh (seen ++ (f.name ∷ [])) fs

all_fresh-Fresh : (seen : List String) (fs : List Family) → all_fresh seen fs ≡ true → Fresh seen fs
all_fresh-Fresh seen [] h = tt
all_fresh-Fresh seen (f ∷ fs) h =
    (ground arith, ground arith, all_fresh-Fresh (seen ++ (f.name ∷ [])) fs (ground arith))

client-Fresh : Fresh [] client_families
client-Fresh = all_fresh-Fresh [] client_families refl

server-Fresh : Fresh [] server_families
server-Fresh = all_fresh-Fresh [] server_families refl

module _ {R B E : Type 0} (p : Prometheus R B E) where
  made : (k : Kind) (f : Family) → well_described f ≡ true → make p k f ≡ ok tt
  made counter f h = p.described f h
  made gauge f h = p.described f h
  made counter_vec f h = p.described f h
  made histogram f h =
      let (b, e) = p.buckets_made 5 16 10 (omega arith) (omega arith) (omega arith) in
      rw e (p.described f h)

  added :
      (f : Family) (r : R)
      → well_described f ≡ true
      → not_in f.name (p.registered r) ≡ true
      → (r' : R) × (add_family p f r ≡ ok r') × (p.registered r' ≡ p.registered r ++ (f.name ∷ []))
  unfolding add_family
  added f r h n = let (r', e, names) = p.register_fresh f r n in (r', rw (made f.kind f h) e, names)

  add_families-Fresh :
      (fs : List Family) (r : R)
      → Fresh (p.registered r) fs
      → (r' : R) × (add_families p fs r ≡ ok r')
        × (p.registered r' ≡ p.registered r ++ map name_of fs)
  unfolding add_families
  add_families-Fresh [] r fresh = (r, refl, sym (append-nil _))
  add_families-Fresh (f ∷ fs) r (h, n, fresh) =
      let (s, e, names) = added f r h n in
      let (r', e', all) = add_families-Fresh fs s (rw names fresh) in
      (
        r',
        rw (e, add_families) e',
        all ∙ ap (λ xs. xs ++ map name_of fs) names ∙ append_assoc (p.registered r) (f.name ∷ []) _,
      )

  -- Both constructors succeed, whatever registry they get: each description is one that prometheus
  -- takes, and no name is registered twice. The registry has the families' names, in order.
  pub new_client-registered :
      ((r : R) × (new_client p ≡ ok r) × (p.registered r ≡ map name_of client_families))
      × ((r : R) × (new_server p ≡ ok r) × (p.registered r ≡ map name_of server_families))
  unfolding new_client new_server
  new_client-registered = (start client_families client-Fresh, start server_families server-Fresh)
    where
      start :
          (fs : List Family)
          → Fresh [] fs
          → (r : R) × (add_families p fs p.new ≡ ok r) × (p.registered r ≡ map name_of fs)
      start fs fresh =
          let (r, e, all) =
            add_families-Fresh fs p.new
              (subst (λ seen. Fresh seen fs) (sym p.registered-new) fresh) in
          (r, e, all ∙ ap (λ xs. xs ++ map name_of fs) p.registered-new)
