-- ===== src/Examples/Registries.antt =====
-- A registry that is the list of its names, and the theorem of `Metrics/Registration` at it.
use Prim.Native.String.{String}
use lwd_mixnet_proxy.Common.{
  ℕ, ◌≡◌, refl, List, [], ◌∷◌, ◌++◌, Result, ok, err, true, if◌then◌else◌, arith, map,
}
use lwd_mixnet_proxy.Metrics.Registration.{
  Family, well_described, not_in, Prometheus, client_families, server_families, new_client,
  new_server, byte_counter,
}
use lwd_mixnet_proxy.Metrics.Registration.Fresh.{name_of, new_client-registered}

abbrev pub opts_of : Family → Result String (Unit {0})
opts_of f = if well_described f then ok tt else err "invalid"

pub opts_of-described : (f : Family) → well_described f ≡ true → opts_of f ≡ ok tt
opts_of-described f h = ground arith

abbrev pub add_name : Family → List String → Result String (List String)
add_name f r = if not_in f.name r then ok (r ++ (f.name ∷ [])) else err "registered"

pub add_name-fresh :
    (f : Family) (r : List String) → not_in f.name r ≡ true → add_name f r ≡ ok (r ++ (f.name ∷ []))
add_name-fresh f r h = ground arith

abbrev pub names_only : Prometheus (List String) ℕ String
names_only = record {
  new = [];
  exponential_buckets = λ start factor count. ok count;
  with_opts = opts_of;
  register = add_name;
  registered = λ r. r;
  registered-new = refl;
  buckets_made = λ start factor count a b c. (count, refl);
  described = opts_of-described;
  register_fresh = λ f r h. (r ++ (f.name ∷ []), add_name-fresh f r h, refl);
}

client_bytes : (byte_counter "client").name ≡ "lwd_mixnet_client_bytes_total"
client_bytes = refl

new_client-registered_example :
    ((r : List String) × (new_client names_only ≡ ok r) × (r ≡ map name_of client_families))
    × ((r : List String) × (new_server names_only ≡ ok r) × (r ≡ map name_of server_families))
new_client-registered_example = new_client-registered names_only
