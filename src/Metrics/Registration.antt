-- ===== src/Metrics/Registration.antt =====
-- src/metrics.rs, the constructors of the two halves: what each registers with prometheus.
pub mod Fresh
use Prim.Native.Char.{code}
use Prim.Native.String.{String, ◌++◌ as append}
use lwd_mixnet_proxy.Common.{
  ℕ, ◌≤◌, ◌<◌, ◌≡◌, Bool, true, false, ◌&&◌, ◌||◌, not, List, [], ◌∷◌, ◌++◌, ◌==◌, leb, Result, ok,
  err,
}
use text.Mathlib.Text.{◌==◌ as str_eq}

pub data Kind : Type 0 where
  counter gauge counter_vec histogram : Kind

-- A family of metrics as its options describe it.
pub record Family : Type 0 where
  pub kind : Kind
  pub name : String
  pub help : String
  pub labels : List String

abbrev letter : ℕ → Bool
letter c = (leb b'a' c && leb c b'z') || (leb b'A' c && leb c b'Z') || c == b'_'

abbrev digit : ℕ → Bool
digit c = leb b'0' c && leb c b'9'

abbrev rest_of : String → Bool
rest_of String.[] = true
rest_of (String.◌∷◌ c s) = (letter (code c) || digit (code c)) && rest_of s

-- A name in the exposition format: letters, digits and underscores, not a digit first. (The format
-- allows colons in a metric's name besides, which none here has.)
abbrev pub named : String → Bool
named String.[] = false
named (String.◌∷◌ c s) = letter (code c) && rest_of s

abbrev all_named : List String → Bool
all_named [] = true
all_named (s ∷ ss) = named s && all_named ss

abbrev pub well_described : Family → Bool
well_described f = named f.name && not (str_eq f.help "") && all_named f.labels

abbrev pub not_in : String → List String → Bool
not_in s [] = true
not_in s (t ∷ ts) = not (str_eq t s) && not_in s ts

-- What the code asks of prometheus. `with_opts` makes a metric of a description, and `register` adds
-- it to a registry, which has the names it was given, in order. Start and factor of the buckets are
-- in tenths.
pub record Prometheus (R B E : Type 0) : Type 0 where
  pub new : R
  pub exponential_buckets : ℕ → ℕ → ℕ → Result E B
  pub with_opts : Family → Result E (Unit {0})
  pub register : Family → R → Result E R
  pub registered : R → List String
  pub registered-new : registered new ≡ []
  pub buckets_made :
      (start factor count : ℕ)
      → 0 < start
      → 10 < factor
      → 0 < count
      → (b : B) × (exponential_buckets start factor count ≡ ok b)
  pub described : (f : Family) → well_described f ≡ true → with_opts f ≡ ok tt
  pub register_fresh :
      (f : Family) (r : R)
      → not_in f.name (registered r) ≡ true
      → (r' : R) × (register f r ≡ ok r') × (registered r' ≡ registered r ++ (f.name ∷ []))

abbrev pub byte_counter : String → Family
byte_counter half = record {
  kind = counter_vec;
  name = append "lwd_mixnet_" (append half "_bytes_total");
  help = "Bytes copied, by direction relative to the mixnet.";
  labels = "direction" ∷ [];
}

abbrev pub ended_counter : String → Family
ended_counter half = record {
  kind = counter_vec;
  name = append "lwd_mixnet_" (append half "_connections_ended_total");
  help = "Finished connections, by how they ended.";
  labels = "reason" ∷ [];
}

-- In the order of the fields of `ClientMetrics::new`.
abbrev pub client_families : List Family
client_families =
    record {
      kind = counter;
      name = "lwd_mixnet_client_connections_total";
      help = "Local connections accepted from the wallet.";
      labels = [];
    }
    ∷ record {
      kind = gauge;
      name = "lwd_mixnet_client_connections_in_flight";
      help = "Local connections currently being carried.";
      labels = [];
    }
    ∷ record {
      kind = counter;
      name = "lwd_mixnet_client_connections_unestablished_total";
      help =
          append "Connections closed because no stream ever answered. Against "
            ("lwd_mixnet_client_connections_total this is the failure rate the wallet sees.");
      labels = [];
    }
    ∷ record {
      kind = gauge;
      name = "lwd_mixnet_client_connections_failed_in_a_row";
      help =
          append "Connections that ended with no stream, back to back, zero again as soon as one " (
            append
              "works. The counters beside it are rates over a process lifetime and say nothing "
              ("about now: a serving half that has gone away shows up here and nowhere else."));
      labels = [];
    }
    ∷ record {
      kind = counter;
      name = "lwd_mixnet_client_first_round_failures_total";
      help = append "Connections whose first round of streams all went unanswered. Against " (
          append "lwd_mixnet_client_connections_total this is the rate at which a stream fails to "
            (append "establish, before any retry. The mixnet is not what drops them: see "
              ("docs/measurements/2026-08-24-reordering-not-loss.md.")));
      labels = [];
    }
    ∷ record {
      kind = counter;
      name = "lwd_mixnet_client_streams_opened_total";
      help = "Mixnet streams opened, across every round.";
      labels = [];
    }
    ∷ record {
      kind = counter_vec;
      name = "lwd_mixnet_client_streams_discarded_total";
      help = "Streams thrown away before carrying anything, by why.";
      labels = "reason" ∷ [];
    }
    ∷ record {
      kind = counter;
      name = "lwd_mixnet_client_rounds_total";
      help = "Rounds of streams opened. Above one per connection is retry doing its job.";
      labels = [];
    }
    ∷ record {
      kind = histogram;
      name = "lwd_mixnet_client_establishment_seconds";
      help =
          append "Time from accepting a local connection to holding a stream that answered. Rounds "
            (append
              "that found nothing are inside it, each costing a probe deadline, so this is where "
              ("retrying shows up as a wait."));
      labels = [];
    }
    ∷ ended_counter "client"
    ∷ byte_counter "client"
    ∷ []

abbrev pub server_families : List Family
server_families =
    record {
      kind = counter;
      name = "lwd_mixnet_server_streams_accepted_total";
      help = "Mixnet streams that introduced themselves with a header this build understands.";
      labels = [];
    }
    ∷ record {
      kind = counter_vec;
      name = "lwd_mixnet_server_streams_rejected_total";
      help = "Streams dropped before reaching the upstream, by why.";
      labels = "reason" ∷ [];
    }
    ∷ record {
      kind = counter;
      name = "lwd_mixnet_server_streams_without_request_total";
      help =
          append "Accepted streams let go without ever carrying a request. Mostly the siblings a " (
            append
              "dialler opened together and did not keep, so this tracks what its round size costs "
              ("here."));
      labels = [];
    }
    ∷ record {
      kind = gauge;
      name = "lwd_mixnet_server_connections_in_flight";
      help = "Streams currently spliced to the upstream.";
      labels = [];
    }
    ∷ record {
      kind = counter;
      name = "lwd_mixnet_server_upstream_connections_total";
      help = "Connections opened to the configured upstream.";
      labels = [];
    }
    ∷ record {
      kind = counter;
      name = "lwd_mixnet_server_upstream_failures_total";
      help = "Times the upstream could not be reached.";
      labels = [];
    }
    ∷ ended_counter "server"
    ∷ byte_counter "server"
    ∷ []

module _ {R B E : Type 0} (p : Prometheus R B E) where
  -- The options of a histogram have its buckets.
  abbrev pub with_buckets : Family → Result E B → Result E (Unit {0})
  with_buckets f (err e) = err e
  with_buckets f (ok buckets) = p.with_opts f

  abbrev pub make : Kind → Family → Result E (Unit {0})
  make histogram f = with_buckets f (p.exponential_buckets 5 16 10)
  make _ f = p.with_opts f

  abbrev pub register_made : Family → R → Result E (Unit {0}) → Result E R
  register_made f r (err e) = err e
  register_made f r (ok _) = p.register f r

  -- One field: its metric is made, and a clone of it registered.
  unfoldable pub add_family : Family → R → Result E R
  add_family f r = register_made f r (make f.kind f)

  -- The fields in turn, each with its `?`.
  unfoldable pub add_families : List Family → R → Result E R
  add_families [] r = ok r
  add_families (f ∷ fs) r = elim (add_family f r) [ err e ↦ err e | ok r' ↦ add_families fs r' ]

  -- `ClientMetrics::new` and `ServerMetrics::new`, as far as the registry goes.
  unfoldable pub new_client : Result E R
  new_client = add_families client_families p.new

  unfoldable pub new_server : Result E R
  new_server = add_families server_families p.new
