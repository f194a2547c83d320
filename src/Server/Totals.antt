-- ===== src/Server/Totals.antt =====
-- src/bin/server.rs, `serve`, for all the streams that the server half has taken in, each in a task of
-- its own: what the metrics say together.
use lwd_mixnet_proxy.Common.{
  ℕ, ◌+◌, ◌≡◌, refl, List, [], ◌∷◌, ◌++◌, if◌then◌else◌, Perm, length, arith, Bool-cases, inl, inr,
}
use lwd_mixnet_proxy.Handshake.{Io, Wire}
use lwd_mixnet_proxy.Metrics.Server.{
  ServerMetric, Calls, streams_accepted, streams_rejected, streams_without_request, in_flight,
  upstream_connections, upstream_failures,
}
use lwd_mixnet_proxy.Metrics.Totals.{total, drops, total-append, drops-append}
use lwd_mixnet_proxy.Metrics.Interleaved.{total-Perm, drops-Perm}
use lwd_mixnet_proxy.Server.{Settings, Upstream, serve}
use lwd_mixnet_proxy.Server.Carried.{is, counted, is_over, serve-Counts}

module _ {W U E : Type 0} (io : Io W E) (up : Upstream W U E) (settings : Settings) where
  -- The calls of all these streams, those of one after those of the other.
  abbrev pub calls_of : List (Wire W) → Calls
  calls_of [] = []
  calls_of (s ∷ rest) = (serve io up settings s).0 ++ calls_of rest

  -- The streams that are still being spliced.
  abbrev pub spliced_still : List (Wire W) → ℕ
  spliced_still [] = 0
  spliced_still (s ∷ rest) =
      (if is_over (serve io up settings s).1 then 0 else 1) + spliced_still rest

  -- What the counters and the gauge come to, over the calls of so many streams.
  pub record Balanced (streams : ℕ) (still : ℕ) (calls : Calls) : Type 0 where
    pub once : counted streams_accepted calls + counted streams_rejected calls ≡ streams
    pub settled :
        counted streams_accepted calls
        ≡ counted streams_without_request calls
          + counted upstream_failures calls
          + counted upstream_connections calls
    pub raised : counted in_flight calls ≡ counted upstream_connections calls
    pub gauge : counted in_flight calls ≡ drops (is in_flight) calls + still

  Balanced-one :
      (s : Wire W)
      → Balanced 1 (if is_over (serve io up settings s).1 then 0 else 1) (serve io up settings s).0
  Balanced-one s =
      let c = serve-Counts io up settings s in
      record {
        once = c.once;
        settled = c.settled;
        raised = c.raised;
        gauge = elim (Bool-cases (is_over (serve io up settings s).1)) [
          | inl over ↦ ground (arith, c.raised, c.lowered)
          | inr on ↦ ground (arith, c.raised, c.lowered, c.going_on on)
        ];
      }

  counted-append :
      (m : ServerMetric) (cs ds : Calls) → counted m (cs ++ ds) ≡ counted m cs + counted m ds
  counted-append m cs ds = total-append (is m) cs ds

  Balanced-append :
      (n k m i j : ℕ) (cs ds : Calls)
      → m ≡ n + k
      → Balanced n i cs
      → Balanced k j ds
      → Balanced m (i + j) (cs ++ ds)
  Balanced-append n k m i j cs ds e a b = record {
    once = omega (
      arith,
      a.once,
      b.once,
      counted-append streams_accepted cs ds,
      counted-append streams_rejected cs ds,
    );
    settled = omega (
      arith,
      a.settled,
      b.settled,
      counted-append streams_accepted cs ds,
      counted-append streams_without_request cs ds,
      counted-append upstream_failures cs ds,
      counted-append upstream_connections cs ds,
    );
    raised = omega (
      arith,
      a.raised,
      b.raised,
      counted-append in_flight cs ds,
      counted-append upstream_connections cs ds,
    );
    gauge = omega (
      arith,
      a.gauge,
      b.gauge,
      counted-append in_flight cs ds,
      drops-append (is in_flight) cs ds,
    );
  }

  Balanced-calls_of :
      (streams : List (Wire W))
      → Balanced (length streams) (spliced_still streams) (calls_of streams)
  unfolding total drops
  Balanced-calls_of [] = record { once = refl; settled = refl; raised = refl; gauge = refl }
  Balanced-calls_of (s ∷ rest) =
      Balanced-append 1 (length rest) (length (s ∷ rest)) _ _ _ _ (omega arith) (Balanced-one s)
        (Balanced-calls_of rest)

  -- However the tasks of these streams run beside each other, and so in whatever order they make their
  -- calls: every stream is counted once as accepted or rejected, the accepted ones are those without a
  -- request, those whose upstream failed and those with an upstream connection, and the gauge of
  -- streams in flight stands at the number of those that are still being spliced.
  pub serve-Balanced :
      (streams : List (Wire W)) (calls : Calls)
      → Perm calls (calls_of streams)
      → Balanced (length streams) (spliced_still streams) calls
  serve-Balanced streams calls p =
      let b = Balanced-calls_of streams in
      let same = λ (m : ServerMetric). total-Perm (is m) p in
      record {
        once = omega (arith, b.once, same streams_accepted, same streams_rejected);
        settled = omega (
          arith,
          b.settled,
          same streams_accepted,
          same streams_without_request,
          same upstream_failures,
          same upstream_connections,
        );
        raised = omega (arith, b.raised, same in_flight, same upstream_connections);
        gauge = omega (arith, b.gauge, same in_flight, drops-Perm (is in_flight) p);
      }
