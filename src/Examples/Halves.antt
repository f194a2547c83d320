-- ===== src/Examples/Halves.antt =====
-- Both halves in concrete surroundings, and the theorems about their `main` at concrete inputs.
use Prim.Native.String.{String}
use lwd_mixnet_proxy.Common.{
  ℕ, ◌+◌, ◌%◌, ◌≡◌, refl, false, [], ◌∷◌, Option, none, some, ok, err, arith,
}
use lwd_mixnet_proxy.Common.Words.{u64_mod}
use lwd_mixnet_proxy.Dial.Run.{DialEnd, dial}
use lwd_mixnet_proxy.Dial.Tokens.{streams_in, rounds_of}
use lwd_mixnet_proxy.Client.{Process, carry}
use lwd_mixnet_proxy.Half.{
  context, bail, endpoint_spawned, advanced, exited, begin_half, failed, running,
}
use lwd_mixnet_proxy.Half.Lifecycle.{Lived}
use lwd_mixnet_proxy.Half.Rules.{Ran, given}
use lwd_mixnet_proxy.Health.{registered, serving, start}
use lwd_mixnet_proxy.Metrics.Registration.{new_client, new_server, add_families, add_family}
use lwd_mixnet_proxy.Client.Startup as Dialling
use lwd_mixnet_proxy.Client.Startup.{carrying_for}
use lwd_mixnet_proxy.Client.Startup.Life.{client_main, client_main-Lived}
use lwd_mixnet_proxy.Client.Startup.Ranges.{IsTyped, InRange, carry-InRange}
use lwd_mixnet_proxy.Server.Startup as Listening
use lwd_mixnet_proxy.Server.Startup.Life.{server_main, server_main-Lived}
use lwd_mixnet_proxy.Examples.Registries.{names_only}
use lwd_mixnet_proxy.Examples.Peer.{Peer, Opener, peer_net}
use lwd_mixnet_proxy.Examples.Clients.{process, traffic, last_minutes}
use lwd_mixnet_proxy.Examples.Servers.{counting, crowded}

-- The world counts the calls that were made on it, and every call succeeds.
abbrev kind_to_client : Dialling.Surroundings ℕ String
kind_to_client = record {
  parse_recipient = λ address. ok tt;
  connect_new = λ n. (ok tt, n + 1);
  bind = λ address n. (ok tt, n + 1);
}

abbrev port_taken : Dialling.Surroundings ℕ String
port_taken = record kind_to_client { bind = λ address n. (err "in use", n + 1) }

abbrev observed : Dialling.Arguments
observed = record (Dialling.defaults "address") { metrics_bind = some "127.0.0.1:9100" }

goes_on : client_main kind_to_client names_only observed 0 [] 0 ≡ (
  running,
  record {
    world = 3;
    health = record { state = 2; degraded = false };
    trace = advanced serving ∷ advanced registered ∷ endpoint_spawned ∷ [];
  },
)
unfolding client_main new_client add_families add_family start
goes_on = refl

client_main-Lived_example :
    Lived (client_main kind_to_client names_only observed 1 last_minutes 0).1.trace
    × Ran
        (given observed.metrics_bind)
        (Dialling.startup kind_to_client names_only observed (begin_half 0))
        (client_main kind_to_client names_only observed 1 last_minutes 0)
client_main-Lived_example = client_main-Lived kind_to_client names_only observed 1 last_minutes 0

-- Its listener fails where the endpoint is given no address: nothing of it was ever seen.
abbrev unobserved : Dialling.Arguments
unobserved = Dialling.defaults "address"

never_seen : client_main port_taken names_only unobserved 0 [] 0 ≡ (
  failed (context "binding 127.0.0.1:9068" "in use"),
  record {
    world = 2;
    health = record { state = 1; degraded = false };
    trace = exited ∷ advanced registered ∷ [];
  },
)
unfolding client_main new_client add_families add_family start
never_seen = refl

observed-IsTyped : IsTyped observed
observed-IsTyped = record {
  some_attempt = omega arith;
  some_stream = omega arith;
  attempts_fit = omega arith;
}

process-InRange : InRange process
unfolding lwd_mixnet_proxy.Streaks.new start
process-InRange = record {
  token = omega arith;
  streaks = record { refusals = omega arith; dead_ends = omega arith; state = omega arith };
}

carry-InRange_example :
    (q : Process Opener) × (e : DialEnd Opener Peer ℕ ℕ) × (carry peer_net
        (carrying_for observed)
        traffic
        40
        process
      ≡ some q)
    × (dial peer_net (carrying_for observed).dial_settings process.client 1 ≡ some e)
    × (q.next_token ≡ (1 + streams_in (rounds_of e.result)) % u64_mod)
    × InRange q
carry-InRange_example =
    carry-InRange peer_net observed traffic 40 process observed-IsTyped process-InRange

-- A gateway that takes longer than the wait for it, and one that is there at once.
abbrev waiting_for_gateway : Listening.Surroundings ℕ String
waiting_for_gateway = record {
  bind = λ address n. (ok tt, n + 1);
  storage_paths = λ directory n. (ok tt, n + 1);
  open_storage = λ directory n. (ok tt, n + 1);
  build = λ builder n. (ok tt, n + 1);
  connect_to_mixnet = λ n. (ok tt, n + 1);
  within = λ wait call n. (none, n + 1);
  listener = λ n. (ok tt, n + 1);
  shown = λ wait. "300s";
}

abbrev in_time : {A : Type 0} → ℕ → (ℕ → A × ℕ) → ℕ → Option A × ℕ
in_time wait call n = let (a, m) = call n in (some a, m)

abbrev gateway_there : Listening.Surroundings ℕ String
gateway_there = record waiting_for_gateway { within = in_time }

abbrev deployed : Listening.Arguments
deployed = record Listening.defaults { metrics_bind = some "0.0.0.0:9100"; max_streams = 2 }

no_gateway :
    (server_main waiting_for_gateway names_only counting deployed 0 crowded 0).0
    ≡ failed (bail "connecting to the mixnet: no gateway within 300s")
unfolding server_main new_server add_families add_family start
no_gateway = refl

server_main-Lived_example :
    Lived (server_main gateway_there names_only counting deployed 1 crowded 0).1.trace
    × Ran
        (given deployed.metrics_bind)
        (Listening.startup gateway_there names_only deployed (begin_half 0))
        (server_main gateway_there names_only counting deployed 1 crowded 0)
server_main-Lived_example = server_main-Lived gateway_there names_only counting deployed 1 crowded 0
