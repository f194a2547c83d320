-- ===== src/Server/Startup.antt =====
-- src/bin/server.rs, `Arguments`, `connect` and `main` up to its loop.
pub mod Life
use Prim.Native.String.{String, ◌++◌ as append}
use lwd_mixnet_proxy.Common.{
  ℕ, ◌*◌, Bool, true, false, List, [], ◌∷◌, Option, none, some, Result, ok, err, Task, ◌>>=◌, ◌>>◌,
  map_err,
}
use lwd_mixnet_proxy.Health.{registered, serving}
use lwd_mixnet_proxy.Splice.{from_secs}
use lwd_mixnet_proxy.Metrics.Registration.{Prometheus, new_server}
use lwd_mixnet_proxy.Server.{Settings}
use lwd_mixnet_proxy.Half.{
  Half, Failure, context, bail, address_printed, attempt, settled, just, bind_endpoint,
  spawn_endpoint, add_moment, advance_half,
}

-- `max_streams` is `NonZeroUsize`.
pub record Arguments : Type 0 where
  pub upstream : String
  pub state_dir : Option String
  pub handshake_timeout_secs : ℕ
  pub first_request_timeout_secs : ℕ
  pub idle_timeout_secs : ℕ
  pub max_streams : ℕ
  pub metrics_bind : Option String
  pub shutdown_grace_secs : ℕ
  pub gateway_wait_secs : ℕ

abbrev pub defaults : Arguments
defaults = record {
  upstream = "127.0.0.1:9067";
  state_dir = none;
  handshake_timeout_secs = 30;
  first_request_timeout_secs = 60;
  idle_timeout_secs = 600;
  max_streams = 256;
  metrics_bind = none;
  shutdown_grace_secs = 10;
  gateway_wait_secs = 300;
}

unfoldable pub settings_of : Arguments → Settings
settings_of arguments = record {
  handshake_timeout = from_secs arguments.handshake_timeout_secs;
  first_request_timeout = from_secs arguments.first_request_timeout_secs;
  idle_timeout = from_secs arguments.idle_timeout_secs;
}

-- `MixnetClientBuilder`, as far as it is set up here; `none` where it is left to the SDK.
pub record Builder : Type 0 where
  pub directory : Option String
  pub wait_for_gateway : Option Bool
  pub stream_idle_timeout : ℕ

-- What startup asks of the SDK and of tokio. `within` is `timeout`: `none` where the time is over
-- before the call is. `shown` is how a duration prints.
pub record Surroundings (W E : Type 0) : Type 1 where
  pub bind : String → W → Result E (Unit {0}) × W
  pub storage_paths : String → W → Result E (Unit {0}) × W
  pub open_storage : String → W → Result E (Unit {0}) × W
  pub build : Builder → W → Result E (Unit {0}) × W
  pub connect_to_mixnet : W → Result E (Unit {0}) × W
  pub within : {A : Type 0} → ℕ → (W → A × W) → W → Option A × W
  pub listener : W → Result E (Unit {0}) × W
  pub shown : ℕ → String

module _ {W E : Type 0} (around : Surroundings W E) where
  abbrev with_context : {A : Type 0} → String → (W → Result E A × W) → Task W (Failure E) A
  with_context text call w = map_err (context text) (call w)

  -- The client, with its identity in the directory or ephemeral.
  unfoldable pub connect : Option String → ℕ → Task W (Failure E) (Unit {0})
  connect (some directory) idle_timeout = do
    with_context "preparing the client state directory" (around.storage_paths directory)
    with_context "building a client with persistent storage" (around.open_storage directory)
    with_context "assembling the client" (
        around.build (record {
          directory = some directory;
          wait_for_gateway = some true;
          stream_idle_timeout = idle_timeout;
        }))
    with_context "connecting to the mixnet" around.connect_to_mixnet
  connect none idle_timeout = do
    with_context "assembling an ephemeral client" (
        around.build (record {
          directory = none;
          wait_for_gateway = none;
          stream_idle_timeout = idle_timeout;
        }))
    with_context "connecting an ephemeral client to the mixnet" around.connect_to_mixnet

  abbrev pub connected_within :
      ℕ
      → Half W
      → Option (Result (Failure E) (Unit {0})) × W
      → Result (Failure E) (Unit {0}) × Half W
  connected_within wait h (none, w) = (
    err (bail (append "connecting to the mixnet: no gateway within " (around.shown wait))),
    record h { world = w },
  )
  connected_within wait h (some result, w) = (result, record h { world = w })

  -- The `match` on the timeout of `connect`.
  unfoldable pub connect_within : Arguments → Task (Half W) (Failure E) (Unit {0})
  unfolding connect settings_of
  connect_within arguments h =
      let wait = from_secs arguments.gateway_wait_secs in
      connected_within wait h (
        around.within wait
          (connect arguments.state_dir (Settings.idle_timeout (settings_of arguments))) h.world)

module _ {W E R B : Type 0} (around : Surroundings W E) (p : Prometheus R B E) where
  -- `main` up to its loop.
  unfoldable pub startup : Arguments → Task (Half W) (Failure E) (Unit {0})
  unfolding bind_endpoint advance_half connect_within
  startup arguments = do
    settled "building the metrics" (new_server p)
    bind_endpoint around.bind arguments.metrics_bind
    just (spawn_endpoint arguments.metrics_bind)
    connect_within around arguments
    just (advance_half registered)
    just (add_moment address_printed)
    attempt "taking the stream listener" around.listener
    just (advance_half serving)
