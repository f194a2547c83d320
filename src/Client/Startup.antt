-- ===== src/Client/Startup.antt =====
-- src/bin/client.rs, `Arguments` and `main` up to its loop.
pub mod Life
pub mod Ranges
use Prim.Native.String.{String, ◌++◌ as append}
use lwd_mixnet_proxy.Common.{
  ℕ, ◌*◌, Bool, true, false, List, [], ◌∷◌, Option, none, some, Result, ok, err, Task, ◌>>=◌, ◌>>◌,
  if◌then◌else◌,
}
use lwd_mixnet_proxy.Health.{registered, serving}
use lwd_mixnet_proxy.Dial.{ProbeSettings, DialSettings}
use lwd_mixnet_proxy.Splice.{from_secs}
use lwd_mixnet_proxy.Metrics.Registration.{Prometheus, new_client}
use lwd_mixnet_proxy.Client.{Carrying}
use lwd_mixnet_proxy.Half.{
  Half, Failure, attempt, settled, just, bind_endpoint, spawn_endpoint, advance_half,
}

-- `probe_attempts` and `probe_concurrency` are `NonZeroU32`.
pub record Arguments : Type 0 where
  pub server : String
  pub bind : String
  pub probe_timeout_secs : ℕ
  pub probe_attempts : ℕ
  pub probe_concurrency : ℕ
  pub no_probe : Bool
  pub reply_surbs : Option ℕ
  pub stall_timeout_secs : ℕ
  pub metrics_bind : Option String
  pub shutdown_grace_secs : ℕ

-- The arguments where only the server's address is given.
abbrev pub defaults : String → Arguments
defaults server = record {
  server = server;
  bind = "127.0.0.1:9068";
  probe_timeout_secs = 10;
  probe_attempts = 6;
  probe_concurrency = 3;
  no_probe = false;
  reply_surbs = none;
  stall_timeout_secs = 60;
  metrics_bind = none;
  shutdown_grace_secs = 10;
}

-- What every connection is carried with.
unfoldable pub carrying_for : Arguments → Carrying
carrying_for arguments = record {
  dial_settings = record {
    reply_surbs = arguments.reply_surbs;
    probe =
        if arguments.no_probe
        then none
        else some (record {
          timeout = from_secs arguments.probe_timeout_secs;
          attempts = arguments.probe_attempts;
          concurrency = arguments.probe_concurrency;
        });
  };
  watchdog = record { stall = some (from_secs arguments.stall_timeout_secs); idle = none };
}

-- What startup asks of the SDK and of tokio: reading an address, connecting, and binding a listener.
pub record Surroundings (W E : Type 0) : Type 0 where
  pub parse_recipient : String → Result E (Unit {0})
  pub connect_new : W → Result E (Unit {0}) × W
  pub bind : String → W → Result E (Unit {0}) × W

module _ {W E R B : Type 0} (around : Surroundings W E) (p : Prometheus R B E) where
  -- `main` up to its loop.
  unfoldable pub startup : Arguments → Task (Half W) (Failure E) (Unit {0})
  unfolding bind_endpoint advance_half
  startup arguments = do
    settled "parsing the server's Nym address" (around.parse_recipient arguments.server)
    settled "building the metrics" (new_client p)
    bind_endpoint around.bind arguments.metrics_bind
    just (spawn_endpoint arguments.metrics_bind)
    attempt "connecting to the mixnet" around.connect_new
    just (advance_half registered)
    attempt (append "binding " arguments.bind) (around.bind arguments.bind)
    just (advance_half serving)
