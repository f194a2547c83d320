-- ===== src/Examples/Clients.antt =====
-- Connections that the client half carries, and the theorems of `Client` at concrete inputs.
use lwd_mixnet_proxy.Common.{ℕ, ◌≡◌, refl, List, [], ◌∷◌, none, some, ok}
use lwd_mixnet_proxy.Health.{start}
use lwd_mixnet_proxy.Dial.Run.{DialEnd, dial}
use lwd_mixnet_proxy.Dial.Budget.{dial-Spent}
use lwd_mixnet_proxy.Splice.Loop.{Ready, outbound}
use lwd_mixnet_proxy.Streaks.{new}
use lwd_mixnet_proxy.Client.{Carrying, Process, carry}
use lwd_mixnet_proxy.Client.Carried.{Rates, gave_up?, carry-Rates}
use lwd_mixnet_proxy.Client.Serving.{
  Event, connection_accepted as arrived, connection_refused, connection_done, client_is_dead,
  bailed, begin_serving, serve_all,
}
use lwd_mixnet_proxy.Examples.Peer.{Peer, Opener, peer_net}
use lwd_mixnet_proxy.Examples.Dials.{settings, opener, settings-IsValid}

abbrev pub carrying : Carrying
carrying = record { dial_settings = settings; watchdog = record { stall = none; idle = none } }

abbrev pub process : Process Opener
process = record { client = opener; next_token = 1; calls = []; streaks = new start }

-- The wallet closes its connection after two seconds.
abbrev pub traffic : Peer → List (ℕ × Ready ℕ)
traffic w = (2000, outbound (record { read = ok []; write = ok tt; flush = ok tt })) ∷ []

carry-Rates_example :
    (q : Process Opener) × (e : DialEnd Opener Peer ℕ ℕ) × (carry peer_net carrying traffic 40
        process
      ≡ some q)
    × (dial peer_net settings opener 1 ≡ some e)
    × Rates [] q.calls (gave_up? e.result)
carry-Rates_example = carry-Rates peer_net carrying traffic 40 process settings-IsValid

abbrev pub dial_end : DialEnd Opener Peer ℕ ℕ
dial_end = (dial-Spent peer_net settings opener 1 settings-IsValid).0

pub dial_end_found : dial peer_net settings opener 1 ≡ some dial_end
dial_end_found = (dial-Spent peer_net settings opener 1 settings-IsValid).1

-- Three connections, one of which ends before the client is found dead.
abbrev pub last_minutes : List Event
last_minutes =
    arrived ∷ connection_refused ∷ arrived ∷ connection_done ∷ arrived ∷ client_is_dead ∷ arrived
    ∷ []

one_abandoned : (serve_all 1 begin_serving last_minutes).1 ≡ some (bailed 1)
unfolding serve_all begin_serving
one_abandoned = refl
