-- ===== src/Examples/Beside.antt =====
-- Two connections that the client half carries beside each other, and the theorems of `Client.Tasks`
-- at their state.
use lwd_mixnet_proxy.Common.{ℕ, ◌≤◌, ◌≡◌, refl, [], ◌∷◌, length}
use lwd_mixnet_proxy.Metrics.Client.{
  unestablished, first_round_failures, connections, in_flight, connection_accepted,
  in_flight_dropped,
}
use lwd_mixnet_proxy.Metrics.Totals.{drops}
use lwd_mixnet_proxy.Client.Carried.{is, counted}
use lwd_mixnet_proxy.Client.Tasks.{
  Running, Reach, start, later, accepts, picks, calls, aborts_dialling, spawned, call_one, leave,
}
use lwd_mixnet_proxy.Client.Tasks.Rates.{ended_in, IsIdle, Reach-ordered, Reach-gauge}
use lwd_mixnet_proxy.Client.Tasks.Reached.{at_first}
use lwd_mixnet_proxy.Examples.Peer.{Peer, Opener}
use lwd_mixnet_proxy.Examples.Dials.{settings-IsValid}
use lwd_mixnet_proxy.Examples.Clients.{carrying}

-- The calls of the second connection stand between those of the first, which is aborted as it dials.
interleaved :
    (s : Running) × Reach Opener Peer ℕ ℕ carrying at_first s
    × IsIdle s.tasks
    × (length s.tasks ≡ 2)
unfolding spawned connection_accepted call_one leave in_flight_dropped
interleaved =
    let first = later (later start (accepts 40)) (accepts 60) in
    let a = later first (picks (spawned 60 ∷ []) [] refl (calls refl)) in
    let b = later a (picks [] (_ ∷ []) refl (calls refl)) in
    let c = later b (picks (_ ∷ []) [] refl (calls refl)) in
    let d = later c (picks [] (_ ∷ []) refl (calls refl)) in
    let e = later d (picks (_ ∷ []) [] refl (aborts_dialling refl refl)) in
    let f = later e (picks (_ ∷ []) [] refl (calls refl)) in (_, f, (refl, (refl, tt)), refl)

abbrev state : Running
state = interleaved.0

Reach-ordered_example :
    (counted unestablished state.calls ≤ counted first_round_failures state.calls)
    × (counted first_round_failures state.calls ≤ counted connections state.calls)
    × (counted connections state.calls ≤ length state.tasks)
    × (drops (is in_flight) state.calls ≤ counted in_flight state.calls)
Reach-ordered_example = Reach-ordered Opener Peer ℕ ℕ carrying settings-IsValid interleaved.1

Reach-gauge_example :
    (counted connections state.calls ≡ length state.tasks)
    × (counted in_flight state.calls ≡ length state.tasks)
    × (drops (is in_flight) state.calls ≡ ended_in state.tasks)
Reach-gauge_example =
    Reach-gauge Opener Peer ℕ ℕ carrying settings-IsValid interleaved.1 interleaved.2
