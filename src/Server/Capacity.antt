-- ===== src/Server/Capacity.antt =====
-- src/bin/server.rs, `main` from its loop on: streams taken in up to a cap. The semaphore is tokio's.
use lwd_mixnet_proxy.Common.{
  ℕ, suc, ◌+◌, ◌-◌, ◌≤◌, ◌≡◌, refl, ◌⊎◌, inl, inr, Bool, true, false, List, [], ◌∷◌, ◌++◌, ◌==◌,
  if◌then◌else◌, Option, none, some, arith, Option-cases,
}
use lwd_mixnet_proxy.Metrics.Server.{Calls, stream_dropped_over_capacity}

-- `tokio::sync::Semaphore`: permits that are taken without waiting, and given back by a drop.
pub record Semaphore (S : Type 0) : Type 0 where
  pub available : S → ℕ
  pub new : ℕ → S
  pub try_acquire : S → Option S
  pub release : S → S
  pub available-new : (n : ℕ) → available (new n) ≡ n
  pub acquire_one : (s t : S) → try_acquire s ≡ some t → available s ≡ available t + 1
  pub acquire_none : (s : S) → try_acquire s ≡ none → available s ≡ 0
  pub release_one : (s : S) → available (release s) ≡ available s + 1

-- What `select!` finds ready, and the end of a stream's task, which drops its permit.
pub data Event : Type 0 where
  stream_arrived stream_ended stream_reaped listener_closed asked_to_stop : Event

-- `serving` tasks run, each with its permit, and `over` have ended and wait to be reaped.
pub record Listening (S : Type 0) : Type 0 where
  pub capacity : S
  pub serving : ℕ
  pub over : ℕ
  pub calls : Calls
  pub shutting_down : Bool

module _ {S : Type 0} (sem : Semaphore S) where
  unfoldable pub begin_listening : ℕ → Listening S
  begin_listening max_streams = record {
    capacity = sem.new max_streams;
    serving = 0;
    over = 0;
    calls = [];
    shutting_down = false;
  }

  abbrev pub take_in : Listening S → Option S → Listening S
  take_in l none = record l { calls = l.calls ++ stream_dropped_over_capacity }
  take_in l (some rest) = record l { capacity = rest; serving = l.serving + 1 }

  -- One turn; the flag is whether the loop goes on.
  unfoldable pub listen_one : Listening S → Event → Listening S × Bool
  unfolding stream_dropped_over_capacity
  listen_one l stream_arrived = (take_in l (sem.try_acquire l.capacity), true)
  listen_one l stream_ended = if l.serving == 0 then (l, true) else (
    record l { capacity = sem.release l.capacity; serving = l.serving - 1; over = l.over + 1 },
    true,
  )
  listen_one l stream_reaped = (record l { over = l.over - 1 }, true)
  listen_one l listener_closed = (record l { shutting_down = true }, false)
  listen_one l asked_to_stop = (record l { shutting_down = true }, false)

  abbrev go_on : Listening S × Bool → Listening S → Listening S
  go_on (l, true) rest = rest
  go_on (l, false) rest = l

  unfoldable pub listen : Listening S → List Event → Listening S
  unfolding listen_one
  listen l [] = l
  listen l (e ∷ later) = let rest = listen (listen_one l e).0 later in go_on (listen_one l e) rest

  -- Every permit is available or with a stream that is being served.
  abbrev pub IsCapped : ℕ → Listening S → Type 0
  IsCapped max_streams l = sem.available l.capacity + l.serving ≡ max_streams

  take_in-IsCapped :
      (n : ℕ) (l : Listening S) (o : Option S)
      → sem.try_acquire l.capacity ≡ o
      → IsCapped n l
      → IsCapped n (take_in l o)
  take_in-IsCapped n l none e h = h
  take_in-IsCapped n l (some rest) e h = omega (arith, sem.acquire_one l.capacity rest e)

  listen_one-IsCapped :
      (n : ℕ) (l : Listening S) (e : Event) → IsCapped n l → IsCapped n (listen_one l e).0
  unfolding listen_one
  listen_one-IsCapped n l stream_arrived h = take_in-IsCapped n l _ refl h
  listen_one-IsCapped n l stream_ended h = ground (arith, sem.release_one l.capacity)
  listen_one-IsCapped n l stream_reaped h = h
  listen_one-IsCapped n l listener_closed h = h
  listen_one-IsCapped n l asked_to_stop h = h

  go_on-IsCapped :
      (n : ℕ) (t : Listening S × Bool) (rest : Listening S)
      → IsCapped n t.0
      → IsCapped n rest
      → IsCapped n (go_on t rest)
  go_on-IsCapped n (l, true) rest a b = b
  go_on-IsCapped n (l, false) rest a b = a

  listen-IsCapped :
      (n : ℕ) (events : List Event) (l : Listening S) → IsCapped n l → IsCapped n (listen l events)
  unfolding listen
  listen-IsCapped n [] l h = h
  listen-IsCapped n (e ∷ later) l h =
      let one = listen_one-IsCapped n l e h in
      go_on-IsCapped n (listen_one l e) _ one (listen-IsCapped n later (listen_one l e).0 one)

  -- The cap holds. Whatever arrives and ends, never more than `max_streams` streams are served at
  -- once, and each stream that is not served leaves a permit free.
  pub listen-capped :
      (max_streams : ℕ) (events : List Event)
      → let l = listen (begin_listening max_streams) events in
        (l.serving ≤ max_streams) × (sem.available l.capacity ≡ max_streams - l.serving)
  unfolding begin_listening
  listen-capped n events =
      let held =
        listen-IsCapped n events (begin_listening n) (omega (arith, sem.available-new n)) in
      omega (arith, held)

  -- While every permit is free or with a stream that is served, a stream that arrives is dropped,
  -- and counted as over capacity, exactly if `max_streams` streams are being served; else it is
  -- served and nothing is counted.
  pub listen_one-dropped :
      (max_streams : ℕ) (l : Listening S)
      → IsCapped max_streams l
      → ((l.serving ≡ max_streams)
          × ((listen_one l stream_arrived).0
              ≡ record l { calls = l.calls ++ stream_dropped_over_capacity }))
        ⊎ ((suc l.serving ≤ max_streams)
            × ((listen_one l stream_arrived).0.serving ≡ l.serving + 1)
            × ((listen_one l stream_arrived).0.calls ≡ l.calls))
  unfolding listen_one
  listen_one-dropped n l held = elim (Option-cases (sem.try_acquire l.capacity)) [
    | inl e ↦ inl (omega (arith, sem.acquire_none l.capacity e), rw (e, take_in) refl)
    | inr (rest, e) ↦ inr (
      omega (arith, sem.acquire_one l.capacity rest e),
      rw (e, take_in) refl,
      rw (e, take_in) refl,
    )
  ]
