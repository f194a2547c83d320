-- ===== src/Dial/Run.antt =====
-- src/dial.rs, `dial` and `run_round`. The mixnet client and the clock are a `Network`.
use lwd_mixnet_proxy.Common.{
  ℕ, zero, suc, ◌+◌, ◌-◌, ◌%◌, ◌≤◌, true, false, List, [], ◌∷◌, ◌++◌, ltb, if◌then◌else◌, Option,
  none, some, Result, ok, err, Perm, min, All, last?,
}
use lwd_mixnet_proxy.Common.Words.{u32_mod}
use lwd_mixnet_proxy.Handshake.{HandshakeError, Io, probe, announce}
use lwd_mixnet_proxy.Dial.{
  ProbeSettings, DialSettings, DialError, Round, open_error, probe_error, GaveUp,
}

-- Each entry has a key at most those of the entries behind it.
abbrev pub InOrder : {A : Type 0} → (A → ℕ) → List A → Type 0
InOrder key [] = Unit {0}
InOrder key (x ∷ xs) = All (λ y. key x ≤ key y) xs × InOrder key xs

-- What the code asks of the SDK, of tokio and of futures, over the state `C` of the mixnet client
-- and the state `W` of a stream, whose clocks agree. A stream or a client goes on living while the
-- code waits for something else: `stream_at t` and `client_at t` are what it is at time `t`.
-- `in_completion_order` is `FuturesUnordered`: it hands back each future once, in the order in which
-- they finish, whose times the first argument tells.
pub record Network (C W E N : Type 0) : Type 1 where
  pub io : Io W E
  pub clock : C → ℕ
  pub open_stream : Option ℕ → C → Result N W × C
  pub stream_at : ℕ → W → W
  pub client_at : ℕ → C → C
  pub in_completion_order : {A : Type 0} → (A → ℕ) → List A → List A
  pub completion_perm :
      {A : Type 0} (finish : A → ℕ) (xs : List A) → Perm (in_completion_order finish xs) xs
  pub completion_sorted :
      {A : Type 0} (finish : A → ℕ) (xs : List A) → InOrder finish (in_completion_order finish xs)

-- A probe that has finished, and the stream it leaves.
pub record Probed (W E : Type 0) : Type 0 where
  pub outcome : Result (HandshakeError E) ℕ
  pub stream : W

-- What a round hands back, and the world it leaves.
pub record RoundEnd (C W E N : Type 0) : Type 0 where
  pub answer : Option (W × ℕ)
  pub round : Round E N
  pub client : C
  pub next_token : ℕ

pub record Dialled (W E N : Type 0) : Type 0 where
  pub stream : W
  pub answering_round : ℕ
  pub rounds : List (Round E N)

pub record DialEnd (C W E N : Type 0) : Type 0 where
  pub result : Result (GaveUp E N) (Dialled W E N)
  pub client : C
  pub next_token : ℕ

-- `probe.attempts` and `probe.concurrency`, or one and one without a probe.
abbrev pub attempts_in : DialSettings → ℕ
attempts_in settings = elim settings.probe [ some p ↦ p.attempts | none ↦ 1 ]

abbrev pub concurrency_in : DialSettings → ℕ
concurrency_in settings = elim settings.probe [ some p ↦ p.concurrency | none ↦ 1 ]

module _ {C W E N : Type 0} (net : Network C W E N) where
  open net use {io, clock, open_stream, stream_at, client_at, in_completion_order}

  abbrev pub discard : Round E N → ℕ → DialError E N → Round E N
  discard round elapsed error = record round {
    discarded = round.discarded ++ (record { elapsed = elapsed; error = error } ∷ []);
  }

  -- One pass of the loop that opens: the stream is kept, or the refusal is.
  abbrev pub opened_one : ℕ → Round E N → List W → Result N W × C → Round E N × List W × C
  opened_one started round streams (ok stream, c) =
      (record round { opened = (round.opened + 1) % u32_mod }, streams ++ (stream ∷ []), c)
  opened_one started round streams (err e, c) =
      (discard round (clock c - started) (open_error e), streams, c)

  -- `for _ in 0..size { … }`.
  unfoldable pub open_all : Option ℕ → ℕ → ℕ → Round E N → List W → C → Round E N × List W × C
  open_all surbs started zero round streams c = (round, streams, c)
  open_all surbs started (suc n) round streams c =
      let (round', streams', c') = opened_one started round streams (open_stream surbs c) in
      open_all surbs started n round' streams' c'

  -- The probes of the streams opened together, all of them started at `from`.
  unfoldable pub probe_all : ℕ → ℕ → ℕ → List W → List (Probed W E) × ℕ
  probe_all timeout from token [] = ([], token)
  probe_all timeout from token (w ∷ ws) =
      let (outcome, s) =
        probe io timeout (record { stream = stream_at from w; next_token = token }) in
      let (rest, token') = probe_all timeout from s.next_token ws in
      (record { outcome = outcome; stream = s.stream } ∷ rest, token')

  abbrev pub finish : Probed W E → ℕ
  finish p = io.now p.stream

  abbrev pub empty_round : Round E N
  empty_round = record { opened = 0; discarded = []; answered = false }

  -- `while let Some(result) = probing.next().await`. The time is that of the last probe handled.
  unfoldable pub first_answer :
      ℕ → ℕ → Round E N → List (Probed W E) → Option (W × ℕ) × Round E N × ℕ
  first_answer started time round [] = (none, round, time)
  first_answer started time round (p ∷ ps) = elim p.outcome [
    | ok _ ↦ (some (p.stream, finish p - started), record round { answered = true }, finish p)
    | err e ↦
        first_answer started (finish p) (discard round (finish p - started) (probe_error e)) ps
  ]

  -- The round without a probe, on the stream that was popped.
  unfoldable pub announce_on : ℕ → Round E N → Option W → C → ℕ → RoundEnd C W E N
  announce_on started round none c token = record {
    answer = none;
    round = round;
    client = c;
    next_token = token;
  }
  announce_on started round (some w) c token =
      let (sent, s) = announce io (record { stream = stream_at (clock c) w; next_token = token }) in
      let time = io.now s.stream in
      elim sent [
        | ok _ ↦ record {
          answer = some (s.stream, time - started);
          round = record round { answered = true };
          client = client_at time c;
          next_token = s.next_token;
        }
        | err e ↦ record {
          answer = none;
          round = discard round (time - started) (probe_error e);
          client = client_at time c;
          next_token = s.next_token;
        }
      ]

  unfoldable pub probe_round : ℕ → ProbeSettings → Round E N → List W → C → ℕ → RoundEnd C W E N
  unfolding probe_all first_answer
  probe_round started p round streams c token =
      let (probes, token') = probe_all p.timeout (clock c) token streams in
      let (answer, round', time) =
        first_answer started (clock c) round (in_completion_order finish probes) in
      record { answer = answer; round = round'; client = client_at time c; next_token = token' }

  unfoldable pub settle : Option ProbeSettings → ℕ → Round E N → List W → C → ℕ → RoundEnd C W E N
  unfolding announce_on probe_round
  settle none started round streams c token = announce_on started round (last? streams) c token
  settle (some p) started round streams c token = probe_round started p round streams c token

  unfoldable pub run_round : DialSettings → ℕ → C → ℕ → RoundEnd C W E N
  unfolding open_all settle
  run_round settings size c token =
      let started = clock c in
      let (round, streams, c') = open_all settings.reply_surbs started size empty_round [] c in
      settle settings.probe started round streams c' token

  -- What the loop of `dial` does with a round: return its stream, or go on.
  abbrev pub dial_next :
      List (Round E N)
      → RoundEnd C W E N
      → Option (W × ℕ)
      → Option (DialEnd C W E N)
      → Option (DialEnd C W E N)
  dial_next rounds end none more = more
  dial_next rounds end (some (stream, elapsed)) more = some (record {
    result = ok (record { stream = stream; answering_round = elapsed; rounds = rounds });
    client = end.client;
    next_token = end.next_token;
  })

  -- `while remaining > 0`; `none` where the fuel runs out.
  unfoldable pub dial_loop :
      ℕ → DialSettings → ℕ → ℕ → List (Round E N) → C → ℕ → Option (DialEnd C W E N)
  dial_loop zero settings concurrency remaining rounds c token =
      if ltb 0 remaining
      then none
      else some
          (record { result = err (record { rounds = rounds }); client = c; next_token = token })
  dial_loop (suc fuel) settings concurrency remaining rounds c token =
      let size = min concurrency remaining in
      let end = run_round settings size c token in
      let rounds' = rounds ++ (end.round ∷ []) in
      let more =
        dial_loop fuel settings concurrency (remaining - size) rounds' end.client end.next_token in
      if ltb 0 remaining
      then dial_next rounds' end end.answer more
      else some
          (record { result = err (record { rounds = rounds }); client = c; next_token = token })

  unfoldable pub dial : DialSettings → C → ℕ → Option (DialEnd C W E N)
  unfolding dial_loop
  dial settings c token =
      dial_loop (attempts_in settings) settings (concurrency_in settings) (attempts_in settings) []
        c token
