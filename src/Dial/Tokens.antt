-- ===== src/Dial/Tokens.antt =====
-- src/dial.rs with src/handshake.rs: the tokens that a dial draws.
use lwd_mixnet_proxy.Common.{
  ℕ, zero, suc, ◌+◌, ◌-◌, ◌%◌, ◌≤◌, ◌<◌, ◌≡◌, refl, List, [], ◌∷◌, ◌++◌, Option, none, some, Result,
  ok, err, length, min, ltb, arith, Bool-cases, Option-cases, inl, inr, last?, ltb→lt,
}
use lwd_mixnet_proxy.Common.Words.{u64_mod, u32_mod}
use lwd_mixnet_proxy.Handshake.{
  Io, Wire, next, probe, announce, write_header, read_header, compare_token,
}
use lwd_mixnet_proxy.Dial.{ProbeSettings, DialSettings, Round, GaveUp}
use lwd_mixnet_proxy.Dial.Run.{
  Network, RoundEnd, Dialled, DialEnd, open_all, probe_all, announce_on, probe_round, settle,
  run_round, dial_loop, dial, empty_round, attempts_in, concurrency_in,
}
use lwd_mixnet_proxy.Dial.Rounds.{open_all-Opened}
use lwd_mixnet_proxy.Dial.Accounting.{IsValid, settle-Heard}
use lwd_mixnet_proxy.Dial.Budget.{few_at_once}

module _ {W E : Type 0} (io : Io W E) where
  probe-next_token :
      (timeout : ℕ) (s : Wire W) → (probe io timeout s).1.next_token ≡ (s.next_token + 1) % u64_mod
  unfolding probe next write_header read_header compare_token
  probe-next_token timeout s = ground arith

  announce-next_token : (s : Wire W) → (announce io s).1.next_token ≡ (s.next_token + 1) % u64_mod
  unfolding announce next write_header
  announce-next_token s = ground arith

module _ {E N : Type 0} where
  -- The streams that were opened in these rounds.
  abbrev pub streams_in : List (Round E N) → ℕ
  streams_in [] = 0
  streams_in (r ∷ rs) = r.opened + streams_in rs

  streams_in-append :
      (rs ss : List (Round E N)) → streams_in (rs ++ ss) ≡ streams_in rs + streams_in ss
  streams_in-append [] ss = omega arith
  streams_in-append (r ∷ rs) ss = omega (arith, streams_in-append rs ss)

abbrev pub rounds_of : {W E N : Type 0} → Result (GaveUp E N) (Dialled W E N) → List (Round E N)
rounds_of (ok dialled) = dialled.rounds
rounds_of (err gave_up) = gave_up.rounds

module _ {C W E N : Type 0} (net : Network C W E N) where
  probe_all-next_token :
      (timeout from : ℕ) (ws : List W) (token : ℕ)
      → token < u64_mod
      → (probe_all net timeout from token ws).1 ≡ (token + length ws) % u64_mod
  unfolding probe_all
  probe_all-next_token timeout from [] token fits = omega arith
  probe_all-next_token timeout from (w ∷ ws) token fits =
      let s =
        (probe net.io timeout (record { stream = net.stream_at from w; next_token = token })).1 in
      let drawn =
        probe-next_token net.io timeout
          (record { stream = net.stream_at from w; next_token = token }) in
      omega (arith, drawn, probe_all-next_token timeout from ws s.next_token (omega (arith, drawn)))

  announce_on-next_token :
      (started : ℕ) (r : Round E N) (ws : List W) (c : C) (token : ℕ)
      → length ws ≤ 1
      → token < u64_mod
      → (announce_on net started r (last? ws) c token).next_token ≡ (token + length ws) % u64_mod
  unfolding announce_on
  announce_on-next_token started r [] c token few fits = omega arith
  announce_on-next_token started r (w ∷ v ∷ ws) c token few fits = absurd (omega arith)
  announce_on-next_token started r (w ∷ []) c token few fits = ground (
    arith,
    announce-next_token net.io
        (record { stream = net.stream_at (net.clock c) w; next_token = token }),
  )

  settle-next_token :
      (p : Option ProbeSettings) (started : ℕ) (r : Round E N) (ws : List W) (c : C) (token : ℕ)
      → (p ≡ none → length ws ≤ 1)
      → token < u64_mod
      → (settle net p started r ws c token).next_token ≡ (token + length ws) % u64_mod
  unfolding settle probe_round
  settle-next_token none started r ws c token few fits =
      announce_on-next_token started r ws c token (few refl) fits
  settle-next_token (some p) started r ws c token few fits =
      probe_all-next_token p.timeout (net.clock c) ws token fits

  run_round-next_token :
      (settings : DialSettings) (size : ℕ) (c : C) (token : ℕ)
      → size < u32_mod
      → (settings.probe ≡ none → size ≤ 1)
      → token < u64_mod
      → (run_round net settings size c token).next_token
        ≡ (token + (run_round net settings size c token).round.opened) % u64_mod
  unfolding run_round
  run_round-next_token settings size c token fits few word =
      let (r, ws, c') =
        open_all net settings.reply_surbs (net.clock c) size (empty_round net) [] c in
      let opened =
        open_all-Opened net settings.reply_surbs (net.clock c) size (empty_round net) [] c
          (omega arith) in
      let at_most : settings.probe ≡ none → length ws ≤ 1 =
        λ e. omega (arith, few e, opened.kept, opened.most) in
      let heard = settle-Heard net settings.probe (net.clock c) r ws c' token opened.flag at_most in
      omega (
        arith,
        settle-next_token settings.probe (net.clock c) r ws c' token at_most word,
        opened.kept,
        heard.opened,
      )

  -- From a token on, `k` of them drawn, for the streams of the rounds after these.
  record Drawn (token before : ℕ) (e : DialEnd C W E N) : Type 0 where
    pub k : ℕ
    pub moved : e.next_token ≡ (token + k) % u64_mod
    pub streams : streams_in (rounds_of e.result) ≡ before + k

  Drawn-more :
      (token before : ℕ) (rs : List (Round E N)) (end : RoundEnd C W E N) (e : DialEnd C W E N)
      → end.next_token ≡ (token + end.round.opened) % u64_mod
      → before ≡ streams_in rs + end.round.opened
      → Drawn end.next_token before e
      → Drawn token (streams_in rs) e
  Drawn-more token before rs end e first sum d = record {
    k = end.round.opened + d.k;
    moved = omega (arith, first, d.moved);
    streams = omega (arith, sum, d.streams);
  }

  streams_in-snoc :
      (rs : List (Round E N)) (r : Round E N)
      → streams_in (rs ++ (r ∷ [])) ≡ streams_in rs + r.opened
  streams_in-snoc rs r = omega (arith, streams_in-append rs (r ∷ []))

  dial_loop-Drawn :
      (fuel : ℕ) (settings : DialSettings) (concurrency remaining : ℕ) (before : List (Round E N))
      (c : C) (token : ℕ)
      → (settings.probe ≡ none → concurrency ≤ 1)
      → 0 < concurrency
      → remaining < u32_mod
      → remaining ≤ fuel
      → token < u64_mod
      → (e : DialEnd C W E N) × (dial_loop net fuel settings concurrency remaining before c token
          ≡ some e)
        × Drawn token (streams_in before) e
  unfolding dial_loop
  dial_loop-Drawn zero settings concurrency remaining before c token few pos fits enough word = (
    record { result = err (record { rounds = before }); client = c; next_token = token },
    ground arith,
    record { k = 0; moved = omega arith; streams = omega arith },
  )
  dial_loop-Drawn (suc fuel) settings concurrency remaining before c token few pos fits enough
        word =
      let size = min concurrency remaining in
      let end = run_round net settings size c token in
      let drawn =
        run_round-next_token settings size c token (omega arith) (λ p. omega (arith, few p)) word in
      let snoc = streams_in-snoc before end.round in
      elim (Bool-cases (ltb 0 remaining)) [
        | inr done ↦ (
          record { result = err (record { rounds = before }); client = c; next_token = token },
          rw done refl,
          record { k = 0; moved = omega arith; streams = omega arith },
        )
        | inl more ↦ elim (Option-cases end.answer) [
          | inl none_yet ↦
              let (d, ran, rest) =
                dial_loop-Drawn fuel settings concurrency (remaining - size)
                  (before ++ (end.round ∷ [])) end.client end.next_token few pos (omega arith)
                  (omega (arith, ltb→lt _ _ more)) (omega (arith, drawn)) in
              (
                d,
                rw more (rw none_yet ran),
                Drawn-more token (streams_in (before ++ (end.round ∷ []))) before end d drawn snoc
                    rest,
              )
          | inr ((w, t), answer) ↦ (
            record {
              result =
                  ok (record {
                    stream = w;
                    answering_round = t;
                    rounds = before ++ (end.round ∷ []);
                  });
              client = end.client;
              next_token = end.next_token;
            },
            rw more (rw answer refl),
            record { k = end.round.opened; moved = drawn; streams = snoc },
          )
        ]
      ]

  -- A dial with valid settings returns, and draws one token for each stream that it opened, in
  -- every round, whether it got an answer or not: the generator then stands that many on from
  -- where it stood, around the width of its machine word.
  pub dial-Drawn :
      (settings : DialSettings) (c : C) (token : ℕ)
      → IsValid settings
      → token < u64_mod
      → (e : DialEnd C W E N) × (dial net settings c token ≡ some e)
        × (e.next_token ≡ (token + streams_in (rounds_of e.result)) % u64_mod)
  unfolding dial
  dial-Drawn settings c token valid word =
      let (e, ran, d) =
        dial_loop-Drawn (attempts_in settings) settings (concurrency_in settings)
          (attempts_in settings) [] c token (few_at_once net settings) valid.sizes valid.word
          (omega arith) word in
      (e, ran, omega (arith, d.moved, d.streams))
