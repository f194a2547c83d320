-- ===== src/Dial/Accounting.antt =====
-- src/dial.rs, `run_round`: every stream of a round is accounted for.
use lwd_mixnet_proxy.Common.{
  ℕ, ◌+◌, ◌≤◌, ◌<◌, ◌≡◌, refl, false, List, [], ◌∷◌, Option, none, some, inl, inr, Result-cases,
  arith, length, length-Perm, last?,
}
use lwd_mixnet_proxy.Common.Words.{u32_mod}
use lwd_mixnet_proxy.Handshake.{announce}
use lwd_mixnet_proxy.Dial.{ProbeSettings, DialSettings, Round, attempted, unanswered, cancelled}
use lwd_mixnet_proxy.Dial.Run.{
  Network, RoundEnd, open_all, probe_all, announce_on, probe_round, settle, run_round, finish,
  empty_round, attempts_in, concurrency_in,
}
use lwd_mixnet_proxy.Dial.Rounds.{
  is_some, one_if, Opened, Heard, open_all-Opened, first_answer-Heard, answered-Heard,
  discarded-Heard, length-probe_all,
}

-- The settings that `dial` is called with: at least one attempt and one stream at a time, 32 bits.
pub record IsValid (settings : DialSettings) : Type 0 where
  pub tries : 0 < attempts_in settings
  pub sizes : 0 < concurrency_in settings
  pub word : attempts_in settings < u32_mod

module _ {C W E N : Type 0} (net : Network C W E N) where
  -- A round of `size`: what it attempted, and where each stream that was opened went.
  pub record Accounts (size : ℕ) (end : RoundEnd C W E N) : Type 0 where
    pub attempts : attempted end.round ≡ size
    pub flag : end.round.answered ≡ is_some end.answer
    pub verdicts :
        end.round.opened ≡ unanswered end.round + cancelled end.round + one_if end.round.answered
    pub uncancelled : end.round.answered ≡ false → cancelled end.round ≡ 0

  unchanged-Heard : (r : Round E N) → r.answered ≡ false → Heard net 0 r none r
  unchanged-Heard r no_answer = ground arith

  announce_on-Heard :
      (started : ℕ) (r : Round E N) (ws : List W) (c : C) (token : ℕ)
      → r.answered ≡ false
      → length ws ≤ 1
      → Heard net
          (length ws)
          r
          (announce_on net started r (last? ws) c token).answer
          (announce_on net started r (last? ws) c token).round
  unfolding announce_on
  announce_on-Heard started r [] c token no_answer few = unchanged-Heard r no_answer
  announce_on-Heard started r (w ∷ v ∷ ws) c token no_answer few = absurd (omega arith)
  announce_on-Heard started r (w ∷ []) c token no_answer few =
      let (sent, s) =
        announce net.io (record { stream = net.stream_at (net.clock c) w; next_token = token }) in
      elim (Result-cases sent) [
        | inl (u, e) ↦ rw (e, announce_on) (answered-Heard net 0 _ s.stream r no_answer)
        | inr (x, e) ↦
            rw (e, announce_on) (discarded-Heard net 0 _ x r none _ (unchanged-Heard _ no_answer))
      ]

  probe_round-Heard :
      (started : ℕ) (p : ProbeSettings) (r : Round E N) (ws : List W) (c : C) (token : ℕ)
      → r.answered ≡ false
      → Heard net
          (length ws)
          r
          (probe_round net started p r ws c token).answer
          (probe_round net started p r ws c token).round
  unfolding probe_round
  probe_round-Heard started p r ws c token no_answer =
      let probes = probe_all net p.timeout (net.clock c) token ws in
      let count = length-Perm (net.completion_perm (finish net) probes.0) in
      rw (← length-probe_all net p.timeout (net.clock c) ws token, ← count)
        (first_answer-Heard net started (net.clock c) r _ no_answer)

  pub settle-Heard :
      (probe : Option ProbeSettings) (started : ℕ) (r : Round E N) (ws : List W) (c : C) (token : ℕ)
      → r.answered ≡ false
      → (probe ≡ none → length ws ≤ 1)
      → Heard net
          (length ws)
          r
          (settle net probe started r ws c token).answer
          (settle net probe started r ws c token).round
  unfolding settle
  settle-Heard none started r ws c token no_answer few =
      announce_on-Heard started r ws c token no_answer (few refl)
  settle-Heard (some p) started r ws c token no_answer few =
      probe_round-Heard started p r ws c token no_answer

  Accounts-of :
      (size : ℕ) (r : Round E N) (ws : List W) (end : RoundEnd C W E N)
      → Opened net size (empty_round net) [] r ws
      → Heard net (length ws) r end.answer end.round
      → Accounts size end
  unfolding cancelled attempted unanswered
  Accounts-of size r ws end o h = ground arith

  -- A round attempts exactly `size` opens. Each stream that was opened went unanswered, was
  -- cancelled, or is the one that answered, so no count saturates; nothing is cancelled in a round
  -- without an answer, and `answered` says whether a stream is handed back. A round without a probe
  -- is one of at most one stream, as `dial` calls it.
  pub run_round-Accounts :
      (settings : DialSettings) (size : ℕ) (c : C) (token : ℕ)
      → size < u32_mod
      → (settings.probe ≡ none → size ≤ 1)
      → Accounts size (run_round net settings size c token)
  unfolding run_round
  run_round-Accounts settings size c token fits few =
      let (r, ws, c') =
        open_all net settings.reply_surbs (net.clock c) size (empty_round net) [] c in
      let opened =
        open_all-Opened net settings.reply_surbs (net.clock c) size (empty_round net) [] c
          (omega arith) in
      Accounts-of size r ws _ opened (
        settle-Heard settings.probe (net.clock c) r ws c' token opened.flag
          (λ e. omega (arith, few e, opened.kept, opened.most)))
