-- ===== src/Examples/Dials.antt =====
-- Dials on a concrete client, and the theorems of `Dial` at concrete inputs.
use lwd_mixnet_proxy.Common.{ℕ, ◌≡◌, refl, List, [], ◌∷◌, none, some, ok, err, arith, map}
use lwd_mixnet_proxy.Common.Words.{be_bytes, from_be_bytes}
use lwd_mixnet_proxy.Handshake.{encode, next, probe, decode}
use lwd_mixnet_proxy.Dial.{DialSettings, Round, attempted, unanswered, cancelled}
use lwd_mixnet_proxy.Dial.Run.{DialEnd, run_round, dial}
use lwd_mixnet_proxy.Dial.Accounting.{IsValid, Accounts, run_round-Accounts}
use lwd_mixnet_proxy.Dial.Budget.{Spent, dial-Spent}
use lwd_mixnet_proxy.Examples.Ordered.{by_key}
use lwd_mixnet_proxy.Examples.Peer.{Peer, Opener, peer_net}

abbrev pub silent_peer : Peer
silent_peer = record { clock = 0; incoming = []; sent = [] }

-- The far side's echo of the header of the token, after a delay.
abbrev pub echo_of : ℕ → ℕ → Peer
echo_of delay token = record {
  clock = 0;
  incoming = (delay, 76 ∷ 87 ∷ 77 ∷ 80 ∷ 1 ∷ 1 ∷ 0 ∷ 0 ∷ 0 ∷ 0 ∷ 0 ∷ 0 ∷ 0 ∷ token ∷ []) ∷ [];
  sent = [];
}

-- Two at a time, of three.
abbrev pub settings : DialSettings
settings = record {
  reply_surbs = none;
  probe = some (record { timeout = 10; attempts = 3; concurrency = 2 });
}

-- The first round meets silence and a refusal, the second an answer.
abbrev pub opener : Opener
opener = record { time = 50; opens = ok silent_peer ∷ err 9 ∷ ok (echo_of 4 2) ∷ [] }

-- Both answer, the second of the first two sooner.
abbrev racing : Opener
racing = record { time = 50; opens = ok (echo_of 9 1) ∷ ok (echo_of 3 2) ∷ [] }

abbrev shape : Round ℕ ℕ → ℕ × ℕ × ℕ
shape r = (attempted r, unanswered r, cancelled r)

abbrev rounds_of : DialEnd Opener Peer ℕ ℕ → List (Round ℕ ℕ)
rounds_of e = elim e.result [ ok d ↦ d.rounds | err g ↦ g.rounds ]

first_round : shape (run_round peer_net settings 2 opener 1).round ≡ (2, 1, 0)
unfolding run_round by_key probe next encode be_bytes decode from_be_bytes attempted unanswered
    cancelled
first_round = refl

racing_round : shape (run_round peer_net settings 2 racing 1).round ≡ (2, 0, 1)
unfolding run_round by_key probe next encode be_bytes decode from_be_bytes attempted unanswered
    cancelled
racing_round = refl

dial_shapes :
    (elim (dial peer_net settings opener 1) [ none ↦ [] | some e ↦ map shape (rounds_of e) ])
    ≡ (2, 1, 0) ∷ (1, 0, 0) ∷ []
unfolding dial run_round by_key probe next encode be_bytes decode from_be_bytes attempted unanswered
    cancelled
dial_shapes = refl

run_round-Accounts_example : Accounts peer_net 2 (run_round peer_net settings 2 opener 1)
run_round-Accounts_example = run_round-Accounts peer_net settings 2 opener 1 (omega arith) (λ e. cc)

pub settings-IsValid : IsValid settings
settings-IsValid = omega arith

dial-Spent_example :
    (e : DialEnd Opener Peer ℕ ℕ) × (dial peer_net settings opener 1 ≡ some e)
    × Spent 2 3 [] e.result
dial-Spent_example = dial-Spent peer_net settings opener 1 settings-IsValid
