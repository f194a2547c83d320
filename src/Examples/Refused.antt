-- ===== src/Examples/Refused.antt =====
-- A client half whose client refuses every open, from its first connection to its end, and theorems
-- of `Client.Tasks` at it.
use lwd_mixnet_proxy.Common.{
  ℕ, suc, sym, true, Option, none, ◌≡◌, refl, ap, ◌∙◌, [], ◌∷◌, some, err, length,
}
use lwd_mixnet_proxy.Dial.Run.{DialEnd, run_round, dial}
use lwd_mixnet_proxy.Dial.{nothing_opened as opened_nothing, attempted}
use lwd_mixnet_proxy.Dial.Budget.{dial-Spent}
use lwd_mixnet_proxy.Streaks.{Outcome, unprobed, nothing_opened, fold}
use lwd_mixnet_proxy.Client.{carry_dialled}
use lwd_mixnet_proxy.Client.Refusals.{outcome_of, carry_on-streaks}
use lwd_mixnet_proxy.Client.Tasks.{Running, Reach}
use lwd_mixnet_proxy.Client.Tasks.Reached.{at_first}
use lwd_mixnet_proxy.Client.Tasks.Alone.{process_of, carry_dialled-Reach}
use lwd_mixnet_proxy.Client.Tasks.Ending.{Program, draining, client_is_dead}
use lwd_mixnet_proxy.Examples.Peer.{Peer, Opener, peer_net}
use lwd_mixnet_proxy.Examples.Dials.{settings, settings-IsValid}
use lwd_mixnet_proxy.Examples.Ordered.{by_key}
use lwd_mixnet_proxy.Examples.Clients.{carrying, traffic}

abbrev refusing : Opener
refusing = record { time = 50; opens = err 9 ∷ err 9 ∷ err 9 ∷ [] }

abbrev refused_end : DialEnd Opener Peer ℕ ℕ
refused_end = (dial-Spent peer_net settings refusing 1 settings-IsValid).0

refused_found : dial peer_net settings refusing 1 ≡ some refused_end
refused_found = (dial-Spent peer_net settings refusing 1 settings-IsValid).1

abbrev said : Option (DialEnd Opener Peer ℕ ℕ) → Outcome
said none = unprobed
said (some end) = outcome_of carrying end.result

said_of_dial : said (dial peer_net settings refusing 1) ≡ nothing_opened
unfolding dial run_round by_key attempted opened_nothing
said_of_dial = refl

nothing : outcome_of carrying refused_end.result ≡ nothing_opened
nothing = ap said (sym refused_found) ∙ said_of_dial

-- Wherever a half is, one more connection is refused all its opens.
record Refused (s : Running) : Type 1 where
  pub to : Running
  pub reach : Reach Opener Peer ℕ ℕ carrying s to
  pub one_more : length to.tasks ≡ suc (length s.tasks)
  pub folds : to.streaks ≡ fold s.streaks nothing_opened

refuse : (s : Running) → Refused s
unfolding carry_dialled
refuse s =
    let (u, reach, calls, streaks, (t, tasks, idle)) =
      carry_dialled-Reach Opener Peer ℕ ℕ carrying peer_net traffic 40 s refusing 1 refused_end
        refused_found in
    record {
      to = u;
      reach = reach;
      one_more = ap length tasks;
      folds =
          streaks
          ∙ carry_on-streaks peer_net carrying traffic 40 (process_of s refusing 1) refused_end
              refused_end.result
          ∙ ap (fold s.streaks) nothing;
    }

one : Refused at_first
one = refuse at_first

two : Refused one.to
two = refuse one.to

three : Refused two.to
three = refuse two.to

four : Refused three.to
four = refuse three.to

five_times : Refused four.to
five_times = refuse four.to

abbrev given_up : Program
given_up = record { running = five_times.to; phase = draining client_is_dead; shutting_down = true }
