-- ===== src/Client/Tasks/Reached.antt =====
-- src/bin/client.rs, `carry`, for connections beside each other: what the process's calls
-- and its knowledge come to after any steps of its tasks.
use lwd_mixnet_proxy.Common.{
  ℕ, ◌+◌, ◌≤◌, ◌≡◌, refl, ap, ◌∙◌, sym, Bool, true, false, List, [], ◌∷◌, ◌++◌, Option, none, some,
  Result, ok, err, All, length, arith,
}
use lwd_mixnet_proxy.Common.Weights.{weigh, weigh-put, sums-put, All-picked, All-put}
use lwd_mixnet_proxy.Dial.{GaveUp}
use lwd_mixnet_proxy.Dial.Run.{Dialled}
use mathlib.Core.List.{append-nil}
use lwd_mixnet_proxy.Dial.Accounting.{IsValid}
use lwd_mixnet_proxy.Health.{Health, start as starting, registered, serving, advance_to}
use lwd_mixnet_proxy.Metrics.{Call}
use lwd_mixnet_proxy.Metrics.Client.{ClientMetric, Calls}
use lwd_mixnet_proxy.Streaks.{Streaks, Outcome, new, fold}
use lwd_mixnet_proxy.Streaks.History.{after as after_all}
use lwd_mixnet_proxy.Client.{Carrying}
use lwd_mixnet_proxy.Client.Tasks.{
  dialling, folding, Connection, spawned, call_one, settle, leave, go_on, finish, Running, Move,
  calls, dials, folds, splices, aborts_dialling, aborts_splicing, Step, accepts, picks, Reach,
  start, later, folded_into, noted,
}
use lwd_mixnet_proxy.Client.Tasks.Counted.{IsCounted, spawned-IsCounted}
use lwd_mixnet_proxy.Client.Tasks.Settled.{Move-IsCounted}

-- The health of a half by then.
unfoldable pub half_up : Health
half_up = advance_to (advance_to starting registered) serving

-- The client half as its loop begins.
abbrev pub at_first : Running
at_first = record { tasks = []; calls = []; streaks = new half_up; folded = [] }

-- How many outcomes the task has folded.
abbrev pub told : Connection → ℕ
told t = elim t.stage [ dialling ↦ 0 | folding _ _ ↦ 0 | _ ↦ 1 ]

-- The process's calls are its tasks' calls, and it knows what was folded.
pub record IsConsistent (s : Running) : Type 0 where
  pub counted_all : All IsCounted s.tasks
  pub sums : (w : Call ClientMetric → ℕ) → weigh w s.calls ≡ weigh (λ t. weigh w t.made) s.tasks
  pub known : s.streaks ≡ after_all (new half_up) s.folded
  pub few : length s.folded ≤ weigh told s.tasks

module _ {W E N : Type 0} where
  settle-made :
      (carrying : Carrying) (now : ℕ) (t : Connection) (r : Result (GaveUp E N) (Dialled W E N))
      → ((settle carrying now t r).made ≡ t.made) × (told (settle carrying now t r) ≡ 0)
  unfolding settle
  settle-made carrying now t (ok d) = (refl, refl)
  settle-made carrying now t (err g) = (refl, refl)

go_on-made :
    (t : Connection) (onward : Bool)
    → ((go_on t onward).made ≡ t.made) × (told (go_on t onward) ≡ 1)
unfolding go_on leave
go_on-made t true = (refl, refl)
go_on-made t false = (refl, refl)

into-known :
    (s : Streaks) (o : Option Outcome) (folded : List Outcome)
    → s ≡ after_all (new half_up) folded
    → folded_into s o ≡ after_all (new half_up) (noted o folded)
unfolding after_all
into-known s none folded e = e
into-known s (some o) folded e = ap (λ z. fold z o) e

noted-length :
    (o : Option Outcome) (os : List Outcome) → length (noted o os) ≡ length (noted o []) + length os
noted-length none os = omega arith
noted-length (some o) os = omega arith

module _ (C W E N : Type 0) (carrying : Carrying) where
  -- A task's calls are the process's, and it folds at most one outcome.
  Move-made :
      {t t' : Connection} {made : Calls} {o : Option Outcome}
      → Move C W E N carrying t t' made o
      → (t'.made ≡ t.made ++ made) × (length (noted o []) + told t ≤ told t')
  unfolding call_one leave finish
  Move-made (calls e) = (refl, omega arith)
  Move-made {t} (dials net client token end idle at found) =
      let (made, told_none) = settle-made carrying (net.clock end.client) t end.result in
      (made ∙ sym (append-nil t.made), omega (arith, told_none, untold))
    where
      untold : told t ≡ 0
      untold = rw at refl
  Move-made {t} (folds {onward} idle at) =
      let (made, told_one) = go_on-made t onward in
      (made ∙ sym (append-nil t.made), omega (arith, told_one, untold))
    where
      untold : told t ≡ 0
      untold = rw at refl
  Move-made {t} (splices traffic transfer ended idle at found) =
      (sym (append-nil t.made), rw at (omega arith))
  Move-made {t} (aborts_dialling idle at) = (sym (append-nil t.made), rw at (omega arith))
  Move-made {t} (aborts_splicing idle at) = (sym (append-nil t.made), rw at (omega arith))

  Step-IsConsistent :
      {s s' : Running}
      → IsValid carrying.dial_settings
      → Step C W E N carrying s s'
      → IsConsistent s
      → IsConsistent s'
  Step-IsConsistent valid (accepts now) h = record {
    counted_all = (spawned-IsCounted now, h.counted_all);
    sums = λ w. unfold spawned in omega (arith, h.sums w);
    known = h.known;
    few = unfold spawned in omega (arith, h.few);
  }
  Step-IsConsistent {s} valid (picks before after {t} {t'} {made} {o} at move) h =
      let all : All IsCounted (before ++ (t ∷ after)) = rw at at h.counted_all in
      let picked = All-picked IsCounted before after t all in
      let (made_by, told_by) = Move-made move in
      record {
        counted_all =
            All-put IsCounted before after t' t all
              (Move-IsCounted C W E N carrying valid move picked);
        sums = λ w.
            sums-put w Connection.made s.calls made s.tasks before after t t' at made_by (h.sums w);
        known = into-known s.streaks o s.folded h.known;
        few = omega (
          arith,
          h.few,
          told_by,
          noted-length o s.folded,
          ap (weigh told) at,
          weigh-put told before after t' t,
        );
      }

  pub Reach-IsConsistent :
      {s : Running}
      → IsValid carrying.dial_settings
      → Reach C W E N carrying at_first s
      → IsConsistent s
  Reach-IsConsistent valid start = record {
    counted_all = tt;
    sums = λ w. refl;
    known = unfold after_all in refl;
    few = omega arith;
  }
  Reach-IsConsistent valid (later r step) =
      Step-IsConsistent valid step (Reach-IsConsistent valid r)
