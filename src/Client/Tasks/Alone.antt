-- ===== src/Client/Tasks/Alone.antt =====
-- src/bin/client.rs, `carry`: one connection that is carried with no other task going on meanwhile.
use mathlib.Core.List.{append_assoc, append-nil}
use lwd_mixnet_proxy.Common.{
  ℕ, ◌-◌, ◌≡◌, refl, sym, true, false, List, [], ◌∷◌, ◌++◌, Option, none, some, Result, ok, err,
}
use lwd_mixnet_proxy.Dial.{GaveUp}
use lwd_mixnet_proxy.Dial.Run.{Network, Dialled, DialEnd, dial}
use lwd_mixnet_proxy.Splice.{Ended, Transfer}
use lwd_mixnet_proxy.Splice.Loop.{Ready, begin, run}
use lwd_mixnet_proxy.Metrics.Client.{
  Calls, connection_accepted, in_flight_dropped, established, gave_up, finished,
}
use lwd_mixnet_proxy.Streaks.{Streaks, Outcome, fold}
use lwd_mixnet_proxy.Client.{Carrying, Process, settle_dial, carry_on, carry_dialled, end_calls}
use lwd_mixnet_proxy.Client.Refusals.{outcome_of}
use lwd_mixnet_proxy.Client.Tasks.{
  Stage, dialling, splicing, done, folding, Connection, spawned, call_one, settle, leave, go_on,
  finish, Running, Move, calls, dials, folds, splices, accepts, picks, Reach, start, later,
  folded_into,
}

-- The process as `carry` finds it, with its client and the client's next token.
abbrev pub process_of : {C : Type 0} → Running → C → ℕ → Process C
process_of s client token = record {
  client = client;
  next_token = token;
  calls = s.calls;
  streaks = s.streaks;
}

module _ (C W E N : Type 0) (carrying : Carrying) where
  -- From `s`, the first task, before those of `ts`, has come to `stage` with nothing pending.
  record Gone (s : Running) (ts : List Connection) (made : Calls) (streaks : Streaks)
      (stage : Stage) (accepted : ℕ) : Type 1 where
    pub to : Running
    pub reach : Reach C W E N carrying s to
    pub task : Connection
    pub tasks_at : to.tasks ≡ task ∷ ts
    pub calls_at : to.calls ≡ made
    pub streaks_at : to.streaks ≡ streaks
    pub idle : task.pending ≡ []
    pub stage_at : task.stage ≡ stage
    pub accepted_at : task.accepted ≡ accepted

  -- A task makes its pending calls one after the other.
  drain :
      (s u : Running) (t : Connection) (ts : List Connection) (cs : Calls)
      → Reach C W E N carrying s u
      → u.tasks ≡ t ∷ ts
      → t.pending ≡ cs
      → Gone s ts (u.calls ++ cs) u.streaks t.stage t.accepted
  unfolding call_one
  drain s u t ts [] r at pending = record {
    to = u;
    reach = r;
    task = t;
    tasks_at = at;
    calls_at = sym (append-nil u.calls);
    streaks_at = refl;
    idle = pending;
    stage_at = refl;
    accepted_at = refl;
  }
  drain s u t ts (c ∷ cs) r at pending =
      rw (← append_assoc u.calls (c ∷ []) cs)
        (drain s _ (call_one t c cs) ts cs (later r (picks [] ts at (calls pending))) refl refl)

  -- A task that has come somewhere goes on, and makes the calls that it then has.
  onward :
      (s : Running) (ts : List Connection) {made : Calls} {streaks : Streaks} {stage : Stage}
      {accepted : ℕ} (g : Gone s ts made streaks stage accepted) (t' : Connection)
      (o : Option Outcome)
      → Move C W E N carrying g.task t' [] o
      → Gone s ts (made ++ t'.pending) (folded_into streaks o) t'.stage t'.accepted
  onward s ts g t' o move =
      let r = later g.reach (picks [] ts g.tasks_at move) in
      let u = drain s _ t' ts t'.pending r refl refl in
      rw (append-nil g.to.calls, g.calls_at, g.streaks_at) at u

  -- The fold of an outcome, and the return of a task whose dial gave up.
  folds_on :
      (s : Running) (ts : List Connection) {made : Calls} {streaks : Streaks} {o : Outcome}
      {accepted : ℕ}
      → Gone s ts made streaks (folding o true) accepted
      → Gone s ts made (fold streaks o) splicing accepted
  unfolding go_on
  folds_on s ts {made} g =
      let c = onward s ts g _ _ (folds g.idle g.stage_at) in
      rw (g.idle, append-nil made, g.accepted_at) at c

  folds_out :
      (s : Running) (ts : List Connection) {made : Calls} {streaks : Streaks} {o : Outcome}
      {accepted : ℕ}
      → Gone s ts made streaks (folding o false) accepted
      → Gone s ts (made ++ in_flight_dropped) (fold streaks o) done accepted
  unfolding go_on leave
  folds_out s ts g = let c = onward s ts g _ _ (folds g.idle g.stage_at) in rw g.accepted_at at c

  splices_out :
      (s : Running) (ts : List Connection) {made : Calls} {streaks : Streaks} {accepted : ℕ}
      (traffic : List (ℕ × Ready E)) (transfer : Transfer) (ended : Ended E)
      → (run carrying.watchdog begin traffic).1 ≡ some (transfer, ended)
      → Gone s ts made streaks splicing accepted
      → Gone s ts (made ++ (finished transfer ended ++ in_flight_dropped)) streaks done accepted
  unfolding finish
  splices_out s ts traffic transfer ended found g =
      let c = onward s ts g _ _ (splices traffic transfer ended g.idle g.stage_at found) in
      rw g.accepted_at at c

  dials_on :
      (s : Running) (ts : List Connection) {made : Calls} {streaks : Streaks} {accepted : ℕ}
      (net : Network C W E N) (client : C) (token : ℕ) (e : DialEnd C W E N)
      (r : Result (GaveUp E N) (Dialled W E N))
      → dial net carrying.dial_settings client token ≡ some e
      → e.result ≡ r
      → (g : Gone s ts made streaks dialling accepted)
      → let t' = settle carrying (net.clock e.client) g.task r in
        Gone s ts (made ++ t'.pending) streaks t'.stage t'.accepted
  dials_on s ts net client token e r found same g =
      let dialled : Move C W E N carrying g.task
          (settle carrying (net.clock e.client) g.task e.result) [] none =
        dials net client token e g.idle g.stage_at found in
      onward s ts g _ none (rw same at dialled)

  answered_on :
      (s : Running) (ts : List Connection) {made : Calls} {streaks : Streaks} {accepted : ℕ}
      (net : Network C W E N) (client : C) (token : ℕ) (e : DialEnd C W E N) (d : Dialled W E N)
      → dial net carrying.dial_settings client token ≡ some e
      → e.result ≡ ok d
      → Gone s ts made streaks dialling accepted
      → Gone s ts
          (made ++ established d.rounds (net.clock e.client - accepted))
          (fold streaks (outcome_of {W = W} {E = E} {N = N} carrying (ok d)))
          splicing
          accepted
  unfolding settle
  answered_on s ts net client token e d found same g =
      let b = dials_on s ts net client token e (ok d) found same g in
      folds_on s ts (rw g.accepted_at at b)

  gave_up_on :
      (s : Running) (ts : List Connection) {made : Calls} {streaks : Streaks} {accepted : ℕ}
      (net : Network C W E N) (client : C) (token : ℕ) (e : DialEnd C W E N) (gave : GaveUp E N)
      → dial net carrying.dial_settings client token ≡ some e
      → e.result ≡ err gave
      → Gone s ts made streaks dialling accepted
      → Gone s ts
          ((made ++ gave_up gave.rounds) ++ in_flight_dropped)
          (fold streaks (outcome_of {W = W} {E = E} {N = N} carrying (err gave)))
          done
          accepted
  unfolding settle
  gave_up_on s ts net client token e gave found same g =
      let b = dials_on s ts net client token e (err gave) found same g in
      folds_out s ts (rw g.accepted_at at b)

  accepts_on :
      (s : Running) (accepted : ℕ)
      → Gone s s.tasks (s.calls ++ connection_accepted) s.streaks dialling accepted
  unfolding spawned
  accepts_on s accepted =
      drain s _ (spawned accepted) s.tasks connection_accepted (later start (accepts accepted)) refl
        refl

  -- Where a splice leaves its task: it runs on, or it has returned.
  abbrev stage_of : Option (Transfer × Ended E) → Stage
  stage_of none = splicing
  stage_of (some _) = done

  splices_on :
      (net : Network C W E N) (s : Running) (ts : List Connection) {made : Calls}
      {streaks : Streaks} {accepted : ℕ} (traffic : List (ℕ × Ready E))
      (o : Option (Transfer × Ended E))
      → (run carrying.watchdog begin traffic).1 ≡ o
      → Gone s ts made streaks splicing accepted
      → Gone s ts (made ++ end_calls net o) streaks (stage_of o) accepted
  splices_on net s ts {made} traffic none found g = rw (append-nil made) g
  splices_on net s ts traffic (some (transfer, ended)) found g =
      splices_out s ts traffic transfer ended found g

  alone :
      (net : Network C W E N) (traffic : W → List (ℕ × Ready E)) (accepted : ℕ) (s : Running)
      (client : C) (token : ℕ) (e : DialEnd C W E N) (r : Result (GaveUp E N) (Dialled W E N))
      → dial net carrying.dial_settings client token ≡ some e
      → e.result ≡ r
      → let p = process_of s client token in
        let q = carry_on net carrying traffic (settle_dial net carrying accepted p e r) r in
        (stage : Stage) × Gone s s.tasks q.calls q.streaks stage accepted
  unfolding settle_dial carry_on
  alone net traffic accepted s client token e (ok d) found same =
      let est = established d.rounds (net.clock e.client - accepted) in
      let o = (run carrying.watchdog begin (traffic d.stream)).1 in
      let g = answered_on s s.tasks net client token e d found same (accepts_on s accepted) in
      let g' = splices_on net s s.tasks (traffic d.stream) o refl g in
      (stage_of o, rw (append_assoc s.calls connection_accepted est) at g')
  alone net traffic accepted s client token e (err gave) found same =
      let g = gave_up_on s s.tasks net client token e gave found same (accepts_on s accepted) in
      (done, rw (append_assoc s.calls connection_accepted (gave_up gave.rounds)) at g)

  pub carry_dialled-Reach :
      (net : Network C W E N) (traffic : W → List (ℕ × Ready E)) (accepted : ℕ) (s : Running)
      (client : C) (token : ℕ) (e : DialEnd C W E N)
      → dial net carrying.dial_settings client token ≡ some e
      → let q = carry_dialled net carrying traffic accepted (process_of s client token) e in
        (u : Running) × Reach C W E N carrying s u
        × (u.calls ≡ q.calls)
        × (u.streaks ≡ q.streaks)
        × ((t : Connection) × (u.tasks ≡ t ∷ s.tasks) × (t.pending ≡ []))
  unfolding carry_dialled
  carry_dialled-Reach net traffic accepted s client token e found =
      let (stage, g) = alone net traffic accepted s client token e e.result found refl in
      (g.to, g.reach, g.calls_at, g.streaks_at, (g.task, g.tasks_at, g.idle))
