-- ===== src/Dial/Budget.antt =====
-- src/dial.rs, `dial`: how the attempt budget is spent, and that the loop ends.
use lwd_mixnet_proxy.Common.{
  ℕ, zero, suc, ◌+◌, ◌-◌, ◌*◌, ◌≤◌, ◌<◌, ◌≡◌, refl, ◌∙◌, sym, true, false, List, [], ◌∷◌, ◌++◌,
  none, some, Result, ok, err, inl, inr, Option-cases, arith, length, min, All, ltb, ltb→lt,
  Bool-cases,
}
use mathlib.Core.List.{append_assoc, append-nil}
use lwd_mixnet_proxy.Common.Words.{u32_mod}
use lwd_mixnet_proxy.Dial.{DialSettings, Round, GaveUp, attempted, attempts_of}
use lwd_mixnet_proxy.Dial.Run.{
  Network, RoundEnd, Dialled, DialEnd, run_round, dial_loop, attempts_in, concurrency_in, dial,
}
use lwd_mixnet_proxy.Dial.Accounting.{IsValid, Accounts, run_round-Accounts}

abbrev pub Unanswered : {E N : Type 0} → List (Round E N) → Type 0
Unanswered = All (λ r. r.answered ≡ false)

module _ {W E N : Type 0} where
  -- How a loop ends that had `remaining` attempts to spend after the rounds `before`.
  abbrev pub Spent : ℕ → ℕ → List (Round E N) → Result (GaveUp E N) (Dialled W E N) → Type 0
  Spent concurrency remaining before (err gave_up) =
      (ran : List (Round E N)) × (gave_up.rounds ≡ before ++ ran)
      × Unanswered ran
      × (attempts_of ran ≡ remaining)
      × (remaining ≤ length ran * concurrency)
      × (length ran * concurrency < remaining + concurrency)
  Spent concurrency remaining before (ok dialled) =
      (front : List (Round E N)) × (last : Round E N) × (dialled.rounds
        ≡ before ++ (front ++ (last ∷ [])))
      × Unanswered front
      × (last.answered ≡ true)
      × (attempts_of front ≡ length front * concurrency)
      × (attempts_of front < remaining)
      × (attempted last ≡ min concurrency (remaining - attempts_of front))

no_rounds : (n c : ℕ) → n * c < c → n ≡ 0
no_rounds zero c h = refl
no_rounds (suc n) c h = absurd (omega arith)

module _ {C W E N : Type 0} (net : Network C W E N) where
  Spent-nothing :
      (concurrency remaining : ℕ) (before : List (Round E N))
      → 0 < concurrency
      → remaining ≡ 0
      → Spent {W = W} concurrency remaining before (err (record { rounds = before }))
  unfolding attempts_of
  Spent-nothing concurrency remaining before pos e =
      ([], sym (append-nil before), tt, sym e, omega arith, omega arith)

  Spent-answer :
      (concurrency remaining : ℕ) (before : List (Round E N)) (end : RoundEnd C W E N) (w : W)
      (t : ℕ)
      → end.answer ≡ some (w, t)
      → 0 < remaining
      → Accounts net (min concurrency remaining) end
      → Spent concurrency remaining before
          (ok (record { stream = w; answering_round = t; rounds = before ++ (end.round ∷ []) }))
  unfolding attempts_of
  Spent-answer concurrency remaining before end w t e more a = (
    [],
    end.round,
    refl,
    tt,
    ground (arith, a.flag),
    omega arith,
    more,
    omega (arith, a.attempts),
  )

  Spent-more :
      (concurrency remaining : ℕ) (before : List (Round E N)) (end : RoundEnd C W E N)
      (r : Result (GaveUp E N) (Dialled W E N))
      → 0 < concurrency
      → 0 < remaining
      → end.answer ≡ none
      → Accounts net (min concurrency remaining) end
      → Spent concurrency (remaining - min concurrency remaining) (before ++ (end.round ∷ [])) r
      → Spent concurrency remaining before r
  unfolding attempts_of
  Spent-more concurrency remaining before end (err g) pos more e a (ran, eq, un, tot, lo, hi) = (
    end.round ∷ ran,
    eq ∙ append_assoc before (end.round ∷ []) ran,
    (ground (arith, a.flag), un),
    omega (arith, a.attempts),
    omega arith,
    grind (arith, no_rounds (length ran) concurrency),
  )
  Spent-more concurrency remaining before end (ok d) pos more e a
        (front, last, eq, un, ans, full, left, tot) =
      (
        end.round ∷ front,
        last,
        eq ∙ append_assoc before (end.round ∷ []) _,
        (ground (arith, a.flag), un),
        ans,
        omega (arith, a.attempts),
        omega (arith, a.attempts),
        omega (arith, a.attempts),
      )

  dial_loop-Spent :
      (fuel : ℕ) (settings : DialSettings) (concurrency remaining : ℕ) (before : List (Round E N))
      (c : C) (token : ℕ)
      → 0 < concurrency
      → (settings.probe ≡ none → concurrency ≤ 1)
      → remaining < u32_mod
      → remaining ≤ fuel
      → (e : DialEnd C W E N) × (dial_loop net fuel settings concurrency remaining before c token
          ≡ some e)
        × Spent concurrency remaining before e.result
  unfolding dial_loop
  dial_loop-Spent zero settings concurrency remaining before c token pos few fits enough = (
    record { result = err (record { rounds = before }); client = c; next_token = token },
    ground arith,
    Spent-nothing concurrency remaining before pos (omega arith),
  )
  dial_loop-Spent (suc fuel) settings concurrency remaining before c token pos few fits enough =
      elim (Bool-cases (ltb 0 remaining)) [
        | inr done ↦ (
          record { result = err (record { rounds = before }); client = c; next_token = token },
          rw done refl,
          Spent-nothing concurrency remaining before pos (ground arith),
        )
        | inl more ↦
            let size = min concurrency remaining in
            let end = run_round net settings size c token in
            let counted =
              run_round-Accounts net settings size c token (omega arith)
                (λ e. omega (arith, few e)) in
            elim (Option-cases end.answer) [
              | inl e ↦
                  let (d, ran, spent) =
                    dial_loop-Spent fuel settings concurrency (remaining - size)
                      (before ++ (end.round ∷ [])) end.client end.next_token pos few (omega arith)
                      (omega arith) in
                  (
                    d,
                    rw more (rw e ran),
                    Spent-more concurrency remaining before end d.result pos (ltb→lt _ _ more) e
                        counted spent,
                  )
              | inr ((w, t), e) ↦ (
                record {
                  result = ok (record {
                    stream = w;
                    answering_round = t;
                    rounds = before ++ (end.round ∷ []);
                  });
                  client = end.client;
                  next_token = end.next_token;
                },
                rw more (rw e refl),
                Spent-answer concurrency remaining before end w t e (ltb→lt _ _ more) counted,
              )
            ]
      ]

  pub few_at_once : (settings : DialSettings) → settings.probe ≡ none → concurrency_in settings ≤ 1
  few_at_once settings e = ground arith

  -- With 1 to 2^32 - 1 attempts and at least one stream at a time, `dial` always returns, by one
  -- of two ways. Giving up, it has spent the budget of attempts to the last one, in as few rounds
  -- as hold them, none of which answered. With a stream, only its last round answered, the rounds
  -- before it were full, and that round had the rest of the budget or a full round of it. Without
  -- a probe the budget is one attempt.
  pub dial-Spent :
      (settings : DialSettings) (c : C) (token : ℕ)
      → IsValid settings
      → (e : DialEnd C W E N) × (dial net settings c token ≡ some e)
        × Spent (concurrency_in settings) (attempts_in settings) [] e.result
  unfolding dial
  dial-Spent settings c token valid =
      dial_loop-Spent (attempts_in settings) settings (concurrency_in settings)
        (attempts_in settings) [] c token valid.sizes (few_at_once settings) valid.word
        (omega arith)
