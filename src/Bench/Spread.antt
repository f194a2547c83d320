-- ===== src/Bench/Spread.antt =====
-- src/bin/bench.rs, `within_round`: how many streams of a round went unanswered, over the rounds that
-- attempted more than one.
use lwd_mixnet_proxy.Common.{
  ℕ, ◌+◌, ◌≡◌, Bool, true, false, ◌&&◌, ◌||◌, List, [], ◌∷◌, ◌==◌, ltb, if◌then◌else◌, All, arith,
}
use lwd_mixnet_proxy.Dial.{Round, attempted, unanswered}
use lwd_mixnet_proxy.Bench.Rates.{count_if}

-- How many were opened, and how many of these went unanswered.
abbrev pub Key : Type 0
Key = ℕ × ℕ

abbrev pub key_eq : Key → Key → Bool
key_eq (a, b) (c, d) = a == c && b == d

abbrev pub key_lt : Key → Key → Bool
key_lt (a, b) (c, d) = ltb a c || (a == c && ltb b d)

-- `*spread.entry(key).or_default() += 1`, on a map in the order of its keys.
abbrev pub bump : Key → List (Key × ℕ) → List (Key × ℕ)
bump key [] = (key, 1) ∷ []
bump key ((k, n) ∷ spread) =
    let rest = bump key spread in
    if key_eq k key
    then (k, n + 1) ∷ spread
    else if key_lt key k
    then (key, 1) ∷ (k, n) ∷ spread
    else (k, n) ∷ rest

module _ {E N : Type 0} where
  abbrev pub add_round : Round E N → List (Key × ℕ) → List (Key × ℕ)
  add_round round spread =
      if ltb 1 (attempted round) then bump (round.opened, unanswered round) spread else spread

  unfoldable pub spread_from : List (Key × ℕ) → List (Round E N) → List (Key × ℕ)
  spread_from spread [] = spread
  spread_from spread (round ∷ rounds) = spread_from (add_round round spread) rounds

  -- The lines of the table.
  unfoldable pub within_round : List (Round E N) → List (Key × ℕ)
  unfolding spread_from
  within_round rounds = spread_from [] rounds

  -- Whether a round counts for this line.
  abbrev pub is_spread : Key → Round E N → Bool
  is_spread key round = ltb 1 (attempted round) && key_eq (round.opened, unanswered round) key

-- The sum of the lines with this key.
abbrev pub value_at : Key → List (Key × ℕ) → ℕ
value_at key [] = 0
value_at key ((k, n) ∷ spread) =
    let rest = value_at key spread in if key_eq k key then n + rest else rest

-- Each key comes before those behind it, and so there is one line for each.
abbrev pub Ascending : List (Key × ℕ) → Type 0
Ascending [] = Unit {0}
Ascending ((k, n) ∷ spread) = All (λ line. key_lt k line.0 ≡ true) spread × Ascending spread

value-bump :
    (key j : Key) (m : List (Key × ℕ))
    → value_at key (bump j m) ≡ value_at key m + (if key_eq j key then 1 else 0)
value-bump key j [] = ground arith
value-bump key j ((k, n) ∷ m) = ground (arith, value-bump key j m)

key_lt_trans : (a b c : Key) → key_lt a b ≡ true → key_lt b c ≡ true → key_lt a c ≡ true
key_lt_trans (a, b) (c, d) (e, f) h k = ground arith

key_lt_else : (k j : Key) → key_eq k j ≡ false → key_lt j k ≡ false → key_lt k j ≡ true
key_lt_else (a, b) (c, d) h k = ground arith

-- This key comes before every line.
Below : Key → List (Key × ℕ) → Type 0
Below key = All (λ line. key_lt key line.0 ≡ true)

Below-before : (j k : Key) (m : List (Key × ℕ)) → key_lt j k ≡ true → Below k m → Below j m
unfolding Below
Below-before j k [] h b = tt
Below-before j k ((i, n) ∷ m) h b = (key_lt_trans j k i h b.0, Below-before j k m h b.1)

bump-Below : (k j : Key) (m : List (Key × ℕ)) → key_lt k j ≡ true → Below k m → Below k (bump j m)
unfolding Below
bump-Below k j [] h b = (h, tt)
bump-Below k j ((i, n) ∷ m) h b = ground (arith, bump-Below k j m)

bump-Ascending : (j : Key) (m : List (Key × ℕ)) → Ascending m → Ascending (bump j m)
unfolding Below
bump-Ascending j [] a = (tt, tt)
bump-Ascending j ((k, n) ∷ m) a =
    ground (arith, bump-Ascending j m a.1, Below-before j k m, bump-Below k j m, key_lt_else k j)

module _ {E N : Type 0} where
  value-spread_from :
      (key : Key) (m : List (Key × ℕ)) (rs : List (Round E N))
      → value_at key (spread_from m rs) ≡ value_at key m + count_if (is_spread key) rs
  unfolding spread_from
  value-spread_from key m [] = omega arith
  value-spread_from key m (r ∷ rs) =
      ground
        (arith, value-spread_from key (add_round r m) rs, value-bump key (r.opened, unanswered r) m)

  add_round-Ascending :
      (r : Round E N) (m : List (Key × ℕ)) → Ascending m → Ascending (add_round r m)
  add_round-Ascending r m h = ground (arith, bump-Ascending (r.opened, unanswered r) m h)

  spread_from-Ascending :
      (m : List (Key × ℕ)) (rs : List (Round E N)) → Ascending m → Ascending (spread_from m rs)
  unfolding spread_from
  spread_from-Ascending m [] h = h
  spread_from-Ascending m (r ∷ rs) h =
      spread_from-Ascending (add_round r m) rs (add_round-Ascending r m h)

  -- The table of `within_round`: each line has, for one number of streams opened and one of them
  -- unanswered, how many of the rounds that attempted more than one came out so, and there is one
  -- line for each, in ascending order.
  pub within_round-Ascending :
      (rounds : List (Round E N))
      → Ascending (within_round rounds)
        × ((key : Key) → value_at key (within_round rounds) ≡ count_if (is_spread key) rounds)
  unfolding within_round
  within_round-Ascending rounds =
      (spread_from-Ascending [] rounds tt, λ key. omega (arith, value-spread_from key [] rounds))
