-- ===== src/Health/Progress.antt =====
-- src/health.rs: states only move forward, and the body served tells every case apart.
use Prim.Native.String.{String}
use text.Mathlib.Text.{◌==◌ as str_eq}
use lwd_mixnet_proxy.Common.{
  ℕ, ◌≤◌, ◌≡◌, refl, Bool, true, false, List, [], ◌∷◌, Option, none, some, max, if◌then◌else◌,
  arith,
}
use lwd_mixnet_proxy.Health.{
  State, starting, registered, serving, Health, code_of, from_code, start, state_of, advance_to,
  as_json, body,
}

-- A half that is told to advance again and again.
unfoldable pub advance_all : Health → List State → Health
advance_all h [] = h
advance_all h (state ∷ states) = advance_all (advance_to h state) states

abbrev pub furthest : List State → ℕ
furthest [] = 0
furthest (state ∷ states) = max (code_of state) (furthest states)

code-from_code : (n : ℕ) → n ≤ 2 → code_of (from_code n) ≡ n
unfolding from_code
code-from_code n h = ground arith

code_le : (s : State) → code_of s ≤ 2
code_le s = ground arith

furthest_le : (states : List State) → furthest states ≤ 2
furthest_le [] = omega arith
furthest_le (s ∷ states) = omega (arith, code_le s, furthest_le states)

state-advance_all :
    (h : Health) (states : List State)
    → ((advance_all h states).state ≡ max h.state (furthest states))
      × ((advance_all h states).degraded ≡ h.degraded)
unfolding advance_all advance_to
state-advance_all h [] = (omega arith, refl)
state-advance_all h (s ∷ states) =
    let (far, same) = state-advance_all (advance_to h s) states in (omega (arith, far), same)

-- A half that was told of any states, in any order and as often as one likes, is in the furthest of
-- them: a late report of an earlier state changes nothing. None of it touches `degraded`.
pub advance_all-furthest :
    (states : List State)
    → (code_of (state_of (advance_all start states)) ≡ furthest states)
      × ((advance_all start states).degraded ≡ false)
unfolding start state_of
advance_all-furthest states =
    let (far, same) = state-advance_all start states in
    let far' : (advance_all start states).state ≡ furthest states = omega (arith, far) in
    (rw far' (code-from_code (furthest states) (furthest_le states)), same)

-- Reading a body back, by comparing it with each of the six.
abbrev pub read_json : String → Option (State × Bool)
read_json s =
    if str_eq s "{\"state\":\"starting\"}\n"
    then some (starting, false)
    else if str_eq s "{\"state\":\"registered\"}\n"
    then some (registered, false)
    else if str_eq s "{\"state\":\"serving\"}\n"
    then some (serving, false)
    else if str_eq s "{\"state\":\"starting\",\"degraded\":true}\n"
    then some (starting, true)
    else if str_eq s "{\"state\":\"registered\",\"degraded\":true}\n"
    then some (registered, true)
    else if str_eq s "{\"state\":\"serving\",\"degraded\":true}\n"
    then some (serving, true)
    else none

read_body : (s : State) (d : Bool) → read_json (body s d) ≡ some (s, d)
read_body starting true = refl
read_body registered true = refl
read_body serving true = refl
read_body starting false = refl
read_body registered false = refl
read_body serving false = refl

-- The body that `/health` serves names the state and says whether the half is degraded: no two
-- different answers read alike.
pub read_json-as_json : (h : Health) → read_json (as_json h) ≡ some (state_of h, h.degraded)
unfolding as_json
read_json-as_json h = read_body (state_of h) h.degraded
