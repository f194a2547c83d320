-- ===== src/Endpoint/Answers.antt =====
-- src/endpoint.rs, `route`: when an answer is a 200, and what `/health` says.
use Prim.Native.String.{String}
use text.Mathlib.TextEquality.{eq_iff}
use mathlib.Core.Bool.{false≢true}
use lwd_mixnet_proxy.Common.{
  ℕ, ◌≡◌, refl, sym, ◌∙◌, ◌↔◌, ◌⊎◌, true, some, Result, ok, err, if◌then◌else◌, arith,
}
use lwd_mixnet_proxy.Health.{Health, State, starting, registered, serving, state_of, is_ready}
use lwd_mixnet_proxy.Health.Progress.{read_json, read_json-as_json}
use lwd_mixnet_proxy.Endpoint.{Request, is_read, route, route_path, metrics_reply}

-- The status of `/health`.
abbrev status_for : State → ℕ
status_for s = if is_ready s then 200 else 503

ready_serving : (s : State) → (status_for s ≡ 200) ↔ (s ≡ serving)
unfolding is_ready
ready_serving starting = ground arith
ready_serving registered = ground arith
ready_serving serving = ground arith

paths_differ : (path : String) → path ≡ "/metrics" → path ≡ "/health" → ⊥
paths_differ path a b = false≢true ((eq_iff "/metrics" "/health").1 (sym a ∙ b))

module _ {P : Type 0} (gathered : Result P String) where
  metrics_ok :
      (g : Result P String)
      → ((metrics_reply gathered g).status ≡ 200) ↔ ((text : String) × (g ≡ ok text))
  metrics_ok (ok text) = (λ h. (text, refl), λ h. refl)
  metrics_ok (err e) = (λ h. absurd (omega (arith, h)), λ (text, h). cc)

  -- What a path may answer 200 for.
  abbrev pub HasAnswer : String → Health → Type 0
  HasAnswer path health =
      ((path ≡ "/metrics") × ((text : String) × (gathered ≡ ok text)))
      ⊎ ((path ≡ "/health") × (state_of health ≡ serving))

  path_ok :
      (path : String) (health : Health)
      → ((route_path gathered path health).status ≡ 200) ↔ HasAnswer path health
  path_ok path health = ground (
    arith,
    eq_iff path "/metrics",
    eq_iff path "/health",
    metrics_ok gathered,
    ready_serving (state_of health),
    paths_differ path,
  )

  -- A half answers 200 exactly to a GET or a HEAD, of `/metrics` if its metrics were gathered, or of
  -- `/health` if it is serving.
  pub route-HasAnswer :
      (request : Request) (health : Health)
      → ((route gathered request health).status ≡ 200)
        ↔ ((is_read request.method ≡ true) × HasAnswer request.path health)
  unfolding route
  route-HasAnswer request health = ground (arith, path_ok request.path health)

  -- `/health` always answers a GET or a HEAD, and its body tells the state of the half, and whether
  -- it is degraded, apart from every other. Its status is 503 until the half is serving.
  pub route-read_json :
      (request : Request) (health : Health)
      → is_read request.method ≡ true
      → request.path ≡ "/health"
      → ((route gathered request health).status ≡ (if is_ready (state_of health) then 200 else 503))
        × (read_json (route gathered request health).body ≡ some (state_of health, health.degraded))
  unfolding route
  route-read_json request health read path = rw (read, path) (refl, read_json-as_json health)
