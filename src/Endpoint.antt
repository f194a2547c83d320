-- ===== src/Endpoint.antt =====
-- src/endpoint.rs, `route` and `reply`: what a half answers a scraper and a supervisor. HTTP itself
-- is hyper's. `Gathered` is what `metrics::encode` returns for the registry, which is prometheus's.
pub mod Answers
pub mod Serving
use Prim.Native.String.{String}
use lwd_mixnet_proxy.Common.{ℕ, Bool, true, false, Result, ok, err, if◌then◌else◌}
use text.Mathlib.Text.{◌==◌ as str_eq}
use lwd_mixnet_proxy.Health.{Health, state_of, is_ready, as_json}

-- `hyper::Method`, the ones that the code compares with and the others.
pub data Method : Type 0 where
  get head : Method
  other : String → Method

-- `Request`, as far as the code looks at it.
pub record Request : Type 0 where
  pub method : Method
  pub path : String

pub record Response : Type 0 where
  pub status : ℕ
  pub content_type : String
  pub body : String

abbrev pub exposition : String
exposition = "text/plain; version=0.0.4; charset=utf-8"

-- The builder accepts each of the statuses and headers that `route` gives it.
abbrev pub reply : ℕ → String → String → Response
reply status content_type body = record {
  status = status;
  content_type = content_type;
  body = body;
}

abbrev pub is_read : Method → Bool
is_read get = true
is_read head = true
is_read (other _) = false

module _ {P : Type 0} (gathered : Result P String) where
  abbrev metrics_reply : Result P String → Response
  metrics_reply (ok encoded) = reply 200 exposition encoded
  metrics_reply (err error) = reply 500 "text/plain" ""

  abbrev health_reply : Health → Response
  health_reply health =
      reply (if is_ready (state_of health) then 200 else 503) "application/json" (as_json health)

  abbrev route_path : String → Health → Response
  route_path path health =
      if str_eq path "/metrics"
      then metrics_reply gathered
      else if str_eq path "/health"
      then health_reply health
      else reply 404 "text/plain" ""

  unfoldable pub route : Request → Health → Response
  unfolding is_ready state_of as_json
  route request health =
      if is_read request.method then route_path request.path health else reply 405 "text/plain" ""
