-- ===== src/Examples/Replies.antt =====
-- What the endpoint answers, and the theorems of `Endpoint` at concrete inputs.
use Prim.Native.String.{String}
use lwd_mixnet_proxy.Common.{◌≡◌, refl, ◌↔◌, true, Result, ok}
use lwd_mixnet_proxy.Health.{Health}
use lwd_mixnet_proxy.Endpoint.{Request, get, other, route}
use lwd_mixnet_proxy.Endpoint.Answers.{HasAnswer, route-HasAnswer}

abbrev pub gathered : Result String String
gathered = ok "lwd_mixnet_client_rounds_total 3\n"

abbrev pub registered_half : Health
registered_half = record { state = 1; degraded = true }

abbrev pub health_check : Request
health_check = record { method = get; path = "/health" }

not_ready : (route gathered health_check registered_half).status ≡ 503
unfolding route
not_ready = refl

not_allowed :
    (route gathered (record { method = other "POST"; path = "/metrics" }) registered_half).status
    ≡ 405
unfolding route
not_allowed = refl

route-HasAnswer_example :
    ((route gathered health_check registered_half).status ≡ 200)
    ↔ ((true ≡ true) × HasAnswer gathered "/health" registered_half)
route-HasAnswer_example = route-HasAnswer gathered health_check registered_half
