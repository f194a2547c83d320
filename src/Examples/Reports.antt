-- ===== src/Examples/Reports.antt =====
-- Health and streaks on concrete histories, and their theorems at concrete inputs.
use lwd_mixnet_proxy.Common.{◌<◌, ◌≡◌, ◌↔◌, refl, true, List, [], ◌∷◌, arith}
use lwd_mixnet_proxy.Health.{Health, start, as_json}
use lwd_mixnet_proxy.Streaks.{
  Outcome, answered, unprobed, nothing_opened, nothing_answered, new, fold,
}
use lwd_mixnet_proxy.Streaks.History.{after, HasRefusals, notified-HasRefusals}

abbrev failing : Health
failing = record { state = 2; degraded = true }

as_json-failing : as_json failing ≡ "{\"state\":\"serving\",\"degraded\":true}\n"
unfolding as_json
as_json-failing = refl

-- The newest first: three dead ends, an unprobed dial among them, after an answer.
abbrev bad_hour : List Outcome
bad_hour = nothing_answered ∷ unprobed ∷ nothing_opened ∷ nothing_answered ∷ answered ∷ []

bad_hour_degrades : (after (new start) bad_hour).health.degraded ≡ true
unfolding after new start fold
bad_hour_degrades = refl

notified-HasRefusals_example : (0 < (after (new start) bad_hour).notified) ↔ HasRefusals bad_hour
notified-HasRefusals_example = notified-HasRefusals start bad_hour (omega arith)
