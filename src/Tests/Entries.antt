-- ===== src/Tests/Entries.antt =====
-- The theorem on the plugin's process at concrete data.
use cpa_quota_alert_plugin.Base.{String, true, false, none, some, List, [], ◌∷◌, ◌≡◌, refl, err}
use cpa_quota_alert_plugin.App.{Envelope, registered, shut_down, result, failure}
use cpa_quota_alert_plugin.Entry.{
  HostApi, bytes, null_of, written, Process, plugin_call, callback_failed, host_call,
}
use cpa_quota_alert_plugin.Entry.Paired.{Action, start, ask, stop}
use cpa_quota_alert_plugin.Tests.Runs.{environment}

abbrev encode : Envelope → String
encode registered = "registered"
encode shut_down = "{}"
encode (result raw) = raw
encode (failure code) = code

abbrev host : HostApi
host = record { abi_version = 1; has_call = true; has_free = true }

abbrev idle : Process String
idle = record { app = none; host = none }

-- A second start without a stop, then a stop.
abbrev actions : List (Action String)
actions =
    start (some host) true true
    ∷ ask (some "plugin.register") (bytes "a") true
    ∷ start (some host) true true
    ∷ ask none (null_of 0) true
    ∷ stop
    ∷ []

-- A null pointer with a length, where no app is there to ask.
null_refused :
    (plugin_call String environment encode idle (some "plugin.register") (null_of 3) true).1
    ≡ written "invalid_request"
unfolding plugin_call
null_refused = refl

-- A host that answers with nothing.
nothing_answered :
    (host_call host (λ _ _. (0, some "")) false false "host.auth.list" "{}").0 ≡ err callback_failed
unfolding host_call
nothing_answered = refl
