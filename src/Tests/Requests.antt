-- ===== src/Tests/Requests.antt =====
-- The theorems on the management requests at concrete data.
use cpa_quota_alert_plugin.Base.{
  ◌+◌, ◌≤◌, true, false, some, List, [], ◌∷◌, ◌≡◌, refl, All, length, ok, trim_space, pos,
}
use cpa_quota_alert_plugin.Management.Types.{Request, Channel, Config, Dependencies}
use cpa_quota_alert_plugin.Management.Channels.{configure}
use cpa_quota_alert_plugin.Management.Channels.Unique.{named, configure-IsUnique}
use cpa_quota_alert_plugin.Management.Secrets.{secrets}
use cpa_quota_alert_plugin.Management.Secrets.Allowed.{IsAllowed, secrets-IsAllowed}
use cpa_quota_alert_plugin.Management.Handle.{decode_request, handle}
use cpa_quota_alert_plugin.Management.Handle.Methods.{handle-get}
use cpa_quota_alert_plugin.Tests.Machine.{runtime}
use cpa_quota_alert_plugin.Tests.Runs.{world, idle}

abbrev given_channels : List Channel
given_channels =
    record { name = " smtp"; has_sender = true; recipient_count = 2 }
    ∷ record { name = "smtp"; has_sender = true; recipient_count = 1 }
    ∷ record { name = "pager"; has_sender = true; recipient_count = 0 }
    ∷ record { name = "webhook"; has_sender = false; recipient_count = 0 }
    ∷ []

configure-IsUnique_example :
    let l = configure runtime [] given_channels in
    (named runtime "smtp" l ≤ 1)
    × (named runtime "webhook" l ≤ 1)
    × (length l ≡ named runtime "smtp" l + named runtime "webhook" l)
    × All (λ c. c.has_sender ≡ true) l
configure-IsUnique_example = configure-IsUnique runtime given_channels

abbrev status_request : Request
status_request = record {
  host_callback_id = "";
  method = "GET";
  path = "/cpa-quota-alert/status";
  body = "";
}

abbrev asked : Dependencies runtime
asked = record world { decode_request = λ _. some status_request }

status_decoded : decode_request runtime asked (λ m. m) "{}" ≡ ok status_request
unfolding decode_request trim_space
status_decoded = refl

handle-get_example :
    let o = handle runtime asked (λ m. m) "{}" idle in (o.effects ≡ []) × (o.server ≡ idle)
handle-get_example = handle-get runtime asked (λ m. m) "{}" status_request idle status_decoded refl

abbrev named_settings : Config runtime
named_settings = record {
  dry_run = false;
  stale_after_seconds = pos 60;
  low_threshold = 15;
  recovery_threshold = 20;
  reminder_seconds = pos 60;
  failure_alert_count = pos 2;
  secret_names = "SMTP_PASSWORD" ∷ [];
}

-- An update of one configured name and one with the prefix.
abbrev storing : Dependencies runtime
storing = record world {
  config = some named_settings;
  has_secret_store = true;
  update = λ _ _. true;
  decode_update = λ _. some (("SMTP_PASSWORD", "x") ∷ [], "CPA_QUOTA_ALERT_OLD" ∷ []);
}

abbrev put_request : Request
put_request = record status_request { method = "PUT"; path = "/cpa-quota-alert/secrets" }

one_update : length (secrets runtime storing put_request).1 ≡ 1
unfolding secrets
one_update = refl

secrets-IsAllowed_example :
    All
      (IsAllowed runtime storing named_settings put_request)
      (secrets runtime storing put_request).1
secrets-IsAllowed_example = secrets-IsAllowed runtime storing named_settings put_request refl
