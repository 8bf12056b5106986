-- ===== src/Wiring.antt =====
-- internal/pluginapp/runtime.go: what the application gives to the management handler. The host and the
-- service for a host are parameters, and a context is ended or not.
use cpa_quota_alert_plugin.Base.{
  String, Bool, Option, none, some, List, [], ◌∷◌, ◌++◌, if◌then◌else◌, Result, ok, err, ◌>>=◌,
  is_blank, true,
}
use cpa_quota_alert_plugin.Runtime.{Runtime}
use cpa_quota_alert_plugin.Config.Channels.{SmtpConfig, WebhookConfig}
use cpa_quota_alert_plugin.Config.Parse.{Config}
use cpa_quota_alert_plugin.Notify.Recipients.{recipient_count}
use cpa_quota_alert_plugin.Management.Types.{Channel}

-- `runtimeConfigProvider.Current`: `none` for its false.
unfoldable pub current : {A : Type 0} → Bool → Option (Option A) → Option A
current ended app = if ended then none else elim app [ none ↦ none | some config ↦ config ]

-- `NewChecker`, over a factory of clients and the service that a client makes.
unfoldable pub new_checker :
    {C S : Type 0} → Option (String → Option C) → (C → S) → String → Result String S
new_checker none service host_callback_id = err "host client factory unavailable"
new_checker (some factory) service host_callback_id = elim (factory host_callback_id) [
  | none ↦ err "host client unavailable"
  | some client ↦ ok (service client)
]

-- `NewStore`: the path of the store.
unfoldable pub new_store : String → Result String String
new_store path = if is_blank path then err "state path unavailable" else ok path

-- `Load` and `Save` of a store: nothing is done where the context has ended.
unfoldable pub unless_ended : {E A : Type 0} → Option E → Result E A → Result E A
unless_ended (some e) result = err e
unless_ended none result = result

module _ (rt : Runtime) where
  -- `Channels`: the names, with the counts of recipients of the first of them.
  unfoldable pub smtp_channel : SmtpConfig → (String → String) → Result String (List Channel)
  unfolding recipient_count
  smtp_channel cfg getenv =
      if cfg.enabled
      then (recipient_count rt (getenv cfg.recipients_env) >>= λ n.
          ok (record { name = "smtp"; has_sender = true; recipient_count = n } ∷ []))
      else ok []

  unfoldable pub webhook_channel : WebhookConfig → List Channel
  webhook_channel cfg =
      if cfg.enabled
      then record { name = "webhook"; has_sender = true; recipient_count = 0 } ∷ []
      else []

  unfoldable pub channels : Config rt → (String → String) → Result String (List Channel)
  unfolding smtp_channel webhook_channel
  channels cfg getenv =
      smtp_channel cfg.smtp getenv >>= λ first. ok (first ++ webhook_channel cfg.webhook)
