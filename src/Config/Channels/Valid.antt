-- ===== src/Config/Channels/Valid.antt =====
-- The channels that are accepted can be used where they are enabled.
use cpa_quota_alert_plugin.Base.{
  >>=-eq-ok, pos, ◌≤ℤ◌, true, false, ◌≡◌, ok, is_blank, ◌⊎◌, arith, eq_iff,
}
use cpa_quota_alert_plugin.Runtime.{Runtime, Fields}
use cpa_quota_alert_plugin.Config.Channels.{
  SmtpConfig, WebhookConfig, read_smtp, read_webhook, parse_smtp, parse_webhook, check_smtp,
  check_webhook,
}

-- A port, a mode and a timeout that an enabled channel can use.
pub record IsSmtpValid (smtp : SmtpConfig) : Type 0 where
  pub host : is_blank smtp.host ≡ false
  pub port : (pos 1 ≤ℤ smtp.port) × (smtp.port ≤ℤ pos 65535)
  pub tls_mode : (smtp.tls_mode ≡ "implicit_tls") ⊎ (smtp.tls_mode ≡ "starttls")
  pub timeout : pos 1 ≤ℤ smtp.timeout_seconds

pub record IsWebhookValid (webhook : WebhookConfig) : Type 0 where
  pub method : (webhook.method ≡ "POST") ⊎ (webhook.method ≡ "PUT")
  pub timeout : pos 1 ≤ℤ webhook.timeout_seconds

check_smtp-IsSmtpValid :
    (read smtp : SmtpConfig) → check_smtp read ≡ ok smtp → smtp.enabled ≡ true → IsSmtpValid smtp
unfolding check_smtp
check_smtp-IsSmtpValid read smtp h on =
    let same : smtp ≡ read = ground arith in
    rw same (record {
      host = ground arith;
      port = ground arith;
      tls_mode =
          ground (arith, eq_iff read.tls_mode "implicit_tls", eq_iff read.tls_mode "starttls");
      timeout = ground arith;
    })

check_webhook-IsWebhookValid :
    (read webhook : WebhookConfig)
    → check_webhook read ≡ ok webhook
    → webhook.enabled ≡ true
    → IsWebhookValid webhook
unfolding check_webhook
check_webhook-IsWebhookValid read webhook h on =
    let same : webhook ≡ read = ground arith in
    rw same (record {
      method = ground (arith, eq_iff read.method "POST", eq_iff read.method "PUT");
      timeout = ground arith;
    })

module _ (rt : Runtime) where
  open rt use {Float}

  pub parse_smtp-IsSmtpValid :
      (raw : Fields Float) (smtp : SmtpConfig)
      → parse_smtp rt raw ≡ ok smtp
      → smtp.enabled ≡ true
      → IsSmtpValid smtp
  unfolding parse_smtp
  parse_smtp-IsSmtpValid raw smtp h on =
      let (read, _, checked) = >>=-eq-ok (read_smtp rt raw) check_smtp h in
      check_smtp-IsSmtpValid read smtp checked on

  pub parse_webhook-IsWebhookValid :
      (raw : Fields Float) (webhook : WebhookConfig)
      → parse_webhook rt raw ≡ ok webhook
      → webhook.enabled ≡ true
      → IsWebhookValid webhook
  unfolding parse_webhook
  parse_webhook-IsWebhookValid raw webhook h on =
      let (read, _, checked) = >>=-eq-ok (read_webhook rt raw) check_webhook h in
      check_webhook-IsWebhookValid read webhook checked on
