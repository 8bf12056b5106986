-- ===== src/Config/Channels.antt =====
-- The notification channels of internal/config/types.go: `parseSMTP`, `parseWebhook`, and what they
-- require of the environment.
pub mod Valid
use cpa_quota_alert_plugin.Base.{
  ℤ, pos, ltb_ℤ, leb_ℤ, String, Bool, false, not, ◌&&◌, ◌||◌, List, [], ◌∷◌, ◌==◌, if◌then◌else◌,
  Result, ok, err, ◌>>=◌, is_blank,
}
use cpa_quota_alert_plugin.Runtime.{Runtime, Fields}
use cpa_quota_alert_plugin.Config.Values.{read_bool, read_int, read_string, reject_unknown_fields}

pub record SmtpConfig : Type 0 where
  pub enabled : Bool
  pub host : String
  pub port : ℤ
  pub tls_mode : String
  pub timeout_seconds : ℤ
  pub username_env : String
  pub password_env : String
  pub recipients_env : String
  pub from_env : String
  pub from_name : String

pub record WebhookConfig : Type 0 where
  pub enabled : Bool
  pub method : String
  pub timeout_seconds : ℤ
  pub url_env : String
  pub auth_header_env : String

abbrev pub no_smtp : SmtpConfig
no_smtp = record {
  enabled = false;
  host = "";
  port = pos 0;
  tls_mode = "";
  timeout_seconds = pos 0;
  username_env = "";
  password_env = "";
  recipients_env = "";
  from_env = "";
  from_name = "";
}

abbrev pub no_webhook : WebhookConfig
no_webhook = record {
  enabled = false;
  method = "";
  timeout_seconds = pos 0;
  url_env = "";
  auth_header_env = "";
}

-- The checks of `parseSMTP` on what it read.
unfoldable pub check_smtp : SmtpConfig → Result String SmtpConfig
check_smtp cfg =
    if not cfg.enabled
    then ok cfg
    else if is_blank cfg.host
    then err "smtp.host is required when smtp is enabled"
    else if leb_ℤ cfg.port (pos 0) || ltb_ℤ (pos 65535) cfg.port
    then err "smtp.port must be between 1 and 65535"
    else if not (cfg.tls_mode == "implicit_tls") && not (cfg.tls_mode == "starttls")
    then err "smtp.tls_mode must be implicit_tls or starttls"
    else if leb_ℤ cfg.timeout_seconds (pos 0)
    then err "smtp.timeout_seconds must be greater than 0"
    else ok cfg

unfoldable pub check_webhook : WebhookConfig → Result String WebhookConfig
check_webhook cfg =
    if not cfg.enabled
    then ok cfg
    else if not (cfg.method == "POST") && not (cfg.method == "PUT")
    then err "webhook.method must be POST or PUT"
    else if leb_ℤ cfg.timeout_seconds (pos 0)
    then err "webhook.timeout_seconds must be greater than 0"
    else ok cfg

module _ (rt : Runtime) where
  open rt use {Float, upper}

  abbrev smtp_fields : List String
  smtp_fields =
      "enabled" ∷ "host" ∷ "port" ∷ "tls_mode" ∷ "timeout_seconds" ∷ "username_env" ∷ "password_env"
      ∷ "recipients_env" ∷ "from_env" ∷ "from_name" ∷ []

  -- The part of `parseSMTP` that reads.
  unfoldable pub read_smtp : Fields Float → Result String SmtpConfig
  unfolding reject_unknown_fields read_bool read_string read_int
  read_smtp raw = reject_unknown_fields rt "smtp" smtp_fields raw >>= λ _.
      read_bool rt raw "enabled" false >>= λ enabled. read_string rt raw "host" "" >>= λ host.
      read_int rt raw "port" (pos 0) >>= λ port.
      read_string rt raw "tls_mode" "starttls" >>= λ tls_mode.
      read_int rt raw "timeout_seconds" (pos 10) >>= λ timeout_seconds.
      read_string rt raw "username_env" "" >>= λ username_env.
      read_string rt raw "password_env" "" >>= λ password_env.
      read_string rt raw "recipients_env" "" >>= λ recipients_env.
      read_string rt raw "from_env" "" >>= λ from_env.
      read_string rt raw "from_name" "" >>= λ from_name. ok (record {
        enabled = enabled;
        host = host;
        port = port;
        tls_mode = tls_mode;
        timeout_seconds = timeout_seconds;
        username_env = username_env;
        password_env = password_env;
        recipients_env = recipients_env;
        from_env = from_env;
        from_name = from_name;
      })

  unfoldable pub parse_smtp : Fields Float → Result String SmtpConfig
  unfolding read_smtp check_smtp
  parse_smtp raw = read_smtp raw >>= check_smtp

  abbrev webhook_fields : List String
  webhook_fields = "enabled" ∷ "method" ∷ "timeout_seconds" ∷ "url_env" ∷ "auth_header_env" ∷ []

  -- The part of `parseWebhook` that reads.
  unfoldable pub read_webhook : Fields Float → Result String WebhookConfig
  unfolding reject_unknown_fields read_bool read_string read_int
  read_webhook raw = reject_unknown_fields rt "webhook" webhook_fields raw >>= λ _.
      read_bool rt raw "enabled" false >>= λ enabled.
      read_string rt raw "method" "POST" >>= λ method.
      read_int rt raw "timeout_seconds" (pos 10) >>= λ timeout_seconds.
      read_string rt raw "url_env" "" >>= λ url_env.
      read_string rt raw "auth_header_env" "" >>= λ auth_header_env. ok (record {
        enabled = enabled;
        method = upper method;
        timeout_seconds = timeout_seconds;
        url_env = url_env;
        auth_header_env = auth_header_env;
      })

  unfoldable pub parse_webhook : Fields Float → Result String WebhookConfig
  unfolding read_webhook check_webhook
  parse_webhook raw = read_webhook raw >>= check_webhook
