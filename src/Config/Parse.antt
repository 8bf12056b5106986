-- ===== src/Config/Parse.antt =====
-- `Parse` of internal/config/types.go: the whole configuration from its decoded fields.
pub mod Bounds
pub mod Safety
use cpa_quota_alert_plugin.Base.{
  ℕ, ℤ, pos, ltb_ℤ, leb_ℤ, String, ◌<>◌, Bool, true, false, not, ◌&&◌, ◌||◌, Option, none, some,
  List, [], ◌∷◌, ◌==◌, if◌then◌else◌, Result, ok, err, ◌>>=◌, is_blank, contains, trim_space,
}
use cpa_quota_alert_plugin.Base.Dict.{Dict}
use cpa_quota_alert_plugin.Runtime.{Runtime, Any, null, object, Fields}
use cpa_quota_alert_plugin.Quota.Types.{PlanRule}
use cpa_quota_alert_plugin.Quota.Wham.{value_at}
use cpa_quota_alert_plugin.Config.{normalize_plan, parse_rules}
use cpa_quota_alert_plugin.Config.Values.{
  refuse, is_finite, read_bool, read_int, read_float, read_string, object_value, parse_string_list,
  set_of, normalize_host,
}
use cpa_quota_alert_plugin.Config.Channels.{
  SmtpConfig, WebhookConfig, no_smtp, no_webhook, parse_smtp, parse_webhook,
}
use cpa_quota_alert_plugin.Config.Environment.{validate_notification_env}
use cpa_quota_alert_plugin.Config.Mail.{MailConfig, no_mail, parse_mail}
use cpa_quota_alert_plugin.Config.Plain.{find_plain_secret}

module _ (rt : Runtime) where
  open rt use {Float, lt_float, eq_float, literal, lower, quote, parse_url}

  pub record Config : Type 0 where
    pub dry_run : Bool
    pub concurrency : ℤ
    pub request_timeout_seconds : ℤ
    pub retry_attempts : ℤ
    pub stale_after_seconds : ℤ
    pub low_threshold : Float
    pub recovery_threshold : Float
    pub reminder_seconds : ℤ
    pub failure_alert_count : ℤ
    pub state_path : String
    pub plan_rules : Dict (PlanRule rt)
    pub aliases : Dict String
    pub ignored_plans : List String
    pub terminal_error_codes : List String
    pub quota_url : String
    pub allowed_quota_hosts : List String
    pub smtp : SmtpConfig
    pub webhook : WebhookConfig
    pub mail : MailConfig

  abbrev default_config : Config
  default_config = record {
    dry_run = false;
    concurrency = pos 4;
    request_timeout_seconds = pos 45;
    retry_attempts = pos 2;
    stale_after_seconds = pos 900;
    low_threshold = literal 15 1;
    recovery_threshold = literal 16 1;
    reminder_seconds = pos 86400;
    failure_alert_count = pos 3;
    state_path = "cpa-quota-alert-state.json";
    plan_rules = [];
    aliases = [];
    ignored_plans = "free" ∷ [];
    terminal_error_codes = [];
    quota_url = "https://chatgpt.com/backend-api/wham/usage";
    allowed_quota_hosts = "chatgpt.com" ∷ [];
    smtp = no_smtp;
    webhook = no_webhook;
    mail = no_mail;
  }

  -- The reads of the single values.
  unfoldable pub read_scalars : Fields Float → Config → Result String Config
  unfolding read_bool read_int read_float read_string
  read_scalars raw cfg = read_bool rt raw "dry_run" cfg.dry_run >>= λ dry_run.
      read_int rt raw "concurrency" cfg.concurrency >>= λ concurrency.
      read_int rt raw "request_timeout_seconds" cfg.request_timeout_seconds >>= λ timeout.
      read_int rt raw "retry_attempts" cfg.retry_attempts >>= λ retry_attempts.
      read_int rt raw "stale_after_seconds" cfg.stale_after_seconds >>= λ stale.
      read_float rt raw "low_threshold" cfg.low_threshold >>= λ low.
      read_float rt raw "recovery_threshold" cfg.recovery_threshold >>= λ recovery.
      read_int rt raw "reminder_seconds" cfg.reminder_seconds >>= λ reminder.
      read_int rt raw "failure_alert_count" cfg.failure_alert_count >>= λ count.
      read_string rt raw "state_path" cfg.state_path >>= λ state_path.
      read_string rt raw "quota_url" cfg.quota_url >>= λ quota_url. ok (record cfg {
        dry_run = dry_run;
        concurrency = concurrency;
        request_timeout_seconds = timeout;
        retry_attempts = retry_attempts;
        stale_after_seconds = stale;
        low_threshold = low;
        recovery_threshold = recovery;
        reminder_seconds = reminder;
        failure_alert_count = count;
        state_path = state_path;
        quota_url = quota_url;
      })

  positive : ℤ → String → Result String (Unit {0})
  positive value at = refuse (leb_ℤ value (pos 0)) (at <> " must be greater than 0")

  -- The loop over a map names one of the values that are not positive; here it is the first of them.
  unfoldable pub validate_ranges : Config → Result String (Unit {0})
  unfolding positive
  validate_ranges cfg = positive cfg.concurrency "concurrency" >>= λ _.
      positive cfg.request_timeout_seconds "request_timeout_seconds" >>= λ _.
      positive cfg.stale_after_seconds "stale_after_seconds" >>= λ _.
      positive cfg.reminder_seconds "reminder_seconds" >>= λ _.
      positive cfg.failure_alert_count "failure_alert_count" >>= λ _.
      if ltb_ℤ cfg.retry_attempts (pos 0)
      then err "retry_attempts must be greater than or equal to 0"
      else if is_blank cfg.state_path
      then err "state_path must be non-empty"
      else if not (is_finite rt cfg.low_threshold)
          || lt_float cfg.low_threshold (literal 0 0)
          || eq_float cfg.low_threshold (literal 0 0)
      then err "low_threshold must be finite and greater than 0"
      else if not (is_finite rt cfg.recovery_threshold)
          || lt_float cfg.recovery_threshold cfg.low_threshold
          || eq_float cfg.recovery_threshold cfg.low_threshold
      then err "recovery_threshold must be finite and greater than low_threshold"
      else ok tt

  -- `parsePlanSet`, `parseHostSet` and `parseStringSet`, with the value to keep where the key is
  -- missing.
  unfoldable pub read_set :
      (String → String) → Fields Float → String → List String → Result String (List String)
  unfolding value_at parse_string_list set_of
  read_set normalized raw key fallback = elim (value_at rt key raw) [
    | none ↦ ok fallback
    | some value ↦ (parse_string_list rt key value >>= λ l. ok (set_of rt normalized l))
  ]

  -- A part of the configuration that is an object where it is present.
  unfoldable pub read_part :
      {A : Type 0} → Fields Float → String → A → (Fields Float → Result String A) → Result String A
  unfolding value_at
  read_part raw key fallback parsed = elim (value_at rt key raw) [
    | none ↦ ok fallback
    | some value ↦ elim (object_value rt value) [
      | none ↦ err (key <> " must be an object")
      | some fields ↦ parsed fields
    ]
  ]

  unfoldable pub read_parts : Fields Float → Config → Result String Config
  unfolding read_set read_part parse_smtp parse_webhook parse_mail normalize_host normalize_plan
      trim_space
  read_parts raw cfg =
      read_set (normalize_host rt) raw "allowed_quota_hosts" cfg.allowed_quota_hosts >>= λ hosts.
      read_set (normalize_plan rt) raw "ignored_plans" cfg.ignored_plans >>= λ ignored.
      read_set trim_space raw "terminal_error_codes" cfg.terminal_error_codes >>= λ terminal.
      read_part raw "smtp" no_smtp (parse_smtp rt) >>= λ smtp.
      read_part raw "webhook" no_webhook (parse_webhook rt) >>= λ webhook.
      read_part raw "mail" no_mail (parse_mail rt) >>= λ mail. ok (record cfg {
        allowed_quota_hosts = hosts;
        ignored_plans = ignored;
        terminal_error_codes = terminal;
        smtp = smtp;
        webhook = webhook;
        mail = mail;
      })

  -- The check of the URL of the quota, with `HostSet.Contains`.
  unfoldable pub check_quota_url : Config → Result String (Unit {0})
  unfolding normalize_host
  check_quota_url cfg =
      let relative : Result String (Unit {0}) =
        err ("quota_url must be absolute: " <> quote cfg.quota_url) in
      elim (parse_url cfg.quota_url) [
        | none ↦ relative
        | some url ↦
            if not url.is_absolute || url.hostname == ""
            then relative
            else refuse (not (contains cfg.allowed_quota_hosts (normalize_host rt url.hostname)))
                ("quota_url host " <> quote url.hostname <> " is not in allowed_quota_hosts")
      ]

  -- A missing entry of a map is nil.
  at_key : String → Fields Float → Any Float
  unfolding value_at
  at_key key raw = elim (value_at rt key raw) [ none ↦ null | some value ↦ value ]

  check_plain : Fields Float → Result String (Unit {0})
  unfolding find_plain_secret
  check_plain raw =
      let secret_path = find_plain_secret rt (object raw) [] in
      refuse (not (secret_path == "")) (
        "config field "
        <> quote secret_path
        <> " must reference an environment variable name, not a plaintext secret")

  accept : Fields Float → Config → Result String Config
  unfolding parse_rules at_key
  accept raw cfg = parse_rules rt cfg.ignored_plans (at_key "plan_rules" raw) >>= λ accepted.
      ok (record cfg { plan_rules = accepted.rules; aliases = accepted.owners })

  -- `Parse` from the check of the environment on.
  finish : Fields Float → (String → String) → Config → Result String Config
  unfolding validate_notification_env check_quota_url accept
  finish raw getenv cfg = validate_notification_env rt getenv cfg.smtp cfg.webhook >>= λ _.
      check_quota_url cfg >>= λ _. accept raw cfg

  -- `Parse` from the check of the ranges on.
  with_scalars : Fields Float → (String → String) → Config → Result String Config
  unfolding validate_ranges read_parts finish
  with_scalars raw getenv scalars =
      validate_ranges scalars >>= λ _. read_parts raw scalars >>= finish raw getenv

  -- `Parse`; a nil map is one without entries.
  unfoldable pub parse : Fields Float → (String → String) → Result String Config
  unfolding check_plain read_scalars with_scalars
  parse raw getenv =
      check_plain raw >>= λ _. read_scalars raw default_config >>= with_scalars raw getenv
