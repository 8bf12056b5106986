-- ===== src/Config/Parse/Bounds.antt =====
-- What holds of a configuration that `Parse` accepts.
use cpa_quota_alert_plugin.Base.{
  >>=-eq-ok, Option-cases, pos, ◌≤ℤ◌, String, true, false, some, ◌≡◌, Result, ok, ◌>>=◌, is_blank,
  contains, inl, inr, ◌⊎◌, arith,
}
use cpa_quota_alert_plugin.Runtime.{Runtime, Fields, Url}
use cpa_quota_alert_plugin.Config.Values.{is_finite, normalize_host, object_value}
use cpa_quota_alert_plugin.Config.Channels.{no_smtp, no_webhook, parse_smtp, parse_webhook}
use cpa_quota_alert_plugin.Quota.Wham.{value_at}
use cpa_quota_alert_plugin.Config.{Accepted, parse_rules}
use cpa_quota_alert_plugin.Config.Environment.Present.{
  ArePresent, validate_notification_env-ArePresent,
}
use cpa_quota_alert_plugin.Config.Environment.{validate_notification_env}
use cpa_quota_alert_plugin.Config.Parse.{
  at_key, check_plain, accept, finish, with_scalars, default_config, Config, validate_ranges,
  check_quota_url, read_parts, parse, read_part, read_scalars,
}
use cpa_quota_alert_plugin.Config.Channels.Valid.{
  IsSmtpValid, IsWebhookValid, parse_smtp-IsSmtpValid, parse_webhook-IsWebhookValid,
}

module _ (rt : Runtime) where
  open rt use {Float, lt_float, eq_float, literal, parse_url}

  pub record IsInRange (cfg : Config rt) : Type 0 where
    pub concurrency : pos 1 ≤ℤ cfg.concurrency
    pub request_timeout : pos 1 ≤ℤ cfg.request_timeout_seconds
    pub stale_after : pos 1 ≤ℤ cfg.stale_after_seconds
    pub reminder : pos 1 ≤ℤ cfg.reminder_seconds
    pub failure_alert : pos 1 ≤ℤ cfg.failure_alert_count
    pub retry_attempts : pos 0 ≤ℤ cfg.retry_attempts
    pub state_path : is_blank cfg.state_path ≡ false
    pub low :
        (is_finite rt cfg.low_threshold ≡ true)
        × (lt_float cfg.low_threshold (literal 0 0) ≡ false)
        × (eq_float cfg.low_threshold (literal 0 0) ≡ false)
    pub recovery :
        (is_finite rt cfg.recovery_threshold ≡ true)
        × (lt_float cfg.recovery_threshold cfg.low_threshold ≡ false)
        × (eq_float cfg.recovery_threshold cfg.low_threshold ≡ false)

  validate_ranges-IsInRange : (cfg : Config rt) → validate_ranges rt cfg ≡ ok tt → IsInRange cfg
  unfolding validate_ranges
  validate_ranges-IsInRange cfg h = record {
    concurrency = ground arith;
    request_timeout = ground arith;
    stale_after = ground arith;
    reminder = ground arith;
    failure_alert = ground arith;
    retry_attempts = ground arith;
    state_path = ground arith;
    low = ground arith;
    recovery = ground arith;
  }

  read_part-cases :
      {A : Type 0} (raw : Fields Float) (key : String) (fallback a : A)
      (parsed : Fields Float → Result String A)
      → read_part rt raw key fallback parsed ≡ ok a
      → (a ≡ fallback) ⊎ ((part : Fields Float) × (parsed part ≡ ok a))
  unfolding read_part
  read_part-cases raw key fallback a parsed h = elim (Option-cases (value_at rt key raw)) [
    | inl missing ↦ inl (ground arith)
    | inr (value, found) ↦ elim (Option-cases (object_value rt value)) [
      | inl bad ↦ absurd (ground arith)
      | inr (part, is_object) ↦ inr (part, ground arith)
    ]
  ]

  read_parts-IsInRange :
      (raw : Fields Float) (read cfg : Config rt)
      → read_parts rt raw read ≡ ok cfg
      → IsInRange read
      → IsInRange cfg
  unfolding read_parts
  read_parts-IsInRange raw read cfg h i = record {
    concurrency = ground (arith, i.concurrency);
    request_timeout = ground (arith, i.request_timeout);
    stale_after = ground (arith, i.stale_after);
    reminder = ground (arith, i.reminder);
    failure_alert = ground (arith, i.failure_alert);
    retry_attempts = ground (arith, i.retry_attempts);
    state_path = ground (arith, i.state_path);
    low = ground (arith, i.low);
    recovery = ground (arith, i.recovery);
  }

  read_parts-channels :
      (raw : Fields Float) (read cfg : Config rt)
      → read_parts rt raw read ≡ ok cfg
      → (read_part rt raw "smtp" no_smtp (parse_smtp rt) ≡ ok cfg.smtp)
        × (read_part rt raw "webhook" no_webhook (parse_webhook rt) ≡ ok cfg.webhook)
  unfolding read_parts
  read_parts-channels raw read cfg h = ground arith

  -- The URL of the quota has a host that is allowed.
  pub IsQuotaUrlAllowed : Config rt → Type 0
  IsQuotaUrlAllowed cfg =
      (url : Url) × (parse_url cfg.quota_url ≡ some url)
      × (url.is_absolute ≡ true)
      × (contains cfg.allowed_quota_hosts (normalize_host rt url.hostname) ≡ true)

  check_quota_url-IsQuotaUrlAllowed :
      (cfg : Config rt) → check_quota_url rt cfg ≡ ok tt → IsQuotaUrlAllowed cfg
  unfolding check_quota_url IsQuotaUrlAllowed
  check_quota_url-IsQuotaUrlAllowed cfg h = elim (Option-cases (parse_url cfg.quota_url)) [
    | inl bad ↦ absurd (ground arith)
    | inr (url, parsed) ↦ (url, parsed, ground arith, ground arith)
  ]

  pub record IsValid (getenv : String → String) (cfg : Config rt) : Type 0 where
    pub range : IsInRange cfg
    pub smtp : cfg.smtp.enabled ≡ true → IsSmtpValid cfg.smtp
    pub webhook : cfg.webhook.enabled ≡ true → IsWebhookValid cfg.webhook
    pub environment : ArePresent rt getenv cfg.smtp cfg.webhook
    pub quota_url : IsQuotaUrlAllowed cfg

  parts-IsValid :
      (raw : Fields Float) (getenv : String → String) (read cfg : Config rt)
      → validate_ranges rt read ≡ ok tt
      → read_parts rt raw read ≡ ok cfg
      → validate_notification_env rt getenv cfg.smtp cfg.webhook ≡ ok tt
      → check_quota_url rt cfg ≡ ok tt
      → IsValid getenv cfg
  parts-IsValid raw getenv read cfg ranges parts env url =
      let (of_smtp, of_webhook) = read_parts-channels raw read cfg parts in
      record {
        range = read_parts-IsInRange raw read cfg parts (validate_ranges-IsInRange read ranges);
        smtp = λ on. elim (read_part-cases raw "smtp" no_smtp cfg.smtp (parse_smtp rt) of_smtp) [
          | inl kept ↦ absurd (ground arith)
          | inr (part, parsed) ↦ parse_smtp-IsSmtpValid rt part cfg.smtp parsed on
        ];
        webhook = λ on.
            elim (read_part-cases raw "webhook" no_webhook cfg.webhook (parse_webhook rt)
              of_webhook) [
                | inl kept ↦ absurd (ground arith)
                | inr (part, parsed) ↦ parse_webhook-IsWebhookValid rt part cfg.webhook parsed on
              ];
        environment = validate_notification_env-ArePresent rt getenv cfg.smtp cfg.webhook env;
        quota_url = check_quota_url-IsQuotaUrlAllowed cfg url;
      }

  -- The rules are no part of these.
  abbrev with_rules : Config rt → Accepted rt → Config rt
  with_rules cfg accepted = record cfg { plan_rules = accepted.rules; aliases = accepted.owners }

  IsInRange-rules :
      (cfg : Config rt) (accepted : Accepted rt)
      → IsInRange cfg
      → IsInRange (with_rules cfg accepted)
  IsInRange-rules cfg accepted i = record {
    concurrency = i.concurrency;
    request_timeout = i.request_timeout;
    stale_after = i.stale_after;
    reminder = i.reminder;
    failure_alert = i.failure_alert;
    retry_attempts = i.retry_attempts;
    state_path = i.state_path;
    low = i.low;
    recovery = i.recovery;
  }

  IsQuotaUrlAllowed-rules :
      (cfg : Config rt) (accepted : Accepted rt)
      → IsQuotaUrlAllowed cfg
      → IsQuotaUrlAllowed (with_rules cfg accepted)
  unfolding IsQuotaUrlAllowed
  IsQuotaUrlAllowed-rules cfg accepted h = h

  environment-rules :
      {getenv : String → String} (cfg : Config rt) (accepted : Accepted rt)
      → ArePresent rt getenv cfg.smtp cfg.webhook
      → let ruled = with_rules cfg accepted in ArePresent rt getenv ruled.smtp ruled.webhook
  environment-rules cfg accepted h = record { mail = h.mail; web = h.web }

  finish-rules :
      (raw : Fields Float) (getenv : String → String) (parts cfg : Config rt)
      → finish rt raw getenv parts ≡ ok cfg
      → (validate_notification_env rt getenv parts.smtp parts.webhook ≡ ok tt)
        × (check_quota_url rt parts ≡ ok tt)
        × ((accepted : Accepted rt) × (cfg ≡ with_rules parts accepted))
  unfolding finish accept
  finish-rules raw getenv parts cfg h =
      let (_, env, after) =
        >>=-eq-ok (validate_notification_env rt getenv parts.smtp parts.webhook)
          (λ _. check_quota_url rt parts >>= λ _. accept rt raw parts) h in
      let (_, url, after_url) =
        >>=-eq-ok (check_quota_url rt parts) (λ _. accept rt raw parts) after in
      let (accepted, _, result) =
        >>=-eq-ok (parse_rules rt parts.ignored_plans (at_key rt "plan_rules" raw))
          (λ accepted. ok (with_rules parts accepted)) after_url in
      (env, url, (accepted, cc result))

  -- A configuration that is accepted has positive counts and times, retries that are not negative, a
  -- path that is not blank, thresholds that are finite, the lower one not zero or below and the
  -- other not at it or below, usable channels where they are enabled, whose variables have names
  -- that are valid and values that are not blank in the environment it was parsed in, and a URL of
  -- the quota that is absolute and has an allowed host.
  pub parse-IsValid :
      (raw : Fields Float) (getenv : String → String) (cfg : Config rt)
      → parse rt raw getenv ≡ ok cfg
      → IsValid getenv cfg
  unfolding parse with_scalars
  parse-IsValid raw getenv cfg h =
      let (_, _, after_plain) =
        >>=-eq-ok (check_plain rt raw)
          (λ _. read_scalars rt raw (default_config rt) >>= with_scalars rt raw getenv) h in
      let (read, _, after_scalars) =
        >>=-eq-ok (read_scalars rt raw (default_config rt)) (with_scalars rt raw getenv)
          after_plain in
      let (_, ranges, after_ranges) =
        >>=-eq-ok (validate_ranges rt read) (λ _. read_parts rt raw read >>= finish rt raw getenv)
          after_scalars in
      let (parts, with_parts, after_parts) =
        >>=-eq-ok (read_parts rt raw read) (finish rt raw getenv) after_ranges in
      let (env, url, (accepted, result)) = finish-rules raw getenv parts cfg after_parts in
      let valid = parts-IsValid raw getenv read parts ranges with_parts env url in
      rw result (record {
        range = IsInRange-rules parts accepted valid.range;
        smtp = valid.smtp;
        webhook = valid.webhook;
        environment = environment-rules parts accepted valid.environment;
        quota_url = IsQuotaUrlAllowed-rules parts accepted valid.quota_url;
      })
