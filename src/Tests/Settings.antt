-- ===== src/Tests/Settings.antt =====
-- The theorems on the configuration at concrete data.
use cpa_quota_alert_plugin.Base.{
  ℕ, pos, String, true, false, none, some, List, [], ◌∷◌, ◌≡◌, refl, ok, err, trim_space, remove,
  to_lower, ends_with, contains_char, trim_right_by,
}
use cpa_quota_alert_plugin.Base.Dict.{lookup, insert}
use cpa_quota_alert_plugin.Runtime.{
  text, int, bool, object, array, nil, cons, Fields, end, field, objects, none_left, one_more,
}
use cpa_quota_alert_plugin.Quota.Types.{PlanRule}
use cpa_quota_alert_plugin.Quota.Wham.{value_at}
use cpa_quota_alert_plugin.Config.Channels.{SmtpConfig, no_webhook}
use cpa_quota_alert_plugin.Config.Mail.{no_mail}
use cpa_quota_alert_plugin.Config.Plain.{
  is_forbidden_plain_secret_key, find_plain_secret, AreFieldsPlainless, AreFieldsDecoded,
}
use cpa_quota_alert_plugin.Config.Parse.{Config, parse}
use cpa_quota_alert_plugin.Config.Parse.Bounds.{IsValid, parse-IsValid}
use cpa_quota_alert_plugin.Config.Parse.Safety.{parse-IsPlainless}
use cpa_quota_alert_plugin.Config.Yaml.{
  Node, document_node, mapping_node, scalar_node, alias_node, syntax, Decoder, end_of_file,
  decode_yaml,
}
use cpa_quota_alert_plugin.Config.Yaml.Termination.{is_some, decode_yaml_total}
use cpa_quota_alert_plugin.Tests.Machine.{runtime}

abbrev smtp_fields : Fields ℕ
smtp_fields = field "enabled" (bool true) (
    field "host" (text "mail.example.com") (
      field "port" (int (pos 465)) (
        field "tls_mode" (text "implicit_tls") (
          field "username_env" (text "SMTP_USER") (
            field "password_env" (text "SMTP_PASSWORD") (
              field "recipients_env" (text "SMTP_TO")
                (field "from_env" (text "SMTP_FROM") end)))))))

abbrev pub settings : Fields ℕ
settings =
    field "low_threshold" (int (pos 2))
      (field "recovery_threshold" (int (pos 3)) (field "smtp" (object smtp_fields) end))

abbrev pub environment : String → String
environment name = "me@example.com"

abbrev smtp : SmtpConfig
smtp = record {
  enabled = true;
  host = "mail.example.com";
  port = pos 465;
  tls_mode = "implicit_tls";
  timeout_seconds = pos 10;
  username_env = "SMTP_USER";
  password_env = "SMTP_PASSWORD";
  recipients_env = "SMTP_TO";
  from_env = "SMTP_FROM";
  from_name = "";
}

abbrev default_rule : String → PlanRule runtime
default_rule name = record { name = name; aliases = name ∷ []; window = "7d"; weight = 1 }

abbrev pub accepted : Config runtime
accepted = record {
  dry_run = false;
  concurrency = pos 4;
  request_timeout_seconds = pos 45;
  retry_attempts = pos 2;
  stale_after_seconds = pos 900;
  low_threshold = 2;
  recovery_threshold = 3;
  reminder_seconds = pos 86400;
  failure_alert_count = pos 3;
  state_path = "cpa-quota-alert-state.json";
  plan_rules = ("plus", default_rule "plus") ∷ ("team", default_rule "team") ∷ [];
  aliases = ("plus", "plus") ∷ ("team", "team") ∷ [];
  ignored_plans = "free" ∷ [];
  terminal_error_codes = [];
  quota_url = "https://chatgpt.com/backend-api/wham/usage";
  allowed_quota_hosts = "chatgpt.com" ∷ [];
  smtp = smtp;
  webhook = no_webhook;
  mail = no_mail;
}

pub settings_accepted : parse runtime settings environment ≡ ok accepted
unfolding parse find_plain_secret is_forbidden_plain_secret_key ends_with trim_space remove to_lower
    lookup insert value_at contains_char trim_right_by
settings_accepted = refl

parse-IsValid_example : IsValid runtime environment accepted
parse-IsValid_example = parse-IsValid runtime settings environment accepted settings_accepted

settings_decoded : AreFieldsDecoded runtime settings
settings_decoded = (tt, (tt, ((tt, (tt, (tt, (tt, (tt, (tt, (tt, (tt, tt)))))))), tt)))

parse-IsPlainless_example : AreFieldsPlainless runtime settings
parse-IsPlainless_example =
    parse-IsPlainless runtime settings environment accepted settings_decoded settings_accepted

-- An array that is built as one of maps, as no decoder does, is not searched.
array_of_maps_unsearched :
    find_plain_secret runtime (objects (one_more (field "password" (text "x") end) none_left)) []
    ≡ ""
unfolding find_plain_secret
array_of_maps_unsearched = refl

-- A password below an array of a part that nothing reads.
secret_found :
    parse runtime
      (field "notes" (array (cons (object (field "password" (text "x") end)) nil)) end)
      environment
    ≡ err
        "config field notes.500.password must reference an environment variable name, not a plaintext secret"
unfolding parse find_plain_secret is_forbidden_plain_secret_key ends_with to_lower
secret_found = refl

-- A mapping whose value is an alias of the document above it.
abbrev cyclic : List Node
cyclic =
    record { kind = document_node; tag = ""; value = ""; content = 1 ∷ []; alias = none }
    ∷ record { kind = mapping_node; tag = "!!map"; value = ""; content = 2 ∷ 3 ∷ []; alias = none }
    ∷ record { kind = scalar_node; tag = "!!str"; value = "a"; content = []; alias = none }
    ∷ record { kind = alias_node; tag = ""; value = ""; content = []; alias = some 0 }
    ∷ []

abbrev decoder : Decoder runtime
decoder = record {
  document = λ _. some (cyclic, 0);
  extra = λ _. end_of_file;
  decode = λ _. some (some end);
}

decode_yaml_total_example : is_some (decode_yaml runtime decoder "a: *b") ≡ true
decode_yaml_total_example = decode_yaml_total runtime decoder "a: *b"

cycle_refused : decode_yaml runtime decoder "a: *b" ≡ some (err syntax)
unfolding decode_yaml trim_space
cycle_refused = refl
