-- ===== src/Tests/Mails.antt =====
-- The theorems on templates, senders and the check of settings at concrete data.
use cpa_quota_alert_plugin.Base.{
  contains_text, remove, to_lower, trim_right_by, ℕ, pos, String, true, false, none, some, [], ◌∷◌,
  ◌≡◌, refl, ok, trim_space, contains, contains_char, ends_with, All, if◌then◌else◌, ◌==◌,
}
use cpa_quota_alert_plugin.Base.Dict.{lookup, insert}
use cpa_quota_alert_plugin.Runtime.{Runtime, text, int, object, Fields, end, field, Address}
use cpa_quota_alert_plugin.Quota.Wham.{value_at}
use cpa_quota_alert_plugin.Config.Channels.{WebhookConfig}
use cpa_quota_alert_plugin.Config.Mail.{MailConfig, parse_mail, allowed_mail_kinds}
use cpa_quota_alert_plugin.Notify.{Message, is_line_break}
use cpa_quota_alert_plugin.Notify.Template.{RenderInput, template_vars, render}
use cpa_quota_alert_plugin.Notify.Template.Success.{render-eq-ok, text_at-contains_char}
use cpa_quota_alert_plugin.Notify.Recipients.{parse_recipients, recipient_count}
use cpa_quota_alert_plugin.Notify.Recipients.Equivalence.{counted, recipient_count-counted}
use cpa_quota_alert_plugin.Notify.Smtp as Smtp
use cpa_quota_alert_plugin.Notify.Smtp.{Server, Mime, Command}
use cpa_quota_alert_plugin.Notify.Smtp.Safety.{is_secured, send-is_secured}
use cpa_quota_alert_plugin.Notify.Webhook as Webhook
use cpa_quota_alert_plugin.Notify.Webhook.{HttpClient}
use cpa_quota_alert_plugin.Notify.Webhook.Safety.{IsHonest, send-IsHonest}
use cpa_quota_alert_plugin.Config.Parse.{parse}
use cpa_quota_alert_plugin.Config.Plain.{is_forbidden_plain_secret_key, find_plain_secret}
use cpa_quota_alert_plugin.Management.Types.{rejected, valid_settings}
use cpa_quota_alert_plugin.Management.Settings.{Sources, validate_settings}
use cpa_quota_alert_plugin.Management.Settings.Valid.{IsUsable, validate_settings-IsUsable}
use cpa_quota_alert_plugin.Tests.Machine.{runtime}
use cpa_quota_alert_plugin.Tests.Settings.{settings, environment, accepted, settings_accepted}

abbrev mail_fields : Fields ℕ
mail_fields =
    field "templates"
      (object (
        field "low"
          (object (
            field "subject" (text "Low: {{ total }}")
              (field "body" (text "Left: {{total}}\nAt {{occurred_at}}") end)))
          end))
      end

abbrev mail : MailConfig
mail = record {
  templates =
      ("low", record { subject = "Low: {{ total }}"; body = "Left: {{total}}\nAt {{occurred_at}}" })
      ∷ [];
}

mail_parsed : parse_mail runtime mail_fields ≡ ok mail
unfolding parse_mail trim_space insert value_at contains_char
mail_parsed = refl

abbrev low_input : RenderInput runtime
low_input = record {
  kind = "low";
  summary = field "total" (int (pos 1)) end;
  occurred = 5;
  low_threshold = 2;
  recovery_threshold = 3;
  templates = mail;
}

values_free :
    All
      (λ (e : String × String). contains_char is_line_break e.1 ≡ false)
      (template_vars runtime 9 low_input)
unfolding template_vars contains_char trim_space value_at
values_free = (refl, (refl, (refl, (refl, (refl, (refl, (refl, (refl, (refl, (refl, tt))))))))))

low_known : contains allowed_mail_kinds (trim_space "low") ≡ true
unfolding trim_space
low_known = refl

render-eq-ok_example : (msg : Message) × (render runtime 9 low_input ≡ ok msg)
render-eq-ok_example =
    render-eq-ok runtime mail_fields 9 low_input mail_parsed low_known (λ key.
      text_at-contains_char is_line_break key (template_vars runtime 9 low_input) values_free)

rendered :
    render runtime 9 low_input
    ≡ ok (record {
      event_id = "";
      event_type = "low";
      subject = "Low: 1.00";
      body = "Left: 1.00\nAt 2025-01-01T00:00:00Z";
      occurred_at = 5;
    })
unfolding render trim_space contains_char lookup value_at
rendered = refl

recipient_count-counted_example :
    recipient_count runtime "a@example.com; b@example.com"
    ≡ counted 0 (parse_recipients runtime "a@example.com; b@example.com")
recipient_count-counted_example = recipient_count-counted runtime "a@example.com; b@example.com"

two_recipients : recipient_count runtime "a@example.com; b@example.com" ≡ ok 2
unfolding recipient_count trim_space contains_char
two_recipients = refl

abbrev willing : Server
willing asked command = true

abbrev mime : Mime runtime
mime = record {
  address_text = λ (a : Address). a.address;
  encode_subject = λ s. s;
  format_date = λ _. "Wed, 01 Jan 2025 00:00:00 +0000";
}

abbrev message : Message
message = record {
  event_id = "low-1";
  event_type = "low";
  subject = "Low: 1.00";
  body = "Left: 1.00";
  occurred_at = 5;
}

send-is_secured_example :
    is_secured willing [] false
      (Smtp.send runtime accepted.smtp environment willing mime 9 message).1
    ≡ true
send-is_secured_example =
    send-is_secured runtime settings environment accepted settings_accepted environment willing mime
      9 message

mail_sent : (Smtp.send runtime accepted.smtp environment willing mime 9 message).0 ≡ none
unfolding Smtp.send trim_space contains_char ends_with
mail_sent = refl

abbrev webhook : WebhookConfig
webhook = record {
  enabled = true;
  method = "POST";
  timeout_seconds = pos 10;
  url_env = "URL";
  auth_header_env = "AUTH";
}

abbrev variables : String → String
variables name = if name == "URL" then "https://chatgpt.com/backend-api/wham/usage" else "Bearer x"

abbrev client : HttpClient
client = record { marshal = λ _. some "{}"; accepts = λ _. true; status = λ _. some (pos 204) }

send-IsHonest_example :
    IsHonest runtime webhook client (Webhook.send runtime webhook variables client 9 message)
send-IsHonest_example = send-IsHonest runtime webhook variables client 9 message

webhook_sent : (Webhook.send runtime webhook variables client 9 message).0 ≡ none
unfolding Webhook.send trim_space contains_char
webhook_sent = refl

-- A runtime whose decoder gives the settings.
abbrev reading : Fields ℕ → Runtime
reading fields = record runtime { unmarshal_object = λ _. some fields }

-- A request that wraps the settings, and sets one of the secrets anew.
abbrev wrapped : Fields ℕ
wrapped = field "config" (object settings) end

abbrev renewed : Sources (reading wrapped)
renewed = record {
  getenv = environment;
  base_getenv = λ _. "";
  decode_pending = λ _. some (("SMTP_USER", "other") ∷ [], "UNUSED" ∷ []);
}

settings_valid : (validate_settings (reading wrapped) renewed "settings").body ≡ valid_settings
unfolding validate_settings parse find_plain_secret is_forbidden_plain_secret_key ends_with
    trim_space remove to_lower lookup insert value_at contains_char trim_right_by
settings_valid = refl

validate_settings-IsUsable_example : IsUsable (reading wrapped) renewed "settings"
validate_settings-IsUsable_example =
    validate_settings-IsUsable (reading wrapped) renewed "settings" settings_valid

-- A request that brings the secrets of its settings, none of which is stored yet.
abbrev pending : Sources (reading wrapped)
pending = record {
  getenv = λ _. "";
  base_getenv = λ _. "";
  decode_pending = λ _. some (
    ("SMTP_USER", "user")
        ∷ ("SMTP_PASSWORD", "secret")
        ∷ ("SMTP_TO", "a@example.com")
        ∷ ("SMTP_FROM", "b@example.com")
        ∷ [],
    [],
  );
}

-- The settings are accepted with these secrets, and the channels are made without them.
pending_refused :
    (validate_settings (reading wrapped) pending "settings").body
    ≡ rejected "invalid_notification_config" "smtp"
unfolding validate_settings parse find_plain_secret is_forbidden_plain_secret_key ends_with
    trim_space remove to_lower lookup insert value_at contains_char trim_right_by
pending_refused = refl

-- A recovery threshold below the low one, which is reported at the field of the other.
abbrev swapped : Fields ℕ
swapped = field "low_threshold" (int (pos 3)) (field "recovery_threshold" (int (pos 2)) end)

abbrev swapped_sources : Sources (reading swapped)
swapped_sources = record {
  getenv = environment;
  base_getenv = environment;
  decode_pending = λ _. none;
}

wrong_field :
    (validate_settings (reading swapped) swapped_sources "settings").body
    ≡ rejected "invalid_config" "low_threshold"
unfolding validate_settings parse find_plain_secret is_forbidden_plain_secret_key ends_with
    trim_space to_lower lookup value_at contains_text
wrong_field = refl
