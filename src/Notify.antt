-- ===== src/Notify.antt =====
-- internal/notify/message.go: a message and the checks that every sender begins with. An error is its
-- code.
pub mod Texts
pub mod Format
pub mod Recipients
pub mod Smtp
pub mod Webhook
pub mod Template
use cpa_quota_alert_plugin.Base.{
  ℕ, eqb, String, Char, code, Bool, ◌||◌, if◌then◌else◌, Result, ok, err, is_blank, contains_char,
}

pub record Message : Type 0 where
  pub event_id : String
  pub event_type : String
  pub subject : String
  pub body : String
  pub occurred_at : ℕ

abbrev pub is_line_break : Char → Bool
is_line_break c = let n = code c in eqb n 13 || eqb n 10

-- `hasHeaderInjection`
unfoldable pub has_header_injection : String → Bool
unfolding contains_char
has_header_injection value = contains_char is_line_break value

unfoldable pub validate_message : Message → Result String (Unit {0})
unfolding has_header_injection
validate_message msg =
    if is_blank msg.event_type || is_blank msg.subject
    then err "notify_invalid_message"
    else if has_header_injection msg.event_id
        || has_header_injection msg.event_type
        || has_header_injection msg.subject
    then err "notify_header_injection"
    else ok tt

-- `occurredAt`, where zero is Go's zero time.
abbrev pub occurred_at : ℕ → ℕ → ℕ
occurred_at now at = if eqb at 0 then now else at
