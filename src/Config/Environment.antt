-- ===== src/Config/Environment.antt =====
-- The environment variables that an enabled channel names, in internal/config/types.go.
use Prim.Native.String.{[] as no_text, ◌∷◌ as ◌∷ₜ◌}
pub mod Present
use cpa_quota_alert_plugin.Base.{
  leb, eqb, String, Char, code, ◌<>◌, Bool, true, false, not, ◌&&◌, ◌||◌, List, [], ◌∷◌, ◌++◌,
  if◌then◌else◌, Result, ok, err, ◌>>=◌, is_blank,
}
use cpa_quota_alert_plugin.Runtime.{Runtime}
use cpa_quota_alert_plugin.Config.Values.{refuse}
use cpa_quota_alert_plugin.Config.Channels.{SmtpConfig, WebhookConfig}

abbrev starts_name : Char → Bool
starts_name c = let n = code c in eqb n 95 || (leb 65 n && leb n 90) || (leb 97 n && leb n 122)

abbrev goes_on : Char → Bool
goes_on c = let n = code c in starts_name c || (leb 48 n && leb n 57)

all_go_on : String → Bool
all_go_on no_text = true
all_go_on (c ∷ₜ s) = goes_on c && all_go_on s

-- `isEnvName`; a character above 127 is in none of the ranges.
unfoldable pub is_env_name : String → Bool
unfolding all_go_on
is_env_name no_text = false
is_env_name (c ∷ₜ s) = starts_name c && all_go_on s

unfoldable pub validate_env_name : String → String → Result String (Unit {0})
unfolding is_env_name
validate_env_name label name =
    if is_blank name
    then err (label <> " must name an environment variable when channel is enabled")
    else if not (is_env_name name)
    then err (label <> " must name a valid environment variable")
    else ok tt

-- The label and the name of each requirement.
abbrev smtp_requirements : SmtpConfig → List (String × String)
smtp_requirements smtp =
    ("smtp.username_env", smtp.username_env)
    ∷ ("smtp.password_env", smtp.password_env)
    ∷ ("smtp.recipients_env", smtp.recipients_env)
    ∷ ("smtp.from_env", smtp.from_env)
    ∷ []

abbrev webhook_requirements : WebhookConfig → List (String × String)
webhook_requirements webhook =
    ("webhook.url_env", webhook.url_env) ∷ ("webhook.auth_header_env", webhook.auth_header_env) ∷ []

abbrev requirements : SmtpConfig → WebhookConfig → List (String × String)
requirements smtp webhook =
    (if smtp.enabled then smtp_requirements smtp else [])
    ++ (if webhook.enabled then webhook_requirements webhook else [])

validate_names : List (String × String) → Result String (Unit {0})
unfolding validate_env_name
validate_names [] = ok tt
validate_names ((label, name) ∷ more) = validate_env_name label name >>= λ _. validate_names more

module _ (rt : Runtime) (getenv : String → String) where
  open rt use {quote}

  unfoldable pub require_env : String → String → Result String (Unit {0})
  unfolding validate_env_name
  require_env label name = validate_env_name label name >>= λ _.
      refuse (is_blank (getenv name))
        (label <> " environment variable " <> quote name <> " is required and must be non-empty")

  require_all : List (String × String) → Result String (Unit {0})
  unfolding require_env
  require_all [] = ok tt
  require_all ((label, name) ∷ more) = require_env label name >>= λ _. require_all more

  unfoldable pub validate_notification_env : SmtpConfig → WebhookConfig → Result String (Unit {0})
  unfolding validate_names require_all
  validate_notification_env smtp webhook =
      let l = requirements smtp webhook in validate_names l >>= λ _. require_all l
