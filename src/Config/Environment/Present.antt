-- ===== src/Config/Environment/Present.antt =====
-- The environment variables of an enabled channel are there where a configuration is accepted.
use cpa_quota_alert_plugin.Base.{
  >>=-eq-ok, String, Bool, true, false, List, [], ◌∷◌, ◌++◌, ◌≡◌, arith, if◌then◌else◌, ok,
  is_blank, All, ◌<>◌,
}
use cpa_quota_alert_plugin.Runtime.{Runtime}
use cpa_quota_alert_plugin.Config.Values.{refuse}
use cpa_quota_alert_plugin.Config.Channels.{SmtpConfig, WebhookConfig}
use cpa_quota_alert_plugin.Config.Environment.{
  is_env_name, validate_env_name, requirements, smtp_requirements, webhook_requirements,
  validate_names, require_env, require_all, validate_notification_env,
}

module _ {A : Type 0} (P : A → Type 0) where
  All-split : (xs ys : List A) → All P (xs ++ ys) → All P xs × All P ys
  All-split [] ys h = (tt, h)
  All-split (x ∷ xs) ys (p, h) = let (f, g) = All-split xs ys h in ((p, f), g)

  All-on : (b : Bool) (l : List A) → All P (if b then l else []) → b ≡ true → All P l
  All-on true l h on = h
  All-on false l h on = absurd (ground arith)

module _ (rt : Runtime) (getenv : String → String) where
  -- The text names a variable, and its value is not blank.
  abbrev pub IsPresent : String → Type 0
  IsPresent name = (is_env_name name ≡ true) × (is_blank (getenv name) ≡ false)

  -- Each variable that an enabled channel needs.
  pub record ArePresent (smtp : SmtpConfig) (webhook : WebhookConfig) : Type 0 where
    pub mail :
        smtp.enabled ≡ true
        → IsPresent smtp.username_env
          × IsPresent smtp.password_env
          × IsPresent smtp.recipients_env
          × IsPresent smtp.from_env
    pub web : webhook.enabled ≡ true → IsPresent webhook.url_env × IsPresent webhook.auth_header_env

  validate_env_name-named :
      (label name : String) → validate_env_name label name ≡ ok tt → is_env_name name ≡ true
  unfolding validate_env_name
  validate_env_name-named label name h = ground arith

  require_env-IsPresent :
      (label name : String) → require_env rt getenv label name ≡ ok tt → IsPresent name
  unfolding require_env
  require_env-IsPresent label name h =
      let message =
        label
        <> " environment variable "
        <> rt.quote name
        <> " is required and must be non-empty" in
      let (_, named, filled) =
        >>=-eq-ok (validate_env_name label name) (λ _. refuse (is_blank (getenv name)) message) h in
      (validate_env_name-named label name named, ground arith)

  require_all-All :
      (l : List (String × String)) → require_all rt getenv l ≡ ok tt → All (λ e. IsPresent e.1) l
  unfolding require_all
  require_all-All [] h = tt
  require_all-All ((label, name) ∷ more) h =
      let (_, first, rest) =
        >>=-eq-ok (require_env rt getenv label name) (λ _. require_all rt getenv more) h in
      (require_env-IsPresent label name first, require_all-All more rest)

  pub validate_notification_env-ArePresent :
      (smtp : SmtpConfig) (webhook : WebhookConfig)
      → validate_notification_env rt getenv smtp webhook ≡ ok tt
      → ArePresent smtp webhook
  unfolding validate_notification_env
  validate_notification_env-ArePresent smtp webhook h =
      let l = requirements smtp webhook in
      let (_, _, required) = >>=-eq-ok (validate_names l) (λ _. require_all rt getenv l) h in
      let all = require_all-All l required in
      let (of_smtp, of_webhook) =
        All-split (λ e. IsPresent e.1) (if smtp.enabled then smtp_requirements smtp else [])
          (if webhook.enabled then webhook_requirements webhook else []) all in
      record {
        mail = λ on.
            let (username, (password, (recipients, (from, _)))) =
              All-on (λ e. IsPresent e.1) smtp.enabled (smtp_requirements smtp) of_smtp on in
            (username, password, recipients, from);
        web = λ on.
            let (url, (auth_header, _)) =
              All-on (λ e. IsPresent e.1) webhook.enabled (webhook_requirements webhook) of_webhook
                on in
            (url, auth_header);
      }
