-- ===== src/Management/Settings/Valid.antt =====
-- What it means that settings are valid.
use cpa_quota_alert_plugin.Base.{
  >>=-eq-ok, Option-cases, Result-cases, ℕ, String, true, Option, none, some, List, ◌≡◌, refl, sym,
  ◌∙◌, arith, inl, inr, Result, ok, err, ◌++◌, contains, false,
}
use cpa_quota_alert_plugin.Base.Dict.{Dict, lookup}
use cpa_quota_alert_plugin.Runtime.{Runtime, Any, Fields, Address}
use cpa_quota_alert_plugin.Quota.Wham.{value_at}
use cpa_quota_alert_plugin.Config.Values.{object_value}
use cpa_quota_alert_plugin.Config.Channels.{SmtpConfig}
use cpa_quota_alert_plugin.Config.Parse.{Config, parse}
use cpa_quota_alert_plugin.Config.Parse.Bounds.{IsValid, parse-IsValid}
use cpa_quota_alert_plugin.Notify.Recipients.{parse_recipients, recipient_count}
use cpa_quota_alert_plugin.Notify.Recipients.Equivalence.{counted, recipient_count-counted}
use cpa_quota_alert_plugin.Wiring.{smtp_channel, webhook_channel, channels}
use cpa_quota_alert_plugin.Management.Types.{Channel, Response, valid_settings}
use cpa_quota_alert_plugin.Management.Settings.{
  pending_env, Sources, answer_parsed, check_settings, check_wrapped, check_object,
  validate_settings,
}

-- An environment with the changes of a request: the value that it sets; for a name that it clears,
-- the process's own; for any other, the handler's.
pub record IsPending (set : Dict String) (clear : List String)
    (getenv base_getenv environment : String → String) : Type 0 where
  pub at_set : (name value : String) → lookup name set ≡ some value → environment name ≡ value
  pub at_cleared :
      (name : String)
      → lookup name set ≡ none
      → contains clear name ≡ true
      → environment name ≡ base_getenv name
  pub at_other :
      (name : String)
      → lookup name set ≡ none
      → contains clear name ≡ false
      → environment name ≡ getenv name

pending_env-IsPending :
    (set : Dict String) (clear : List String) (getenv base_getenv : String → String)
    → IsPending set clear getenv base_getenv (pending_env set clear getenv base_getenv)
unfolding pending_env
pending_env-IsPending set clear getenv base_getenv = record {
  at_set = λ name value h. ground arith;
  at_cleared = λ name h c. ground arith;
  at_other = λ name h c. ground arith;
}

module _ (rt : Runtime) where
  open rt use {Float}

  -- The sender parses the recipients that the environment names.
  abbrev pub CanMail : (String → String) → SmtpConfig → Type 0
  CanMail getenv smtp =
      smtp.enabled ≡ true
      → (l : List Address) × (parse_recipients rt (getenv smtp.recipients_env) ≡ ok l)

  -- The settings that a request asks about, and the environment that they are read in: the whole
  -- body and the handler's own, or the object under "config" and the handler's with the pending
  -- changes of the request.
  pub data Asks (sources : Sources rt) (body : String)
      : Fields Float → (String → String) → Type 0 where
    bare :
        {raw : Fields Float}
        → rt.unmarshal_object body ≡ some raw
        → value_at rt "config" raw ≡ none
        → Asks sources body raw sources.getenv
    wrapped :
        {raw config : Fields Float} {candidate : Any Float} {set : Dict String}
        {clear : List String} {environment : String → String}
        → rt.unmarshal_object body ≡ some raw
        → value_at rt "config" raw ≡ some candidate
        → object_value rt candidate ≡ some config
        → sources.decode_pending body ≡ some (set, clear)
        → IsPending set clear sources.getenv sources.base_getenv environment
        → Asks sources body config environment

  -- The settings that a request asks about are accepted, as a well-formed configuration.
  pub record IsUsable (sources : Sources rt) (body : String) : Type 0 where
    pub raw : Fields Float
    pub environment : String → String
    pub asked : Asks sources body raw environment
    pub cfg : Config rt
    pub parsed : parse rt raw environment ≡ ok cfg
    pub valid : IsValid rt environment cfg
    pub mail : CanMail sources.getenv cfg.smtp

  counted-parsed :
      (r : Result String (List Address)) (n : ℕ)
      → counted 0 r ≡ ok n
      → (l : List Address) × (r ≡ ok l)
  counted-parsed (err e) n h = absurd (ground arith)
  counted-parsed (ok l) n h = (l, refl)

  smtp_channel-CanMail :
      (smtp : SmtpConfig) (getenv : String → String) (l : List Channel)
      → smtp_channel rt smtp getenv ≡ ok l
      → CanMail getenv smtp
  unfolding smtp_channel
  smtp_channel-CanMail smtp getenv l h on =
      let raw = getenv smtp.recipients_env in
      elim (Result-cases (recipient_count rt raw)) [
        | inl (e, bad) ↦ absurd (ground arith)
        | inr (n, made) ↦
            counted-parsed (parse_recipients rt raw) n (sym (recipient_count-counted rt raw) ∙ made)
      ]

  channels-CanMail :
      (cfg : Config rt) (getenv : String → String) (l : List Channel)
      → channels rt cfg getenv ≡ ok l
      → CanMail getenv cfg.smtp
  unfolding channels
  channels-CanMail cfg getenv l h =
      let (first, made, _) =
        >>=-eq-ok (smtp_channel rt cfg.smtp getenv)
          (λ first. ok (first ++ webhook_channel rt cfg.webhook)) h in
      smtp_channel-CanMail cfg.smtp getenv first made

  -- The answer says that the settings are valid only where they are.
  abbrev IsSound : Sources rt → String → Response rt → Type 0
  IsSound sources body response = response.body ≡ valid_settings → IsUsable sources body

  check_settings-IsSound :
      (sources : Sources rt) (body : String) (raw : Fields Float) (environment : String → String)
      → Asks sources body raw environment
      → IsSound sources body (check_settings rt sources raw environment)
  unfolding check_settings answer_parsed
  check_settings-IsSound sources body raw environment asked h =
      elim (Result-cases (parse rt raw environment)) [
        | inl (e, bad) ↦ absurd (ground arith)
        | inr (cfg, parsed) ↦ elim (Result-cases (channels rt cfg sources.getenv)) [
          | inl (e, bad) ↦ absurd (ground arith)
          | inr (l, made) ↦ record {
            raw = raw;
            environment = environment;
            asked = asked;
            cfg = cfg;
            parsed = parsed;
            valid = parse-IsValid rt raw environment cfg parsed;
            mail = channels-CanMail cfg sources.getenv l made;
          }
        ]
      ]

  -- The environment of a request that is checked is the one with its pending changes.
  check_wrapped-IsSound :
      (sources : Sources rt) (body : String) (config : Fields Float)
      (pending : Option (Dict String × List String))
      → ((set : Dict String) (clear : List String)
          → pending ≡ some (set, clear)
          → Asks sources body config (pending_env set clear sources.getenv sources.base_getenv))
      → IsSound sources body (check_wrapped rt sources config pending)
  unfolding check_wrapped
  check_wrapped-IsSound sources body config none asked h = absurd (ground arith)
  check_wrapped-IsSound sources body config (some (set, clear)) asked h =
      let env = pending_env set clear sources.getenv sources.base_getenv in
      check_settings-IsSound sources body config env (asked set clear refl) (ground arith)

  check_object-IsSound :
      (sources : Sources rt) (body : String) (raw : Fields Float)
      → rt.unmarshal_object body ≡ some raw
      → IsSound sources body (check_object rt sources body raw)
  unfolding check_object
  check_object-IsSound sources body raw read h = elim (Option-cases (value_at rt "config" raw)) [
    | inl missing ↦
        check_settings-IsSound sources body raw sources.getenv (bare read missing) (ground arith)
    | inr (candidate, found) ↦ elim (Option-cases (object_value rt candidate)) [
      | inl bad ↦ absurd (ground arith)
      | inr (config, is_object) ↦
          check_wrapped-IsSound sources body config (sources.decode_pending body)
            (λ set clear decoded.
              wrapped read found is_object decoded
                (pending_env-IsPending set clear sources.getenv sources.base_getenv))
            (ground arith)
    ]
  ]

  -- The settings that a request asks about, its own body or the object under "config" there, are
  -- answered to be valid only if they parse, with the secrets that the request sets and clears, to a
  -- configuration that is well formed, and if, where its mail channel is enabled, the sender parses the
  -- recipients that the handler's environment names.
  pub validate_settings-IsUsable :
      (sources : Sources rt) (body : String)
      → (validate_settings rt sources body).body ≡ valid_settings
      → IsUsable sources body
  unfolding validate_settings
  validate_settings-IsUsable sources body h = elim (Option-cases (rt.unmarshal_object body)) [
    | inl bad ↦ absurd (ground arith)
    | inr (raw, found) ↦ check_object-IsSound sources body raw found (ground arith)
  ]
