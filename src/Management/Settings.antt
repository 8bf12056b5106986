-- ===== src/Management/Settings.antt =====
-- `validateSettings` of internal/management/ui.go. A function for the environment that is nil is one
-- that finds nothing.
pub mod Valid
use cpa_quota_alert_plugin.Base.{
  ltb, ◌+◌, eqb, String, Char, code, len, Bool, true, false, not, ◌||◌, Option, none, some, List,
  [], ◌∷◌, ◌==◌, if◌then◌else◌, Result, ok, err, contains, contains_char, contains_text, any,
  is_blank, length,
}
use cpa_quota_alert_plugin.Base.Dict.{Dict, lookup}
use cpa_quota_alert_plugin.Runtime.{Runtime, Fields}
use cpa_quota_alert_plugin.Quota.Wham.{value_at}
use cpa_quota_alert_plugin.Config.Values.{object_value}
use cpa_quota_alert_plugin.Config.Parse.{Config, parse}
use cpa_quota_alert_plugin.Wiring.{channels}
use cpa_quota_alert_plugin.Management.Types.{Response, error_response, rejected, valid_settings}

-- '\r', '\n' and '\0'
abbrev is_control : Char → Bool
is_control c = let n = code c in eqb n 13 || eqb n 10 || eqb n 0

abbrev is_bad_name : String → Bool
is_bad_name name = name == "" || ltb 128 (len name)

abbrev is_there {ℓ} : {A : Type ℓ} → Option A → Bool
is_there none = false
is_there (some _) = true

-- The first loop: a name to clear that cannot be, or that is set as well.
unfoldable pub is_bad_clear : Dict String → String → Bool
unfolding lookup
is_bad_clear set name = is_bad_name name || is_there (lookup name set)

-- The second loop.
unfoldable pub is_bad_secret : String × String → Bool
unfolding contains_char
is_bad_secret (name, value) =
    is_bad_name name || is_blank value || ltb 4096 (len value) || contains_char is_control value

-- The environment with the secrets that are not stored yet.
unfoldable pub pending_env :
    Dict String → List String → (String → String) → (String → String) → String → String
unfolding lookup
pending_env set clear getenv base_getenv name = elim (lookup name set) [
  | some value ↦ value
  | none ↦ if contains clear name then base_getenv name else getenv name
]

abbrev candidate_fields : List String
candidate_fields =
    "dry_run" ∷ "concurrency" ∷ "request_timeout_seconds" ∷ "retry_attempts" ∷ "stale_after_seconds"
    ∷ "low_threshold" ∷ "recovery_threshold" ∷ "reminder_seconds" ∷ "failure_alert_count"
    ∷ "state_path" ∷ "quota_url" ∷ "allowed_quota_hosts" ∷ "ignored_plans" ∷ "terminal_error_codes"
    ∷ "plan_rules" ∷ "smtp" ∷ "webhook" ∷ "mail" ∷ []

-- The loop over the candidates.
unfoldable pub field_of : String → List String → String
unfolding contains_text
field_of message [] = "settings"
field_of message (candidate ∷ more) =
    let rest = field_of message more in if contains_text message candidate then candidate else rest

module _ (rt : Runtime) where
  open rt use {Float, unmarshal_object}

  -- The environment of the handler, the process's own, and `json.Unmarshal` of a request into the
  -- struct of its pending secrets, which ignores every other field.
  pub record Sources : Type 0 where
    pub getenv : String → String
    pub base_getenv : String → String
    pub decode_pending : String → Option (Dict String × List String)

  invalid_request : Response rt
  invalid_request = error_response rt 400 "invalid_request"

  -- The channels are made from the handler's environment, whatever secrets the request brings.
  answer_parsed : Sources → Result String (Config rt) → Response rt
  unfolding channels field_of
  answer_parsed sources (err message) = record {
    status_code = 400;
    body = rejected "invalid_config" (field_of message candidate_fields);
  }
  answer_parsed sources (ok cfg) = elim (channels rt cfg sources.getenv) [
    | err _ ↦ record { status_code = 400; body = rejected "invalid_notification_config" "smtp" }
    | ok _ ↦ record { status_code = 200; body = valid_settings }
  ]

  check_settings : Sources → Fields Float → (String → String) → Response rt
  unfolding parse answer_parsed
  check_settings sources raw env = answer_parsed sources (parse rt raw env)

  -- A request that wraps the settings, with the secrets of it.
  check_wrapped : Sources → Fields Float → Option (Dict String × List String) → Response rt
  unfolding is_bad_clear is_bad_secret pending_env check_settings invalid_request
  check_wrapped sources raw none = invalid_request
  check_wrapped sources raw (some (set, clear)) =
      if ltb 16 (length set + length clear)
      then invalid_request
      else if any (is_bad_clear set) clear
      then invalid_request
      else if any is_bad_secret set
      then invalid_request
      else check_settings sources raw (pending_env set clear sources.getenv sources.base_getenv)

  check_object : Sources → String → Fields Float → Response rt
  unfolding value_at check_wrapped check_settings invalid_request
  check_object sources body raw = elim (value_at rt "config" raw) [
    | none ↦ check_settings sources raw sources.getenv
    | some candidate ↦ elim (object_value rt candidate) [
      | none ↦ invalid_request
      | some cfg ↦ check_wrapped sources cfg (sources.decode_pending body)
    ]
  ]

  unfoldable pub validate_settings : Sources → String → Response rt
  unfolding check_object invalid_request
  validate_settings sources body = elim (unmarshal_object body) [
    | none ↦ invalid_request
    | some raw ↦ check_object sources body raw
  ]
