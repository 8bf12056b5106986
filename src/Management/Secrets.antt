-- ===== src/Management/Secrets.antt =====
-- `secrets` of internal/management/ui.go: the names of the stored values, and their update.
pub mod Allowed
use cpa_quota_alert_plugin.Base.{
  ◌+◌, ltb, String, Bool, not, ◌&&◌, ◌||◌, Option, none, some, List, [], ◌∷◌, ◌==◌, if◌then◌else◌,
  any, starts_with, is_blank, length,
}
use cpa_quota_alert_plugin.Base.Dict.{Dict, keys}
use cpa_quota_alert_plugin.Runtime.{Runtime}
use cpa_quota_alert_plugin.Management.Types.{
  Request, Config, stored_names, Response, error_response, Effect, updated, Dependencies,
}

module _ (rt : Runtime) (deps : Dependencies rt) where
  names_response : Option (List String) → Response rt
  names_response none = error_response rt 503 "private_store_unavailable"
  names_response (some names) = record { status_code = 200; body = stored_names names }

  -- One of the configured names, none of which is empty, or one with the plugin's prefix.
  unfoldable pub may_store : Config rt → String → Bool
  may_store cfg name =
      any (λ allowed. not (allowed == "") && allowed == name) cfg.secret_names
      || starts_with name "CPA_QUOTA_ALERT_"

  apply_update : Config rt → Dict String → List String → Response rt × List (Effect rt)
  unfolding may_store names_response
  apply_update cfg set clear =
      if any (λ name. not (may_store cfg name)) (keys set)
        || any (λ name. not (may_store cfg name)) clear
      then (error_response rt 400 "invalid_notification_name", [])
      else if deps.update set clear
      then (names_response deps.names_after, updated set clear ∷ [])
      else (error_response rt 400 "private_store_update_failed", [])

  put_secrets : String → Response rt × List (Effect rt)
  unfolding apply_update
  put_secrets body = elim (deps.decode_update body) [
    | none ↦ (error_response rt 400 "invalid_request", [])
    | some (set, clear) ↦
        if ltb 16 (length set + length clear)
        then (error_response rt 400 "invalid_request", [])
        else elim deps.config [
          | none ↦ (error_response rt 503 "not_configured", [])
          | some cfg ↦ apply_update cfg set clear
        ]
  ]

  unfoldable pub secrets : Request → Response rt × List (Effect rt)
  unfolding put_secrets names_response
  secrets req =
      if deps.has_secret_store
      then (if req.method == "GET"
          then (if is_blank req.body
              then (names_response deps.names, [])
              else (error_response rt 400 "unsupported_body", []))
          else if req.method == "PUT"
          then put_secrets req.body
          else (error_response rt 405 "method_not_allowed", []))
      else (error_response rt 503 "private_store_unavailable", [])
