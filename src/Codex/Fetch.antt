-- ===== src/Codex/Fetch.antt =====
-- `fetchQuota`, `classifyHTTPError` and `responseErrorCode` of internal/codexquota/service.go.
pub mod Retries
use cpa_quota_alert_plugin.Base.{
  ℕ, zero, suc, ◌+◌, ℤ, pos, ltb, ltb_ℤ, leb_ℤ, pos_part, increment, String, ◌<>◌, Bool, true,
  false, not, ◌&&◌, ◌||◌, Option, none, some, List, [], ◌∷◌, ◌==◌, if◌then◌else◌, Result, ok, err,
  any, trim_space, is_blank,
}
use cpa_quota_alert_plugin.Base.Dict.{Dict}
use cpa_quota_alert_plugin.Runtime.{Runtime, Any, text, object, Fields}
use cpa_quota_alert_plugin.Quota.Types.{Rules, normalize}
use cpa_quota_alert_plugin.Quota.Wham.{value_at}
use cpa_quota_alert_plugin.Codex.Types.{
  HostError, deadline_exceeded, canceled, invalid_envelope, invalid_result, other_error, callback,
  Outcome, failed, responded, Settings,
}

abbrev pub between : ℕ → ℕ → ℤ → Bool
between lo hi n = leb_ℤ (pos lo) n && leb_ℤ n (pos hi)

module _ (rt : Runtime) where
  open rt use {Float, itoa}

  unfoldable pub classify_http_error : HostError → String
  classify_http_error deadline_exceeded = "request_timeout"
  classify_http_error canceled = "request_canceled"
  classify_http_error (callback status retryable) =
      if between 100 599 status
      then (if retryable
          then "host_callback_retryable_" <> itoa status
          else "host_callback_" <> itoa status)
      else if retryable
      then "host_callback_retryable"
      else "host_callback"
  classify_http_error invalid_envelope = "host_invalid_envelope"
  classify_http_error invalid_result = "host_invalid_result"
  classify_http_error other_error = "host_http_error"

  abbrev code_text : Option (Any Float) → String
  code_text (some (text s)) = trim_space s
  code_text _ = ""

  nested_code : Fields Float → String → String
  unfolding value_at trim_space
  nested_code raw key = elim (value_at rt key raw) [
    | some (object obj) ↦ code_text (value_at rt "code" obj)
    | _ ↦ ""
  ]

  unfoldable pub first_response_code : Fields Float → String
  unfolding nested_code
  first_response_code raw =
      let error = nested_code raw "error" in
      let detail = nested_code raw "detail" in
      if error == ""
      then (if detail == "" then code_text (value_at rt "code" raw) else detail)
      else error

  -- `normalizeByObservation` is `normalize`, but on "", which the first test excludes.
  unfoldable pub is_terminal_error_code : Settings rt → String → Bool
  unfolding normalize trim_space
  is_terminal_error_code cfg code =
      not (is_blank code)
      && any (λ terminal. normalize rt terminal == normalize rt code) cfg.terminal_error_codes

  unfoldable pub response_error_code : Settings rt → ℤ → String → String
  unfolding first_response_code is_terminal_error_code
  response_error_code cfg status body =
      let http = "http_" <> itoa status in
      elim (rt.unmarshal_object body) [
        | none ↦ http
        | some raw ↦
            let code = first_response_code raw in
            if is_terminal_error_code cfg code then code else http
      ]

  -- What one attempt gives: the body, or the error's code.
  unfoldable pub result_of : Settings rt → Outcome → Result String String
  unfolding classify_http_error response_error_code
  result_of cfg (failed e) = err (classify_http_error e)
  result_of cfg (responded status body) =
      if between 200 299 status then ok body else err (response_error_code cfg status body)

  -- Whether another attempt may follow: a retryable error of the host, or a server error.
  unfoldable pub is_retryable : Outcome → Bool
  is_retryable (failed (callback status retryable)) = retryable
  is_retryable (failed _) = false
  is_retryable (responded status body) = between 500 599 status

  -- The loop, with the attempts left, and how many requests it makes.
  unfoldable pub fetch_loop :
      Settings rt → (ℕ → Outcome) → ℕ → ℕ → String → Result String String × ℕ
  unfolding result_of is_retryable
  fetch_loop cfg request zero attempt last_code = (err last_code, 0)
  fetch_loop cfg request (suc left) attempt last_code =
      let outcome = request attempt in
      let r = result_of cfg outcome in
      let code : String = elim r [ ok _ ↦ last_code | err c ↦ c ] in
      let rest = fetch_loop cfg request left (suc attempt) code in
      if is_retryable outcome && ltb 0 left then (rest.0, suc rest.1) else (r, 1)

  -- `attempts`: at least one, also where the increment wraps.
  unfoldable pub attempts : Settings rt → ℕ
  attempts cfg = let n = increment cfg.retry_attempts in if ltb_ℤ n (pos 1) then 1 else pos_part n

  unfoldable pub fetch_quota : Settings rt → (ℕ → Outcome) → Result String String × ℕ
  unfolding fetch_loop attempts
  fetch_quota cfg request = fetch_loop cfg request (attempts cfg) 0 ""
