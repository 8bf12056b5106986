-- ===== src/Notify/Webhook.antt =====
-- internal/notify/webhook.go. The encoder of JSON and the HTTP client are parameters.
pub mod Safety
use cpa_quota_alert_plugin.Base.{
  ℕ, ℤ, pos, eqb, ltb_ℤ, leb_ℤ, String, Char, code, ◌<>◌, Bool, true, false, not, ◌&&◌, ◌||◌,
  Option, none, some, List, [], ◌∷◌, ◌==◌, if◌then◌else◌, Result, ok, err, ◌>>=◌, trim_space,
}
use cpa_quota_alert_plugin.Runtime.{Runtime, Url}
use cpa_quota_alert_plugin.Config.Channels.{WebhookConfig}
use cpa_quota_alert_plugin.Config.Values.{refuse, normalize_host}
use cpa_quota_alert_plugin.Notify.{Message, has_header_injection, validate_message, occurred_at}

pub record Request : Type 0 where
  pub method : String
  pub url : Url
  pub authorization : String
  pub payload : String

-- The encoding of a message, whether a request can be made, and the status of its answer.
pub record HttpClient : Type 0 where
  pub marshal : Message → Option String
  pub accepts : Request → Bool
  pub status : Request → Option ℤ

module _ (rt : Runtime) where
  open rt use {upper, parse_url, is_loopback_ip}

  unfoldable pub is_loopback_host : String → Bool
  unfolding normalize_host
  is_loopback_host raw =
      let host = normalize_host rt raw in host == "localhost" || is_loopback_ip host

  unfoldable pub check_url : Url → Result String Url
  unfolding is_loopback_host
  check_url url =
      if not url.is_absolute || url.hostname == "" || not url.is_bare
      then err "webhook_invalid_url"
      else if url.scheme == "https" || (url.scheme == "http" && is_loopback_host url.hostname)
      then ok url
      else err "webhook_invalid_url"

  unfoldable pub validate_webhook_url : String → Result String Url
  unfolding check_url
  validate_webhook_url raw = elim (parse_url raw) [
    | none ↦ err "webhook_invalid_url"
    | some url ↦ check_url url
  ]

  marshalled : HttpClient → ℕ → Message → Result String String
  marshalled client now msg =
      elim (client.marshal (record msg { occurred_at = occurred_at now msg.occurred_at })) [
        | none ↦ err "webhook_payload_failed"
        | some payload ↦ ok payload
      ]

  -- The checks and the request that they end in.
  unfoldable pub prepare :
      WebhookConfig → (String → String) → HttpClient → ℕ → Message → Result String Request
  unfolding validate_message has_header_injection trim_space validate_webhook_url marshalled
  prepare cfg getenv client now msg =
      let method = upper (if cfg.method == "" then "POST" else cfg.method) in
      let raw_url = trim_space (getenv cfg.url_env) in
      let auth_header = trim_space (getenv cfg.auth_header_env) in
      validate_message msg >>= λ _.
      refuse (not (method == "POST") && not (method == "PUT")) "webhook_runtime_config" >>= λ _.
      refuse (raw_url == "" || auth_header == "") "webhook_runtime_config" >>= λ _.
      refuse (has_header_injection raw_url || has_header_injection auth_header)
        "webhook_header_injection"
      >>= λ _. validate_webhook_url raw_url >>= λ url. marshalled client now msg >>= λ payload.
          let request : Request = record {
            method = method;
            url = url;
            authorization = auth_header;
            payload = payload;
          } in
          refuse (not (client.accepts request)) "webhook_request_failed" >>= λ _. ok request

  answer_code : Option ℤ → Option String
  answer_code none = some "webhook_request_failed"
  answer_code (some status) =
      if ltb_ℤ status (pos 200) || leb_ℤ (pos 300) status
      then some "webhook_status_failed"
      else none

  -- `Send`: the code of its error, and the request that it sent.
  unfoldable pub send :
      WebhookConfig → (String → String) → HttpClient → ℕ → Message → Option String × Option Request
  unfolding prepare answer_code
  send cfg getenv client now msg =
      if not cfg.enabled then (none, none) else elim (prepare cfg getenv client now msg) [
        | err e ↦ (some e, none)
        | ok request ↦ (answer_code (client.status request), some request)
      ]
