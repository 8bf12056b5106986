-- ===== src/Management/Handle.antt =====
-- `Call`, `handle`, `decodeRequest` and `normalizePath` of internal/management/handler.go.
pub mod Methods
use Prim.Native.String.{slice}
use cpa_quota_alert_plugin.Base.{
  len, ltb, String, ◌||◌, Option, none, some, List, [], ◌==◌, if◌then◌else◌, Result, ok, err,
  trim_space, is_blank, starts_with,
}
use cpa_quota_alert_plugin.Runtime.{Runtime}
use cpa_quota_alert_plugin.Management.Types.{
  max_request_body_bytes, max_management_request_bytes, Request, settings, ui, registration,
  Response, error_response, Server, Effect, Dependencies,
}
use cpa_quota_alert_plugin.Management.Check.{Outcome, check}
use cpa_quota_alert_plugin.Management.Status.{status, test_notification}
use cpa_quota_alert_plugin.Management.Secrets.{secrets}

pub data RequestError : Type 0 where
  too_large invalid : RequestError

-- The handlers behind the paths.
pub data Route : Type 0 where
  check_route status_route test_route config_route secrets_route validate_route ui_route : Route
  no_route : Route

-- The switch of `handle` over the paths.
unfoldable pub route_of : String → Route
route_of path =
    if path == "/cpa-quota-alert/check"
    then check_route
    else if path == "/cpa-quota-alert/status"
    then status_route
    else if path == "/cpa-quota-alert/test-notification"
    then test_route
    else if path == "/cpa-quota-alert/effective-config"
    then config_route
    else if path == "/cpa-quota-alert/secrets"
    then secrets_route
    else if path == "/cpa-quota-alert/validate"
    then validate_route
    else if path == "/v0/resource/plugins/cpa-quota-alert-plugin/ui"
    then ui_route
    else no_route

-- The prefix is cut where a slash follows it.
unfoldable pub normalize_path : String → String
unfolding trim_space
normalize_path path =
    let p = trim_space path in if starts_with p "/v0/management/" then slice p 14 (len p) else p

module _ (rt : Runtime) (deps : Dependencies rt) (upper : String → String) where
  -- `strings.ToUpper` is an argument.
  decoded : Option Request → Result RequestError Request
  unfolding trim_space
  decoded none = err invalid
  decoded (some req) =
      let method = upper (trim_space req.method) in
      if method == "" || is_blank req.path
      then err invalid
      else if ltb max_request_body_bytes (len req.body)
      then err too_large
      else ok (record req { method = method })

  unfoldable pub decode_request : String → Result RequestError Request
  unfolding decoded
  decode_request raw =
      if ltb max_management_request_bytes (len raw)
      then err too_large
      else if is_blank raw
      then err invalid
      else decoded (deps.decode_request raw)

  abbrev answer : Server rt → Response rt → Outcome rt deps
  answer server response = record { response = response; server = server; effects = [] }

  abbrev answer_with : Server rt → Response rt × List (Effect rt) → Outcome rt deps
  answer_with server (response, effects) = record {
    response = response;
    server = server;
    effects = effects;
  }

  -- `effectiveConfig`
  effective_config : Response rt
  effective_config = elim deps.config [
    | none ↦ error_response rt 503 "not_configured"
    | some cfg ↦ record { status_code = 200; body = settings cfg }
  ]

  abbrev pub expect : String → Request → Server rt → Outcome rt deps → Outcome rt deps
  expect method req server outcome =
      if req.method == method
      then outcome
      else answer server (error_response rt 405 "method_not_allowed")

  unfoldable pub serve : Route → Request → Server rt → Outcome rt deps
  unfolding effective_config
  serve check_route req server = expect "POST" req server (check rt deps req.body server)
  serve status_route req server = expect "GET" req server (
      if is_blank req.body
      then answer server (status rt deps server)
      else answer server (error_response rt 400 "unsupported_body"))
  serve test_route req server =
      expect "POST" req server (answer_with server (test_notification rt deps req.body))
  serve config_route req server = expect "GET" req server (answer server effective_config)
  serve secrets_route req server = answer_with server (secrets rt deps req)
  serve validate_route req server =
      expect "POST" req server (answer server (deps.validate req.body))
  serve ui_route req server =
      expect "GET" req server (answer server (record { status_code = 200; body = ui }))
  serve no_route req server = answer server (error_response rt 404 "not_found")

  unfoldable pub handle : String → Server rt → Outcome rt deps
  unfolding decode_request serve route_of normalize_path
  handle raw server = elim (decode_request raw) [
    | err too_large ↦ answer server (error_response rt 413 "request_too_large")
    | err invalid ↦ answer server (error_response rt 400 "invalid_request")
    | ok req ↦ serve (route_of (normalize_path req.path)) req server
  ]

  -- `Call`, whose return code is always 0.
  unfoldable pub call : String → String → Server rt → Outcome rt deps
  unfolding handle
  call method request server =
      if method == "management.register"
      then answer server (record { status_code = 200; body = registration })
      else if method == "management.handle"
      then handle request server
      else if method == ""
      then answer server (error_response rt 400 "invalid_method")
      else answer server (error_response rt 404 "unknown_method")
