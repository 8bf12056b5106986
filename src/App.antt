-- ===== src/App.antt =====
-- internal/pluginapp/app.go: the plugin's methods and its life from registration to shutdown.
pub mod Lifecycle
use cpa_quota_alert_plugin.Base.{
  ℕ, ◌+◌, ◌-◌, len, ltb, leb, String, Bool, true, false, ◌||◌, Option, none, some, List, [], ◌∷◌,
  ◌==◌, if◌then◌else◌, Result, ok, err, is_blank,
}
use cpa_quota_alert_plugin.Management.Types.{max_management_request_bytes}

-- Twice the size limit of the configuration and 4 KiB.
abbrev pub max_lifecycle_request_bytes : ℕ
max_lifecycle_request_bytes = 2101248

-- `HostSchemaVersionCPA72157`
abbrev pub host_schema_version : ℕ
host_schema_version = 6

pub record LifecycleRequest : Type 0 where
  pub schema_version : ℕ
  pub config_yaml : String

-- The envelopes that `Call` returns: `registered` holds the constant registration, `result` the raw
-- answer of the management handler, `failure` an error's code.
pub data Envelope : Type 0 where
  registered : Envelope
  shut_down : Envelope
  result : String → Envelope
  failure : String → Envelope

module _ (Config : Type 0) where
  -- The fields of an `App` that change; `calls` is the counter of the wait group.
  pub record App : Type 0 where
    pub current : Option Config
    pub closed : Bool
    pub calls : ℕ
    pub has_handler : Bool

  -- What the app is given: the strict decoders of the standard library, the parser of internal/config,
  -- and the management handler with its answer and return code.
  pub record Environment : Type 0 where
    pub decode_lifecycle : String → Option LifecycleRequest
    pub decode_one_value : String → Bool
    pub parse : String → Option Config
    pub handler : String → String → String × ℕ

  -- `Current`
  unfoldable pub current : App → Option Config
  current app = if app.closed then none else app.current

  -- `Close`
  unfoldable pub close : App → App
  close app = record app { closed = true; current = none }

  pub data ManagementError : Type 0 where
    is_shutdown is_not_configured is_unavailable : ManagementError

  -- `beginManagementCall`
  unfoldable pub begin_management_call : App → Result ManagementError App
  begin_management_call app = if app.closed then err is_shutdown else elim app.current [
    | none ↦ err is_not_configured
    | some _ ↦
        if app.has_handler then ok (record app { calls = app.calls + 1 }) else err is_unavailable
  ]

  -- `done`, which ends a call.
  unfoldable pub end_management_call : App → App
  end_management_call app = record app { calls = app.calls - 1 }

  -- `a.current = parsed`, unless the app is closed.
  unfoldable pub install : App → Config → Option App
  install app parsed = if app.closed then none else some (record app { current = some parsed })

  module _ (env : Environment) where
    unfoldable pub decode_lifecycle_request : String → Option LifecycleRequest
    decode_lifecycle_request raw =
        if is_blank raw
        then some (record { schema_version = 0; config_yaml = "" })
        else elim (env.decode_lifecycle raw) [
          | none ↦ none
          | some req ↦ if ltb host_schema_version req.schema_version then none else some req
        ]

    -- `configure` up to the lock.
    unfoldable pub parse_lifecycle : String → Option Config
    unfolding decode_lifecycle_request
    parse_lifecycle request =
        if ltb max_lifecycle_request_bytes (len request)
        then none
        else elim (decode_lifecycle_request request) [
          | none ↦ none
          | some req ↦ env.parse req.config_yaml
        ]

    configured : App → Option App → Envelope × ℕ × App
    configured app none = (failure "plugin_shutdown", 1, app)
    configured app (some app') = (registered, 0, app')

    -- The register and reconfigure methods.
    unfoldable pub configure : App → String → Envelope × ℕ × App
    unfolding configured install parse_lifecycle
    configure app request = elim (parse_lifecycle request) [
      | none ↦ (failure "invalid_config", 1, app)
      | some parsed ↦ configured app (install app parsed)
    ]

    handled : String × ℕ → Envelope × ℕ
    handled (raw, code) =
        if ltb 0 code
        then (failure "management_error", 1)
        else if raw == ""
        then (failure "plugin_error", 0)
        else (result raw, 0)

    unfoldable pub call_management : App → String → String → Envelope × ℕ × App
    unfolding begin_management_call end_management_call handled
    call_management app method request = elim (begin_management_call app) [
      | err is_shutdown ↦ (failure "plugin_shutdown", 1, app)
      | err is_not_configured ↦ (failure "not_configured", 1, app)
      | err is_unavailable ↦ (failure "management_unavailable", 1, app)
      | ok started ↦
          let (envelope, code) = handled (env.handler method request) in
          (envelope, code, end_management_call started)
    ]

    -- `validateManagementRegisterRequest`
    unfoldable pub accepts_register_request : String → Bool
    accepts_register_request raw =
        if ltb max_management_request_bytes (len raw)
        then false
        else is_blank raw || env.decode_one_value raw

    -- The switch of `Call`.
    unfoldable pub call : App → String → String → Envelope × ℕ × App
    unfolding configure call_management accepts_register_request close
    call app method request =
        if method == "plugin.register" || method == "plugin.reconfigure"
        then configure app request
        else if method == "management.register"
        then (if accepts_register_request request
            then call_management app method request
            else (failure "invalid_request", 1, app))
        else if method == "management.handle"
        then call_management app method request
        else if method == "plugin.shutdown"
        then (shut_down, 0, close app)
        else if method == ""
        then (failure "invalid_method", 1, app)
        else (failure "unknown_method", 0, app)
