-- ===== src/Management/Types.antt =====
-- The types of internal/management/handler.go, and what a request's handler is given.
use cpa_quota_alert_plugin.Base.{ℕ, ℤ, String, Bool, Option, List}
use cpa_quota_alert_plugin.Base.Dict.{Dict}
use cpa_quota_alert_plugin.Runtime.{Runtime}
use cpa_quota_alert_plugin.Quota.Types.{AccountObservation}
use cpa_quota_alert_plugin.Monitor.Types.{Event, State}
use cpa_quota_alert_plugin.Codex.Types.{DiscoveryStats}

-- 64 KiB, and twice that and 4 KiB
abbrev pub max_request_body_bytes : ℕ
max_request_body_bytes = 65536

abbrev pub max_management_request_bytes : ℕ
max_management_request_bytes = 135168

pub record Request : Type 0 where
  pub host_callback_id : String
  pub method : String
  pub path : String
  pub body : String

-- A channel as the factory gives it; one whose sender is nil has `has_sender` unset.
pub record Channel : Type 0 where
  pub name : String
  pub has_sender : Bool
  pub recipient_count : ℕ

pub record EventSummary : Type 0 where
  pub id : String
  pub kind : String
  pub delivery : Dict String

pub record DeliveryResult : Type 0 where
  pub event_id : String
  pub channel : String
  pub status : String
  pub error_code : String

pub record ChannelSummary : Type 0 where
  pub name : String
  pub recipient_count : Option ℕ

module _ (rt : Runtime) where
  -- The fields of the configuration that the handlers read.
  pub record Config : Type 0 where
    pub dry_run : Bool
    pub stale_after_seconds : ℤ
    pub low_threshold : rt.Float
    pub recovery_threshold : rt.Float
    pub reminder_seconds : ℤ
    pub failure_alert_count : ℤ
    -- the environment names of `SMTP` and `Webhook`
    pub secret_names : List String

  pub record PlanSummary : Type 0 where
    pub plan : String
    pub accounts : ℕ
    pub terminal : ℕ
    pub remaining : rt.Float

  -- `buildCheckResponse`
  pub record CheckReport : Type 0 where
    pub computable : Bool
    pub timestamp : ℕ
    pub stats : DiscoveryStats
    pub plans : List PlanSummary
    pub partial : Bool
    pub terminal_error_counts : Dict ℕ
    pub unresolved_code_counts : Dict ℕ
    pub unknown_plan_counts : Dict ℕ
    pub events : List EventSummary
    pub would_notify : Bool
    pub delivery : List DeliveryResult
    pub error_code : String
    pub total : Option rt.Float

  pub record StatusReport : Type 0 where
    pub dry_run : Bool
    pub last_check_at : ℕ
    pub last_valid_total : rt.Float
    pub last_valid_at : ℕ
    pub stale : Bool
    pub low_active : Bool
    pub plan_changed_active : Bool
    pub error_active : Bool
    pub failure_count : ℤ
    pub pending_events : List EventSummary
    pub channels : List ChannelSummary

  -- The JSON objects that the responses hold. `settings` is that of `effectiveSettings`.
  pub data Body : Type 0 where
    error : String → Body
    check_report : CheckReport → Body
    not_configured : Body
    status_report : StatusReport → Body
    test_report : Bool → List DeliveryResult → Body
    stored_names : List String → Body
    settings : Config → Body
    -- the error code and the field of settings that are not valid
    rejected : String → String → Body
    valid_settings : Body
    ui : Body
    -- the constant routes and resources of the registration
    registration : Body

  pub record Response : Type 0 where
    pub status_code : ℕ
    pub body : Body

  abbrev pub error_response : ℕ → String → Response
  error_response status code = record { status_code = status; body = error code }

  -- The fields of a `Handler` that change.
  pub record Server : Type 0 where
    pub running : Bool
    pub last_check_at : ℕ

  -- What a handler does to the world, in order.
  pub data Effect : Type 0 where
    saved : State rt → Effect
    sent : String → Event rt → Effect
    sent_test : String → Effect
    updated : Dict String → List String → Effect

  -- The answers that the dependencies give in one call. The number of a save is its place among the
  -- saves of the call. `render` is the error code of `messageForEvent`, and `send` that of the channel's
  -- sender, `none` where they succeed.
  pub record Dependencies : Type 0 where
    pub config : Option Config
    pub new_store : Bool
    pub load : Option (State rt)
    pub save : ℕ → Bool
    pub new_checker : Bool
    pub channels : Option (List Channel)
    pub check : List (AccountObservation rt) × DiscoveryStats
    pub now : ℕ
    pub render : Event rt → Option String
    pub send : String → Event rt → Option String
    pub render_test : Option String
    pub send_test : String → Option String
    pub has_secret_store : Bool
    -- `Names` before and after an update, and `Update`
    pub names : Option (List String)
    pub names_after : Option (List String)
    pub update : Dict String → List String → Bool
    -- the strict JSON decoders of the standard library: one value, no unknown field, nothing behind it
    pub decode_request : String → Option Request
    pub decode_action : String → Option Bool
    pub decode_update : String → Option (Dict String × List String)
    -- what `validateSettings` answers
    pub validate : String → Response
