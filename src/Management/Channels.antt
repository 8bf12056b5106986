-- ===== src/Management/Channels.antt =====
-- `configuredChannels`, the summaries and the codes of internal/management/handler.go.
pub mod Unique
use cpa_quota_alert_plugin.Base.{
  String, Bool, true, false, not, ◌&&◌, ◌||◌, Option, none, some, List, [], ◌∷◌, ◌==◌,
  if◌then◌else◌, any, contains, trim_space, to_lower,
}
use cpa_quota_alert_plugin.Base.Dict.{Dict}
use cpa_quota_alert_plugin.Runtime.{Runtime}
use cpa_quota_alert_plugin.Quota.Types.{
  Snapshot, PlanBreakdown, QuotaError, plan_changed, not_computable,
}
use cpa_quota_alert_plugin.Monitor.Types.{Event, State}
use cpa_quota_alert_plugin.Codex.Types.{DiscoveryStats}
use cpa_quota_alert_plugin.Management.Types.{
  Channel, EventSummary, ChannelSummary, PlanSummary, CheckReport,
}

-- The codes that `isAllowedDeliveryCode` lets through.
abbrev pub allowed_codes : List String
allowed_codes =
    "notify_invalid_message" ∷ "notify_header_injection" ∷ "smtp_header_injection"
    ∷ "smtp_runtime_config" ∷ "smtp_invalid_address" ∷ "smtp_connect_failed" ∷ "smtp_tls_failed"
    ∷ "smtp_protocol_failed" ∷ "smtp_auth_failed" ∷ "webhook_runtime_config"
    ∷ "webhook_header_injection" ∷ "webhook_payload_failed" ∷ "webhook_request_failed"
    ∷ "webhook_status_failed" ∷ "webhook_invalid_url" ∷ []

unfoldable pub delivery_error_code : String → String
delivery_error_code code = if contains allowed_codes code then code else "delivery_failed"

abbrev pub delivery_status : Bool → String
delivery_status delivered = if delivered then "delivered" else "failed"

unfoldable pub error_code : Option QuotaError → String
error_code none = ""
error_code (some (plan_changed _)) = "plan_changed"
error_code (some not_computable) = "not_computable"

-- The keys of the senders that `deliverPending` looks up.
unfoldable pub channel_names : List Channel → List String
channel_names [] = []
channel_names (c ∷ more) = c.name ∷ channel_names more

unfoldable pub channel_summaries : List Channel → List ChannelSummary
channel_summaries [] = []
channel_summaries (c ∷ more) =
    record {
      name = c.name;
      recipient_count = if c.name == "smtp" then some c.recipient_count else none;
    }
    ∷ channel_summaries more

module _ (rt : Runtime) where
  -- The loop of `configuredChannels`, with the names seen.
  unfoldable pub configure : List String → List Channel → List Channel
  unfolding trim_space to_lower
  configure seen [] = []
  configure seen (channel ∷ more) =
      let name = trim_space (to_lower rt.lower channel.name) in
      let skip = configure seen more in
      let keep = record channel { name = name } ∷ configure (name ∷ seen) more in
      if not (name == "smtp") && not (name == "webhook")
      then skip
      else if not channel.has_sender
      then skip
      else if contains seen name
      then skip
      else keep

  unfoldable pub event_summaries : List (Event rt) → List EventSummary
  event_summaries [] = []
  event_summaries (e ∷ more) =
      record { id = e.id; kind = e.kind; delivery = e.delivery } ∷ event_summaries more

  unfoldable pub plan_breakdown : Dict (PlanBreakdown rt) → List (PlanSummary rt)
  plan_breakdown [] = []
  plan_breakdown ((name, plan) ∷ more) =
      record {
        plan = name;
        accounts = plan.accounts;
        terminal = plan.terminal_zero_count;
        remaining = plan.remaining;
      }
      ∷ plan_breakdown more

  has_undelivered : Dict String → Bool
  has_undelivered [] = false
  has_undelivered ((_, status) ∷ more) = not (status == "delivered") || has_undelivered more

  unfoldable pub has_deliverable_pending : List (Event rt) → Bool
  unfolding has_undelivered
  has_deliverable_pending events = any (λ e. has_undelivered e.delivery) events

  abbrev pub is_none {ℓ} : {A : Type ℓ} → Option A → Bool
  is_none none = true
  is_none (some _) = false

  unfoldable pub build_check_response :
      Snapshot rt → Option QuotaError → DiscoveryStats → State rt → Bool → CheckReport rt
  unfolding has_deliverable_pending event_summaries plan_breakdown error_code
  build_check_response snap error stats state dry_run = record {
    computable = is_none error;
    timestamp = snap.timestamp;
    stats = stats;
    plans = plan_breakdown snap.plans;
    partial = snap.partial;
    terminal_error_counts = snap.terminal_error_counts;
    unresolved_code_counts = snap.unresolved_code_counts;
    unknown_plan_counts = snap.unknown_plan_counts;
    events = event_summaries state.pending_events;
    would_notify = dry_run && has_deliverable_pending state.pending_events;
    delivery = [];
    error_code = error_code error;
    total = if is_none error then some snap.total else none;
  }
