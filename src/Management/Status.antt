-- ===== src/Management/Status.antt =====
-- `status` and `testNotification` of internal/management/handler.go.
use cpa_quota_alert_plugin.Base.{
  ℕ, ltb, eqb, ltb_ℤ, String, Bool, true, false, ◌||◌, Option, none, some, List, [], ◌∷◌,
  if◌then◌else◌, ok, err,
}
use cpa_quota_alert_plugin.Runtime.{Runtime}
use cpa_quota_alert_plugin.Monitor.Types.{State, time_sub, seconds}
use cpa_quota_alert_plugin.Management.Types.{
  Channel, Config, DeliveryResult, status_report, not_configured, test_report, Response,
  error_response, Server, Effect, sent_test, Dependencies,
}
use cpa_quota_alert_plugin.Management.Channels.{
  configure, channel_summaries, event_summaries, delivery_error_code,
}
use cpa_quota_alert_plugin.Management.Check.{decode_action_body}

module _ (rt : Runtime) (deps : Dependencies rt) where
  -- No valid check, one in the future, or one too long ago.
  unfoldable pub is_stale : Config rt → ℕ → Bool
  unfolding time_sub seconds
  is_stale cfg last_valid_at =
      eqb last_valid_at 0
      || ltb deps.now last_valid_at
      || ltb_ℤ (seconds cfg.stale_after_seconds) (time_sub deps.now last_valid_at)

  status_of : Config rt → State rt → List Channel → Server rt → Response rt
  unfolding is_stale event_summaries channel_summaries
  status_of cfg state channels server = record {
    status_code = 200;
    body = status_report (record {
      dry_run = cfg.dry_run;
      last_check_at = server.last_check_at;
      last_valid_total = state.last_valid_total;
      last_valid_at = state.last_valid_at;
      stale = is_stale cfg state.last_valid_at;
      low_active = state.low_active;
      plan_changed_active = state.plan_changed_active;
      error_active = state.error_active;
      failure_count = state.consecutive_failures;
      pending_events = event_summaries rt state.pending_events;
      channels = channel_summaries channels;
    });
  }

  unfoldable pub status : Server rt → Response rt
  unfolding status_of configure
  status server = elim deps.config [
    | none ↦ record { status_code = 200; body = not_configured }
    | some cfg ↦
        if deps.new_store
        then elim deps.load [
          | none ↦ error_response rt 500 "store_load_failed"
          | some state ↦ elim deps.channels [
            | none ↦ error_response rt 500 "channel_unavailable"
            | some given ↦ status_of cfg state (configure rt [] given) server
          ]
        ]
        else error_response rt 500 "store_unavailable"
  ]

  test_result : String → Option String → DeliveryResult
  unfolding delivery_error_code
  test_result channel none = record {
    event_id = "";
    channel = channel;
    status = "delivered";
    error_code = "";
  }
  test_result channel (some code) = record {
    event_id = "";
    channel = channel;
    status = "failed";
    error_code = delivery_error_code code;
  }

  would_notify : List Channel → List DeliveryResult
  would_notify [] = []
  would_notify (c ∷ more) =
      record { event_id = ""; channel = c.name; status = "would_notify"; error_code = "" }
      ∷ would_notify more

  -- The loop over the channels, with what it sends.
  send_tests : List Channel → List DeliveryResult × List (Effect rt)
  unfolding test_result
  send_tests [] = ([], [])
  send_tests (c ∷ more) =
      let (results, effects) = send_tests more in
      (test_result c.name (deps.send_test c.name) ∷ results, sent_test c.name ∷ effects)

  abbrev pub has_any {ℓ} : {A : Type ℓ} → List A → Bool
  has_any [] = false
  has_any (_ ∷ _) = true

  test_channels : Bool → List Channel → Response rt × List (Effect rt)
  unfolding would_notify send_tests
  test_channels dry_run channels =
      if dry_run
      then (
        record { status_code = 200; body = test_report (has_any channels) (would_notify channels) },
        [],
      )
      else elim deps.render_test [
        | some _ ↦ (error_response rt 500 "notify_invalid_message", [])
        | none ↦
            let (results, effects) = send_tests channels in
            (record { status_code = 200; body = test_report false results }, effects)
      ]

  unfoldable pub test_notification : String → Response rt × List (Effect rt)
  unfolding decode_action_body test_channels configure
  test_notification body = elim (decode_action_body rt deps body) [
    | err response ↦ (response, [])
    | ok dry_run ↦ elim deps.config [
      | none ↦ (error_response rt 503 "not_configured", [])
      | some cfg ↦ elim deps.channels [
        | none ↦ (error_response rt 500 "channel_unavailable", [])
        | some given ↦ test_channels (cfg.dry_run || dry_run) (configure rt [] given)
      ]
    ]
  ]
