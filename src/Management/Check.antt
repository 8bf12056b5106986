-- ===== src/Management/Check.antt =====
-- `check` of internal/management/handler.go: one check of the pool, its alerts and their delivery.
pub mod Safety
use cpa_quota_alert_plugin.Base.{
  ℕ, String, len, ltb, Bool, true, false, ◌||◌, Option, none, some, List, [], ◌∷◌, ◌==◌,
  if◌then◌else◌, Result, ok, err, is_blank,
}
use cpa_quota_alert_plugin.Runtime.{Runtime}
use cpa_quota_alert_plugin.Quota.Types.{Snapshot, QuotaError, AccountObservation}
use cpa_quota_alert_plugin.Quota.Aggregate.{aggregate_observations}
use cpa_quota_alert_plugin.Monitor.Types.{State, Input, of_quota}
use cpa_quota_alert_plugin.Monitor.Evaluate.{evaluate}
use cpa_quota_alert_plugin.Codex.Types.{DiscoveryStats}
use cpa_quota_alert_plugin.Management.Types.{
  max_request_body_bytes, Request, Channel, Config, CheckReport, check_report, Response,
  error_response, Server, Effect, saved, Dependencies,
}
use cpa_quota_alert_plugin.Management.Channels.{
  channel_names, configure, build_check_response, event_summaries,
}
use cpa_quota_alert_plugin.Management.Deliver.{Progress, deliver_pending}

module _ (rt : Runtime) where
  -- `none` where a check is running.
  unfoldable pub try_start : Server rt → Option (Server rt)
  try_start server = if server.running then none else some (record server { running = true })

  unfoldable pub finish : Server rt → Server rt
  finish server = record server { running = false }

module _ (rt : Runtime) (deps : Dependencies rt) where
  -- What a call leaves behind.
  pub record Outcome : Type 0 where
    pub response : Response rt
    pub server : Server rt
    pub effects : List (Effect rt)

  -- The status and the code of a refused body, or its `dry_run`.
  unfoldable pub decode_action_body : String → Result (Response rt) Bool
  decode_action_body raw =
      if ltb max_request_body_bytes (len raw)
      then err (error_response rt 413 "request_too_large")
      else if is_blank raw
      then ok false
      else elim (deps.decode_action raw) [
        | none ↦ err (error_response rt 400 "invalid_body")
        | some dry_run ↦ ok dry_run
      ]

  abbrev pub monitor_input : Config rt → List Channel → Snapshot rt → Option QuotaError → Input rt
  monitor_input cfg channels snap error = record {
    snapshot = elim error [ none ↦ some snap | some _ ↦ none ];
    error = elim error [ none ↦ none | some e ↦ some (of_quota e) ];
    channels = channel_names channels;
    low_threshold = cfg.low_threshold;
    recovery_threshold = cfg.recovery_threshold;
    reminder_seconds = cfg.reminder_seconds;
    failure_alert_count = cfg.failure_alert_count;
  }

  -- The state after the check, before anything is sent.
  unfoldable pub next_state : Config rt → State rt → List Channel → State rt
  unfolding aggregate_observations evaluate channel_names
  next_state cfg current channels =
      let (snap, error) = aggregate_observations rt deps.check.0 deps.now in
      evaluate rt current (monitor_input cfg channels snap error) deps.now

  unfoldable pub report : State rt → Bool → CheckReport rt
  unfolding build_check_response aggregate_observations
  report next dry_run =
      let (snap, error) = aggregate_observations rt deps.check.0 deps.now in
      build_check_response rt snap error deps.check.1 next dry_run

  -- The end of `check`, from the delivery on.
  delivered : State rt → Server rt → Progress rt deps → Outcome
  unfolding report event_summaries
  delivered next server p =
      let body = record (report next false) { delivery = p.results } in
      if p.stopped
      then record {
        response = record {
          status_code = 500;
          body = check_report (record body { error_code = "store_save_failed" });
        };
        server = server;
        effects = p.effects;
      }
      else record {
        response = record {
          status_code = 200;
          body = check_report (record body { events = event_summaries rt p.state.pending_events });
        };
        server = server;
        effects = p.effects;
      }

  -- From the first save on.
  unfoldable pub check_evaluated : Config rt → Bool → List Channel → State rt → Server rt → Outcome
  unfolding delivered deliver_pending report channel_names
  check_evaluated cfg dry_run channels next server =
      if deps.save 0
      then (let recorded = record server { last_check_at = deps.now } in
          if cfg.dry_run || dry_run
          then record {
            response = record { status_code = 200; body = check_report (report next true) };
            server = recorded;
            effects = saved next ∷ [];
          }
          else delivered next recorded
              (deliver_pending rt deps (channel_names channels) next (saved next ∷ []) 1))
      else record {
        response = error_response rt 500 "store_save_failed";
        server = server;
        effects = [];
      }

  abbrev refused : ℕ → String → Server rt → Outcome
  refused status code server = record {
    response = error_response rt status code;
    server = server;
    effects = [];
  }

  -- The guards between `tryStart` and the check, in their order.
  unfoldable pub check_started : Bool → Server rt → Outcome
  unfolding check_evaluated next_state configure
  check_started dry_run server = elim deps.config [
    | none ↦ refused 503 "not_configured" server
    | some cfg ↦
        if deps.new_store
        then elim deps.load [
          | none ↦ refused 500 "store_load_failed" server
          | some current ↦
              if deps.new_checker
              then elim deps.channels [
                | none ↦ refused 500 "channel_unavailable" server
                | some given ↦
                    let channels = configure rt [] given in
                    check_evaluated cfg dry_run channels (next_state cfg current channels) server
              ]
              else refused 500 "checker_unavailable" server
        ]
        else refused 500 "store_unavailable" server
  ]

  -- `tryStart`, and `finish` when the call returns.
  unfoldable pub check : String → Server rt → Outcome
  unfolding decode_action_body check_started try_start finish
  check body server = elim (decode_action_body body) [
    | err response ↦ record { response = response; server = server; effects = [] }
    | ok dry_run ↦ elim (try_start rt server) [
      | none ↦ refused 409 "check_in_progress" server
      | some started ↦
          let o = check_started dry_run started in record o { server = finish rt o.server }
    ]
  ]
