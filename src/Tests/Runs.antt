-- ===== src/Tests/Runs.antt =====
-- The theorems on the state file, on a check of the pool and on the plugin's life at concrete data.
use cpa_quota_alert_plugin.Base.{
  eqb, pos, String, true, false, none, some, [], ◌∷◌, ◌++◌, ◌≡◌, ◌≢◌, refl, arith, All, ok,
  if◌then◌else◌, trim_space,
}
use cpa_quota_alert_plugin.Base.Dict.{lookup}
use cpa_quota_alert_plugin.Store.Save.{Content, Disk, failed, took, Faults, current, save}
use cpa_quota_alert_plugin.Store.Atomic.{Atomic, save-Atomic}
use cpa_quota_alert_plugin.Store.Success.{save-success}
use cpa_quota_alert_plugin.Codex.Types.{no_stats}
use cpa_quota_alert_plugin.Management.Types.{error_response, Server, saved, Dependencies}
use cpa_quota_alert_plugin.Management.Deliver.{deliver_pending}
use cpa_quota_alert_plugin.Management.Deliver.Order.{
  log, InOrder, IsUnsent, deliver_pending-InOrder, deliver_pending-IsUnsent,
}
use cpa_quota_alert_plugin.Management.Check.{decode_action_body, check}
use cpa_quota_alert_plugin.Management.Check.Safety.{
  begin, end as finish_turn, turns, IsSingle, turns-IsSingle, check-running, is_quiet, check-dry,
  Logs, check-Logs,
}
use cpa_quota_alert_plugin.App as Plugin
use cpa_quota_alert_plugin.App.{
  App, Environment, registered, failure, configure, call, parse_lifecycle,
}
use cpa_quota_alert_plugin.App.Lifecycle.{calls, shutdown_is_final, configure-current}
use cpa_quota_alert_plugin.Tests.Machine.{runtime}
use cpa_quota_alert_plugin.Tests.Alerts.{low_state}

abbrev three_bytes : Content
three_bytes = 1 ∷ 2 ∷ 3 ∷ []

-- The third write is refused.
abbrev broken_disk : Faults
broken_disk = record {
  mkdir = true;
  open_temporary = true;
  chmod_open = true;
  writes = took 2 ∷ took 1 ∷ failed ∷ [];
  sync = true;
  close = true;
  chmod_closed = true;
  rename = true;
  remove = true;
}

abbrev good_disk : Faults
good_disk = record broken_disk { writes = took 2 ∷ took 2 ∷ [] }

abbrev old_disk : Disk
old_disk = ("state.json", 9 ∷ []) ∷ []

save-Atomic_example :
    Atomic broken_disk "state.json" "state.tmp" refl old_disk
      (three_bytes ++ 10 ∷ [])
      (save broken_disk "state.json" "state.tmp" (some three_bytes) old_disk)
save-Atomic_example = save-Atomic broken_disk "state.json" "state.tmp" refl old_disk three_bytes

-- One byte for each write.
abbrev slow_disk : Faults
slow_disk = record broken_disk { writes = took 1 ∷ took 1 ∷ took 1 ∷ took 1 ∷ [] }

save-success_example :
    let (error, trail) = save slow_disk "state.json" "state.tmp" (some three_bytes) old_disk in
    (error ≡ none) × (lookup "state.json" (current old_disk trail) ≡ some (three_bytes ++ 10 ∷ []))
save-success_example =
    save-success slow_disk "state.json" "state.tmp" refl old_disk three_bytes
      (record {
        directory = refl;
        opened = (refl, refl);
        flushed = (refl, refl, refl);
        renamed = refl;
        writes = (omega arith, (omega arith, (omega arith, (omega arith, tt))));
      })
      (unfold lookup in refl) (omega arith)

-- A pool with no account, and a state with one low alert that the webhook has not delivered.
abbrev pub world : Dependencies runtime
world = record {
  config = some (record {
    dry_run = false;
    stale_after_seconds = pos 60;
    low_threshold = 15;
    recovery_threshold = 20;
    reminder_seconds = pos 60;
    failure_alert_count = pos 2;
    secret_names = [];
  });
  new_store = true;
  load = some low_state;
  save = λ _. true;
  new_checker = true;
  channels = some (record { name = "webhook"; has_sender = true; recipient_count = 0 } ∷ []);
  check = ([], no_stats);
  now = 9;
  render = λ _. none;
  send = λ _ _. none;
  render_test = none;
  send_test = λ _. none;
  has_secret_store = false;
  names = none;
  names_after = none;
  update = λ _ _. false;
  decode_request = λ _. none;
  decode_action = λ _. some true;
  decode_update = λ _. none;
  validate = λ _. error_response runtime 400 "invalid_config";
}

abbrev pub idle : Server runtime
idle = record { running = false; last_check_at = 0 }

deliver_pending-InOrder_example :
    InOrder runtime world
      (deliver_pending runtime world ("webhook" ∷ []) low_state (saved low_state ∷ []) 1)
deliver_pending-InOrder_example =
    deliver_pending-InOrder runtime world ("webhook" ∷ []) low_state (saved low_state ∷ []) 1
      (unfold log in refl)

deliver_pending-IsUnsent_example :
    All
      (IsUnsent runtime ("webhook" ∷ []))
      (deliver_pending runtime world ("webhook" ∷ []) low_state [] 1).effects
deliver_pending-IsUnsent_example =
    deliver_pending-IsUnsent runtime world ("webhook" ∷ []) low_state [] 1 tt

turns-IsSingle_example :
    let (server, active) = turns runtime idle 0 (begin ∷ begin ∷ finish_turn ∷ begin ∷ []) in
    IsSingle runtime server active
turns-IsSingle_example =
    turns-IsSingle runtime idle 0 (begin ∷ begin ∷ finish_turn ∷ begin ∷ []) (omega arith, refl)

check-running_example :
    let o = check runtime world "" (record idle { running = true }) in
    (o.server.running ≡ true)
    × (true ≡ true → (o.effects ≡ []) × (o.server ≡ record idle { running = true }))
check-running_example = check-running runtime world "" (record idle { running = true })

asked_dry : decode_action_body runtime world "dry" ≡ ok true
unfolding decode_action_body trim_space
asked_dry = refl

check-dry_example : is_quiet runtime world (check runtime world "dry" idle).effects ≡ true
check-dry_example = check-dry runtime world _ true "dry" idle refl asked_dry refl

check-Logs_example : Logs runtime world (check runtime world "" idle)
check-Logs_example = check-Logs runtime world "" idle

-- Every text of a configuration is its own parse.
abbrev pub environment : Environment String
environment = record {
  decode_lifecycle = λ raw. some (record { schema_version = 1; config_yaml = raw });
  decode_one_value = λ _. true;
  parse = λ text. some text;
  handler = λ _ _. ("{}", 0);
}

abbrev fresh : App String
fresh = record { current = none; closed = false; calls = 0; has_handler = true }

shutdown_is_final_example :
    let app =
      calls String environment
        (call String environment fresh "plugin.shutdown" "").2
        (("plugin.register", "a") ∷ []) in
    (Plugin.current String app ≡ none)
    × (call String environment app "management.handle" "x" ≡ (failure "plugin_shutdown", 1, app))
shutdown_is_final_example =
    shutdown_is_final String environment fresh "" (("plugin.register", "a") ∷ []) "x"

configure-current_example :
    (if eqb (configure String environment fresh "a").1 0
      then ((configure String environment fresh "a").0 ≡ registered)
        × (Plugin.current String (configure String environment fresh "a").2
            ≡ parse_lifecycle String environment "a")
        × (parse_lifecycle String environment "a" ≢ none)
      else (configure String environment fresh "a").2 ≡ fresh)
configure-current_example = configure-current String environment fresh "a"
