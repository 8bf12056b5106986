-- ===== src/Tests/Alerts.antt =====
-- The theorems on the alerts and their delivery at concrete data.
use cpa_quota_alert_plugin.Base.{
  ℕ, pos, true, false, none, some, List, [], ◌∷◌, ◌≡◌, ◌⊎◌, refl, arith,
}
use cpa_quota_alert_plugin.Base.Dict.{lookup, insert}
use cpa_quota_alert_plugin.Runtime.{end}
use cpa_quota_alert_plugin.Quota.Types.{not_computable}
use cpa_quota_alert_plugin.Monitor.Types.{Event, State, Input, of_quota}
use cpa_quota_alert_plugin.Monitor.Evaluate.Hysteresis.{phase}
use cpa_quota_alert_plugin.Monitor.Evaluate.Failures.{
  evaluate_all, data_errors, data_errors-evaluate_all,
}
use cpa_quota_alert_plugin.Monitor.Deliver.{mark_delivered}
use cpa_quota_alert_plugin.Monitor.Deliver.Filed.{IsFiledOf, mark_delivered-IsFiledOf}
use cpa_quota_alert_plugin.Monitor.Deliver.Kept.{is_known, is_known-mark_delivered}
use cpa_quota_alert_plugin.Monitor.Trace.{Action, check, deliver, run, phase-run}
use cpa_quota_alert_plugin.Tests.Machine.{runtime}

abbrev pub quiet_state : State runtime
quiet_state = record {
  low_active = false;
  plan_changed_active = false;
  error_active = false;
  consecutive_failures = pos 0;
  last_low_delivered_at = 0;
  last_recovery_delivered_at = 0;
  last_error_delivered_at = 0;
  last_plan_delivered_at = 0;
  last_valid_total = 0;
  last_valid_at = 0;
  last_error_code = "";
  pending_events = [];
  delivered_events = [];
  event_sequence = pos 0;
}

abbrev total_of : ℕ → Input runtime
total_of n = record {
  snapshot = some (record {
    timestamp = 1;
    total = n;
    total_by_window = [];
    plans = [];
    terminal_error_counts = [];
    unresolved_code_counts = [];
    unknown_plan_counts = [];
    partial = false;
  });
  error = none;
  channels = "smtp" ∷ "webhook" ∷ [];
  low_threshold = 15;
  recovery_threshold = 20;
  reminder_seconds = pos 60;
  failure_alert_count = pos 2;
}

abbrev failure : Input runtime
failure = record (total_of 0) { snapshot = none; error = some (of_quota not_computable) }

-- Low, still low, recovered and low again.
abbrev pub actions : List (Action runtime)
actions =
    check (total_of 10) 5
    ∷ deliver "low-0" "smtp" true 6
    ∷ check (total_of 12) 7
    ∷ check (total_of 30) 8
    ∷ check (total_of 3) 9
    ∷ []

phase-run_example :
    phase runtime false (run runtime quiet_state actions).1
    ≡ some (run runtime quiet_state actions).0.low_active
phase-run_example = phase-run runtime quiet_state actions

data_errors-evaluate_all_example :
    let s = evaluate_all runtime quiet_state ((failure, 1) ∷ (failure, 2) ∷ (failure, 3) ∷ []) in
    (data_errors runtime s ≡ 1) × (s.consecutive_failures ≡ pos 3) × (s.error_active ≡ true)
data_errors-evaluate_all_example =
    data_errors-evaluate_all runtime 2 quiet_state ((failure, 1) ∷ (failure, 2) ∷ (failure, 3) ∷ [])
      (omega arith) (omega arith) refl refl ((refl, refl), ((refl, refl), ((refl, refl), tt)))

abbrev pub low_event : Event runtime
low_event = record {
  id = "low-0";
  kind = "low";
  created_at = 5;
  summary = end;
  delivery = ("smtp", "delivered") ∷ ("webhook", "failed") ∷ [];
}

abbrev pub low_state : State runtime
low_state = record quiet_state { low_active = true; pending_events = low_event ∷ [] }

is_known-mark_delivered_example :
    is_known runtime "low-0" (mark_delivered runtime low_state "low-0" "webhook" true 9) ≡ true
is_known-mark_delivered_example =
    is_known-mark_delivered runtime low_state "low-0" "webhook" true 9 "low-0" refl

-- The event once both channels have it.
abbrev low_delivered : Event runtime
low_delivered = record low_event {
  delivery = ("smtp", "delivered") ∷ ("webhook", "delivered") ∷ [];
}

low_filed :
    lookup "low-0" (mark_delivered runtime low_state "low-0" "webhook" true 9).delivered_events
    ≡ some low_delivered
unfolding mark_delivered lookup insert
low_filed = refl

mark_delivered-IsFiledOf_example :
    (lookup "low-0" low_state.delivered_events ≡ some low_delivered)
    ⊎ IsFiledOf runtime low_state "low-0" "webhook" true "low-0" low_delivered
mark_delivered-IsFiledOf_example =
    mark_delivered-IsFiledOf runtime low_state "low-0" "webhook" true 9 "low-0" low_delivered
      low_filed
