-- ===== src/Monitor/Evaluate.antt =====
-- `Evaluate` of internal/monitor/types.go: the state after a check.
pub mod Hysteresis
pub mod Failures
pub mod Abstract
use cpa_quota_alert_plugin.Base.{
  ℕ, ℤ, pos, leb_ℤ, eqb_ℤ, increment, String, Bool, true, false, not, ◌&&◌, ◌||◌, Option, none,
  some, List, [], ◌∷◌, ◌==◌, if◌then◌else◌, eqb,
}
use cpa_quota_alert_plugin.Base.Dict.{Dict, total_count}
use cpa_quota_alert_plugin.Runtime.{
  Runtime, Any, bool, int, float, text, counts, Fields, end, field,
}
use cpa_quota_alert_plugin.Quota.Types.{Snapshot, plan_changed, not_computable}
use cpa_quota_alert_plugin.Monitor.Types.{
  event_low, event_low_reminder, event_recovery, event_data_error, event_plan_changed, CheckError,
  of_quota, of_text, time_sub, seconds, State, Input, append_event, has_pending_kind,
  stable_error_code,
}

module _ (rt : Runtime) where
  open rt use {Float, lt_float, eq_float, literal}

  -- The zero fields of an input stand for defaults.
  unfoldable pub with_defaults : Input rt → Input rt
  with_defaults input = record input {
    low_threshold =
        if eq_float input.low_threshold (literal 0 0) then literal 15 1 else input.low_threshold;
    recovery_threshold =
        if eq_float input.recovery_threshold (literal 0 0)
        then literal 16 1
        else input.recovery_threshold;
    reminder_seconds =
        if eqb_ℤ input.reminder_seconds (pos 0) then pos 86400 else input.reminder_seconds;
    failure_alert_count =
        if eqb_ℤ input.failure_alert_count (pos 0) then pos 3 else input.failure_alert_count;
  }

  quota_summary : Snapshot rt → Fields Float
  unfolding total_count
  quota_summary s = field "total" (float s.total) (
      field "partial" (bool s.partial)
        (field "unresolved_count" (int (pos (total_count s.unresolved_code_counts))) end))

  failure_summary : ℤ → String → Fields Float
  failure_summary failures code =
      field "consecutive_failures" (int failures) (field "error_code" (text code) end)

  unfoldable pub mark_data_failure : State rt → String → Input rt → ℕ → State rt
  unfolding failure_summary append_event
  mark_data_failure state code input now =
      let failures = increment state.consecutive_failures in
      let next = record state { consecutive_failures = failures; last_error_code = code } in
      if leb_ℤ input.failure_alert_count failures && not state.error_active
      then append_event rt (record next { error_active = true }) event_data_error now input.channels
          (failure_summary failures code)
      else next

  -- A fresh run of failures.
  abbrev no_failures : State rt → State rt
  no_failures s = record s {
    consecutive_failures = pos 0;
    error_active = false;
    last_error_code = "";
  }

  unfoldable pub evaluate_plan_changed : State rt → Dict ℕ → Input rt → ℕ → State rt
  unfolding append_event
  evaluate_plan_changed state plans input now =
      let next = no_failures state in
      if state.plan_changed_active
      then next
      else append_event rt (record next { plan_changed_active = true }) event_plan_changed now
          input.channels (field "unknown_plans" (counts plans) end)

  unfoldable pub reminder_due : State rt → Input rt → ℕ → Bool
  unfolding time_sub seconds has_pending_kind
  reminder_due s input now =
      not (eqb s.last_low_delivered_at 0)
      && leb_ℤ (seconds input.reminder_seconds) (time_sub now s.last_low_delivered_at)
      && not (has_pending_kind rt s.pending_events event_low_reminder)

  -- `x >= y`
  abbrev pub at_least : Float → Float → Bool
  at_least x y = lt_float y x || eq_float x y

  -- The switch at the end of `Evaluate`.
  unfoldable pub evaluate_total : State rt → Float → Fields Float → Input rt → ℕ → State rt
  unfolding append_event reminder_due
  evaluate_total s total summary input now =
      if lt_float total input.low_threshold
      then (if s.low_active
          then (if reminder_due s input now
              then append_event rt s event_low_reminder now input.channels summary
              else s)
          else append_event rt (record s { low_active = true }) event_low now input.channels
              summary)
      else if at_least total input.recovery_threshold
      then (if s.low_active
          then append_event rt (record s { low_active = false }) event_recovery now input.channels
              summary
          else s)
      else s

  -- The part of `Evaluate` that only asks whether the snapshot is partial.
  unfoldable pub note_snapshot : State rt → Snapshot rt → Input rt → ℕ → State rt
  note_snapshot state snap input now =
      if snap.partial
      then mark_data_failure state "partial_unresolved" input now
      else record (no_failures state) {
        last_valid_total = snap.total;
        last_valid_at = now;
        plan_changed_active = false;
      }

  unfoldable pub evaluate_snapshot : State rt → Snapshot rt → Input rt → ℕ → State rt
  unfolding quota_summary
  evaluate_snapshot state snap input now =
      let next = note_snapshot state snap input now in
      if snap.partial && lt_float snap.total input.recovery_threshold
      then next
      else evaluate_total next snap.total (quota_summary snap) input now

  evaluate_input : State rt → Option CheckError → Option (Snapshot rt) → Input rt → ℕ → State rt
  unfolding stable_error_code
  evaluate_input state (some (of_quota (plan_changed plans))) snap input now =
      evaluate_plan_changed state plans input now
  evaluate_input state (some (of_quota not_computable)) snap input now =
      mark_data_failure state (stable_error_code rt none) input now
  evaluate_input state (some (of_text t)) snap input now =
      mark_data_failure state (stable_error_code rt (some t)) input now
  evaluate_input state none none input now = state
  evaluate_input state none (some snap) input now = evaluate_snapshot state snap input now

  -- The copy that the source makes first is the value itself.
  unfoldable pub evaluate : State rt → Input rt → ℕ → State rt
  unfolding with_defaults evaluate_input
  evaluate current input now =
      evaluate_input current input.error input.snapshot (with_defaults input) now

  -- `DryRun`
  unfoldable pub dry_run : State rt → Input rt → ℕ → State rt
  unfolding evaluate
  dry_run current input now = evaluate current input now
