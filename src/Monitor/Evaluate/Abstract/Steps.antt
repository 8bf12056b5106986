-- ===== src/Monitor/Evaluate/Abstract/Steps.antt =====
-- Each check of the monitor is a step of its latches.
use mathlib.Core.Path.{subst}
use cpa_quota_alert_plugin.Base.{
  Bool-cases, ℕ, ℤ, String, Bool, true, false, Option, none, some, List, [], ◌++◌, ◌≡◌, refl, arith,
  inl, inr,
}
use cpa_quota_alert_plugin.Runtime.{Runtime}
use cpa_quota_alert_plugin.Quota.Types.{Snapshot, plan_changed, not_computable}
use cpa_quota_alert_plugin.Monitor.Types.{
  CheckError, of_quota, of_text, State, Input, stable_error_code,
}
use cpa_quota_alert_plugin.Monitor.Evaluate.{
  no_failures, mark_data_failure, note_snapshot, evaluate_total, evaluate_snapshot, reminder_due,
  evaluate_input, evaluate, with_defaults, quota_summary,
}
use cpa_quota_alert_plugin.Monitor.Evaluate.Abstract.{
  Alerts, Level, Signal, failed, doubtful, measured, rate, fail, calm, advance, view, level_of,
  signal_of, observed,
}
use cpa_quota_alert_plugin.Monitor.Evaluate.Abstract.Shows.{
  Shows, Shows-same, Shows-then, mark_data_failure-Shows, evaluate_plan_changed-Shows,
  evaluate_total-Shows,
}

module _ (rt : Runtime) where
  open rt use {Float, lt_float}

  calm_snapshot-Shows :
      (s : State rt) (snap : Snapshot rt) (input : Input rt) (now : ℕ)
      → snap.partial ≡ false
      → Shows rt s
          (note_snapshot rt s snap input now)
          (record (calm (view rt s)) { plan = false }, [])
  unfolding note_snapshot
  calm_snapshot-Shows s snap input now whole =
      let t : State rt = record (no_failures rt s) {
        last_valid_total = snap.total;
        last_valid_at = now;
        plan_changed_active = false;
      } in
      let same : note_snapshot rt s snap input now ≡ t = ground arith in
      rw same (Shows-same rt s t _ refl refl)

  doubtful_snapshot-Shows :
      (s : State rt) (snap : Snapshot rt) (input : Input rt) (now : ℕ)
      → snap.partial ≡ true
      → Shows rt s (note_snapshot rt s snap input now) (fail input.failure_alert_count (view rt s))
  unfolding note_snapshot
  doubtful_snapshot-Shows s snap input now partial =
      let t = mark_data_failure rt s "partial_unresolved" input now in
      let same : note_snapshot rt s snap input now ≡ t = ground arith in
      rw same (mark_data_failure-Shows rt s "partial_unresolved" input now)

  Shows-rated :
      (s t u : State rt) (due : Bool) (level : Level) (first : Alerts × List String)
      → Shows rt s t first
      → Shows rt t u (rate due (view rt t) level)
      → Shows rt s u ((rate due first.0 level).0, first.1 ++ (rate due first.0 level).1)
  Shows-rated s t u due level first f g =
      let viewed : view rt t ≡ first.0 = f.viewed in
      Shows-then rt s t u first (rate due first.0 level) f
        (subst (λ a. Shows rt t u (rate due a level)) viewed g)

  -- A check is a step of the latches, with a reminder due or not.
  abbrev Steps : State rt → State rt → ℤ → Signal → Type 0
  Steps s s' limit signal = (due : Bool) × Shows rt s s' (advance limit due (view rt s) signal)

  evaluate_snapshot-Steps :
      (s : State rt) (snap : Snapshot rt) (input : Input rt) (now : ℕ)
      → Steps s
          (evaluate_snapshot rt s snap input now)
          input.failure_alert_count
          (signal_of rt none (some snap) input)
  unfolding evaluate_snapshot
  evaluate_snapshot-Steps s snap input now =
      let limit = input.failure_alert_count in
      let next = note_snapshot rt s snap input now in
      let summary = quota_summary rt snap in
      let after = evaluate_snapshot rt s snap input now in
      let rated = evaluate_total rt next snap.total summary input now in
      let level = level_of rt snap.total input in
      let due = reminder_due rt next input now in
      elim (Bool-cases snap.partial) [
        | inl partial ↦
            let noted = doubtful_snapshot-Shows s snap input now partial in
            elim (Bool-cases (lt_float snap.total input.recovery_threshold)) [
              | inl low ↦
                  let same : after ≡ next = ground arith in
                  let shown : signal_of rt none (some snap) input ≡ failed = ground arith in
                  rw same (rw shown (false, noted))
              | inr high ↦
                  let same : after ≡ rated = ground arith in
                  let shown : signal_of rt none (some snap) input ≡ doubtful level = ground arith in
                  rw same (
                    rw shown (
                      due,
                      Shows-rated s next rated due level (fail limit (view rt s)) noted
                          (evaluate_total-Shows rt next snap.total summary input now),
                    ))
            ]
        | inr whole ↦
            let noted = calm_snapshot-Shows s snap input now whole in
            let same : after ≡ rated = ground arith in
            let shown : signal_of rt none (some snap) input ≡ measured level = ground arith in
            rw same (
              rw shown (
                due,
                Shows-rated s next rated due level (record (calm (view rt s)) { plan = false }, [])
                    noted (evaluate_total-Shows rt next snap.total summary input now),
              ))
      ]

  evaluate_input-Steps :
      (s : State rt) (e : Option CheckError) (snap : Option (Snapshot rt)) (input : Input rt)
      (now : ℕ)
      → Steps s
          (evaluate_input rt s e snap input now)
          input.failure_alert_count
          (signal_of rt e snap input)
  unfolding evaluate_input
  evaluate_input-Steps s (some (of_quota (plan_changed plans))) snap input now =
      (false, evaluate_plan_changed-Shows rt s plans input now)
  evaluate_input-Steps s (some (of_quota not_computable)) snap input now =
      (false, mark_data_failure-Shows rt s (stable_error_code rt none) input now)
  evaluate_input-Steps s (some (of_text t)) snap input now =
      (false, mark_data_failure-Shows rt s (stable_error_code rt (some t)) input now)
  evaluate_input-Steps s none none input now = (false, Shows-same rt s s _ refl refl)
  evaluate_input-Steps s none (some snap) input now = evaluate_snapshot-Steps s snap input now

  pub evaluate-Steps :
      (s : State rt) (input : Input rt) (now : ℕ)
      → (due : Bool) × Shows rt s
          (evaluate rt s input now)
          (advance (observed rt input).0 due (view rt s) (observed rt input).1)
  unfolding evaluate observed
  evaluate-Steps s input now =
      evaluate_input-Steps s input.error input.snapshot (with_defaults rt input) now
