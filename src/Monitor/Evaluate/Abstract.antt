-- ===== src/Monitor/Evaluate/Abstract.antt =====
-- The monitor as three latches: what a check does to the low alert, to the alert of changed plans and
-- to the one of failed checks, without times, totals, deliveries and the texts of events.
pub mod Shows
pub mod Steps
use mathlib.Core.Path.{subst}
use mathlib.Core.List.{append_assoc, append-nil}
use cpa_quota_alert_plugin.Base.{
  Bool-cases, ℕ, ℤ, pos, leb_ℤ, increment, String, Bool, true, false, not, ◌&&◌, ◌||◌, Option, none,
  some, List, [], ◌∷◌, ◌++◌, ◌≡◌, refl, ap, ◌∙◌, sym, if◌then◌else◌, arith, inl, inr, map,
}
use cpa_quota_alert_plugin.Base.Dict.{Dict}
use cpa_quota_alert_plugin.Runtime.{Runtime, Fields, end, field, counts}
use cpa_quota_alert_plugin.Quota.Types.{Snapshot, plan_changed, not_computable}
use cpa_quota_alert_plugin.Monitor.Types.{
  event_low, event_low_reminder, event_recovery, event_data_error, event_plan_changed, CheckError,
  of_quota, of_text, Event, State, Input, append_event, new_event, stable_error_code,
}
use cpa_quota_alert_plugin.Monitor.Evaluate.{
  no_failures, failure_summary, mark_data_failure, note_snapshot, evaluate_plan_changed,
  evaluate_total, evaluate_snapshot, reminder_due, at_least, evaluate_input, evaluate,
  with_defaults, quota_summary,
}

pub record Alerts : Type 0 where
  pub low : Bool
  pub plan : Bool
  pub error : Bool
  pub failures : ℤ

pub data Level : Type 0 where
  below between above : Level

-- What a check shows: `doubtful` is a partial total that is above the threshold all the same.
pub data Signal : Type 0 where
  nothing changed failed : Signal
  doubtful measured : Level → Signal

-- The latch of the low alert, and the kinds of events that it raises.
abbrev pub rate : Bool → Alerts → Level → Alerts × List String
rate due a below = (
  record a { low = true },
  if a.low then (if due then event_low_reminder ∷ [] else []) else event_low ∷ [],
)
rate due a between = (a, [])
rate due a above = (record a { low = false }, if a.low then event_recovery ∷ [] else [])

abbrev pub fail : ℤ → Alerts → Alerts × List String
fail limit a =
    let n = increment a.failures in
    let raises = leb_ℤ limit n && not a.error in
    (
      record a { error = a.error || raises; failures = n },
      if raises then event_data_error ∷ [] else [],
    )

abbrev pub calm : Alerts → Alerts
calm a = record a { error = false; failures = pos 0 }

-- The step of the three latches, where failed checks are reported from the limit on, and a reminder is
-- due or not.
abbrev pub advance : ℤ → Bool → Alerts → Signal → Alerts × List String
advance limit due a nothing = (a, [])
advance limit due a changed =
    (record (calm a) { plan = true }, if a.plan then [] else event_plan_changed ∷ [])
advance limit due a failed = fail limit a
advance limit due a (doubtful level) =
    let after = fail limit a in let rated = rate due after.0 level in (rated.0, after.1 ++ rated.1)
advance limit due a (measured level) = rate due (record (calm a) { plan = false }) level

module _ (rt : Runtime) where
  open rt use {Float, lt_float}

  abbrev pub view : State rt → Alerts
  view s = record {
    low = s.low_active;
    plan = s.plan_changed_active;
    error = s.error_active;
    failures = s.consecutive_failures;
  }

  abbrev pub kinds : List (Event rt) → List String
  kinds events = map (λ (e : Event rt). e.kind) events

  abbrev pub level_of : Float → Input rt → Level
  level_of total input =
      if lt_float total input.low_threshold
      then below
      else if at_least rt total input.recovery_threshold
      then above
      else between

  abbrev pub signal_of : Option CheckError → Option (Snapshot rt) → Input rt → Signal
  signal_of (some (of_quota (plan_changed _))) snap input = changed
  signal_of (some (of_quota not_computable)) snap input = failed
  signal_of (some (of_text _)) snap input = failed
  signal_of none none input = nothing
  signal_of none (some snap) input =
      if snap.partial
      then (if lt_float snap.total input.recovery_threshold
          then failed
          else doubtful (level_of snap.total input))
      else measured (level_of snap.total input)

  -- What a check shows, and the limit that it reports failures from.
  unfoldable pub observed : Input rt → ℤ × Signal
  unfolding with_defaults
  observed input =
      let whole = with_defaults rt input in
      (whole.failure_alert_count, signal_of input.error input.snapshot whole)
