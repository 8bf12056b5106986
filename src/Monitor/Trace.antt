-- ===== src/Monitor/Trace.antt =====
-- Runs of the monitor: checks and deliveries in any order.
use cpa_quota_alert_plugin.Base.{
  ℕ, String, Bool, some, List, [], ◌∷◌, ◌++◌, ◌≡◌, refl, ◌∙◌, length, drop, drop-append,
}
use cpa_quota_alert_plugin.Runtime.{Runtime}
use cpa_quota_alert_plugin.Monitor.Types.{Event, State, Input}
use cpa_quota_alert_plugin.Monitor.Evaluate.{evaluate}
use cpa_quota_alert_plugin.Monitor.Evaluate.Hysteresis.{phase, phase-append, evaluate-Adds}
use cpa_quota_alert_plugin.Monitor.Deliver.{mark_delivered}
use cpa_quota_alert_plugin.Monitor.Deliver.Kept.{low_active-mark_delivered}

module _ (rt : Runtime) where
  -- One call of the monitor.
  pub data Action : Type 0 where
    check : Input rt → ℕ → Action
    deliver : String → String → Bool → ℕ → Action

  unfoldable pub act : State rt → Action → State rt
  act s (check input now) = evaluate rt s input now
  act s (deliver id channel delivered now) = mark_delivered rt s id channel delivered now

  -- The events that the call raises: those behind the pending ones that a check finds.
  unfoldable pub raised : State rt → Action → List (Event rt)
  unfolding act
  raised s (check input now) =
      drop (length s.pending_events) (evaluate rt s input now).pending_events
  raised s (deliver id channel delivered now) = []

  -- The state after the calls, and all events that they raise.
  unfoldable pub run : State rt → List Action → State rt × List (Event rt)
  unfolding raised
  run s [] = (s, [])
  run s (a ∷ more) = let (s', events) = run (act s a) more in (s', raised s a ++ events)

  phase-raised :
      (s : State rt) (a : Action) → phase rt s.low_active (raised s a) ≡ some (act s a).low_active
  unfolding raised
  phase-raised s (check input now) =
      let a = evaluate-Adds rt s input now in rw (a.pending, drop-append) a.alternates
  phase-raised s (deliver id channel delivered now) =
      rw (low_active-mark_delivered rt s id channel delivered now)

  -- Over any run of checks and deliveries the low and the recovery alerts that are raised alternate:
  -- no low alert while one is open, no recovery while none is, and `low_active` tells at the end
  -- whether one is open.
  pub phase-run :
      (s : State rt) (actions : List Action)
      → phase rt s.low_active (run s actions).1 ≡ some (run s actions).0.low_active
  unfolding run
  phase-run s [] = refl
  phase-run s (a ∷ more) =
      phase-append rt s.low_active (act s a).low_active (raised s a) _ (phase-raised s a)
      ∙ phase-run (act s a) more
