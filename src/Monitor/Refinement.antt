-- ===== src/Monitor/Refinement.antt =====
-- The monitor refines three latches, over runs of checks and deliveries.
use cpa_quota_alert_plugin.Base.{
  ℤ, pos, String, Bool, false, List, [], ◌∷◌, ◌++◌, ◌≡◌, refl, ap, sym, ◌∙◌, drop-append, length,
  drop,
}
use mathlib.Core.Path.{subst}
use cpa_quota_alert_plugin.Runtime.{Runtime}
use cpa_quota_alert_plugin.Monitor.Types.{State}
use cpa_quota_alert_plugin.Monitor.Deliver.Latches.{view-mark_delivered}
use cpa_quota_alert_plugin.Monitor.Evaluate.Abstract.{
  Alerts, Signal, nothing, advance, view, kinds, observed,
}
use cpa_quota_alert_plugin.Monitor.Evaluate.Abstract.Shows.{kinds-append}
use cpa_quota_alert_plugin.Monitor.Evaluate.Abstract.Steps.{evaluate-Steps}
use cpa_quota_alert_plugin.Monitor.Trace.{Action, check, deliver, act, raised, run}

-- A run of the latches over what the checks show, each with its limit: the kinds of the events that it
-- raises, and its end. A reminder is due at a step or not.
pub data Run : Alerts → List (ℤ × Signal) → List String → Alerts → Type 0 where
  stop : {a : Alerts} → Run a [] [] a
  step :
      {a b : Alerts} {limit : ℤ} {signal : Signal} {more : List (ℤ × Signal)}
      {raising : List String}
      → (due : Bool) → Run (advance limit due a signal).0 more raising b
      → Run a ((limit, signal) ∷ more) ((advance limit due a signal).1 ++ raising) b

module _ (rt : Runtime) where
  -- What an action shows to the latches; a delivery shows nothing.
  abbrev pub shown : Action rt → ℤ × Signal
  shown (check input now) = observed rt input
  shown (deliver id channel delivered now) = (pos 0, nothing)

  abbrev pub all_shown : List (Action rt) → List (ℤ × Signal)
  all_shown [] = []
  all_shown (a ∷ more) = shown a ∷ all_shown more

  act-advance :
      (s : State rt) (a : Action rt)
      → (due : Bool) × (view rt (act rt s a) ≡ (advance (shown a).0 due (view rt s) (shown a).1).0)
        × (kinds rt (raised rt s a) ≡ (advance (shown a).0 due (view rt s) (shown a).1).1)
  unfolding act raised
  act-advance s (check input now) =
      let (due, shows) = evaluate-Steps rt s input now in
      (
        due,
        shows.viewed,
        ap (λ l. kinds rt (drop (length s.pending_events) l)) shows.pending
            ∙ ap (kinds rt) (drop-append s.pending_events shows.events)
            ∙ shows.raised,
      )
  act-advance s (deliver id channel delivered now) =
      (false, view-mark_delivered rt s id channel delivered now, refl)

  -- Every run of checks and deliveries is a run of the three latches over what the checks show: the
  -- events that it raises have the kinds that the latches raise, in the same order, and the state at its
  -- end has the latches' end as its view.
  pub run-Run :
      (s : State rt) (actions : List (Action rt))
      → Run
          (view rt s)
          (all_shown actions)
          (kinds rt (run rt s actions).1)
          (view rt (run rt s actions).0)
  unfolding run
  run-Run s [] = stop
  run-Run s (a ∷ more) =
      let (due, viewed, raising) = act-advance s a in
      let rest = run-Run (act rt s a) more in
      let stepped = step {limit = (shown a).0} {signal = (shown a).1} due (
        subst
          (λ b.
            Run b (all_shown more) (kinds rt (run rt (act rt s a) more).1)
              (view rt (run rt (act rt s a) more).0))
          viewed rest) in
      let whole : kinds rt (raised rt s a ++ (run rt (act rt s a) more).1)
          ≡ (advance (shown a).0 due (view rt s) (shown a).1).1
            ++ kinds rt (run rt (act rt s a) more).1 =
        kinds-append rt (raised rt s a) (run rt (act rt s a) more).1
        ∙ ap (λ l. l ++ kinds rt (run rt (act rt s a) more).1) raising in
      subst
        (λ l. Run (view rt s) (shown a ∷ all_shown more) l (view rt (run rt (act rt s a) more).0))
        (sym whole) stepped
