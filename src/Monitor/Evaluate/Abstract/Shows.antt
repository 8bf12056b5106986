-- ===== src/Monitor/Evaluate/Abstract/Shows.antt =====
-- What the parts of a check show of the latches.
use mathlib.Core.List.{append_assoc, append-nil}
use cpa_quota_alert_plugin.Base.{
  Bool-cases, ℕ, leb_ℤ, increment, String, true, false, not, ◌&&◌, List, [], ◌∷◌, ◌++◌, ◌≡◌, refl,
  ap, ◌∙◌, sym, arith, inl, inr,
}
use cpa_quota_alert_plugin.Base.Dict.{Dict}
use cpa_quota_alert_plugin.Runtime.{Runtime, Fields, end, field, counts}
use cpa_quota_alert_plugin.Monitor.Types.{
  event_low, event_low_reminder, event_recovery, event_data_error, event_plan_changed, Event, State,
  Input, append_event, new_event,
}
use cpa_quota_alert_plugin.Monitor.Evaluate.{
  no_failures, failure_summary, mark_data_failure, evaluate_plan_changed, evaluate_total,
  reminder_due, at_least,
}
use cpa_quota_alert_plugin.Monitor.Evaluate.Abstract.{
  Alerts, changed, rate, fail, advance, view, kinds, level_of,
}

module _ (rt : Runtime) where
  open rt use {Float, lt_float}

  -- The second state has the view, and events of the kinds behind those of the first one.
  pub record Shows (s s' : State rt) (result : Alerts × List String) : Type 0 where
    pub events : List (Event rt)
    pub pending : s'.pending_events ≡ s.pending_events ++ events
    pub raised : kinds rt events ≡ result.1
    pub viewed : view rt s' ≡ result.0

  pub Shows-same :
      (s t : State rt) (result : Alerts × List String)
      → t.pending_events ≡ s.pending_events
      → result ≡ (view rt t, [])
      → Shows s t result
  Shows-same s t result p e = rw e (record {
    events = [];
    pending = p ∙ sym (append-nil s.pending_events);
    raised = refl;
    viewed = refl;
  })

  append_event-Shows :
      (s t : State rt) (kind : String) (now : ℕ) (channels : List String) (summary : Fields Float)
      (result : Alerts × List String)
      → t.pending_events ≡ s.pending_events
      → result ≡ (view rt t, kind ∷ [])
      → Shows s (append_event rt t kind now channels summary) result
  unfolding append_event new_event
  append_event-Shows s t kind now channels summary result p e =
      let event = new_event rt kind now (increment t.event_sequence) channels summary in
      rw e (record {
        events = event ∷ [];
        pending = ap (λ l. l ++ event ∷ []) p;
        raised = refl;
        viewed = refl;
      })

  pub kinds-append : (xs ys : List (Event rt)) → kinds rt (xs ++ ys) ≡ kinds rt xs ++ kinds rt ys
  kinds-append [] ys = refl
  kinds-append (x ∷ xs) ys = ap (λ l. x.kind ∷ l) (kinds-append xs ys)

  pub Shows-then :
      (s t u : State rt) (first second : Alerts × List String)
      → Shows s t first
      → Shows t u second
      → Shows s u (second.0, first.1 ++ second.1)
  Shows-then s t u first second f g = record {
    events = f.events ++ g.events;
    pending =
        g.pending
        ∙ ap (λ l. l ++ g.events) f.pending
        ∙ append_assoc s.pending_events f.events g.events;
    raised = kinds-append f.events g.events ∙ (rw (f.raised, g.raised) refl);
    viewed = g.viewed;
  }

  pub mark_data_failure-Shows :
      (s : State rt) (code : String) (input : Input rt) (now : ℕ)
      → Shows s (mark_data_failure rt s code input now) (fail input.failure_alert_count (view rt s))
  unfolding mark_data_failure
  mark_data_failure-Shows s code input now =
      let n = increment s.consecutive_failures in
      let next : State rt = record s { consecutive_failures = n; last_error_code = code } in
      elim (Bool-cases (leb_ℤ input.failure_alert_count n && not s.error_active)) [
        | inl raises ↦ rw raises (
            append_event-Shows s (record next { error_active = true }) event_data_error now
              input.channels (failure_summary rt n code) _ refl (ground arith))
        | inr quiet ↦ rw quiet (Shows-same s next _ refl (ground arith))
      ]

  pub evaluate_plan_changed-Shows :
      (s : State rt) (plans : Dict ℕ) (input : Input rt) (now : ℕ)
      → Shows s
          (evaluate_plan_changed rt s plans input now)
          (advance input.failure_alert_count false (view rt s) changed)
  unfolding evaluate_plan_changed
  evaluate_plan_changed-Shows s plans input now =
      let next = no_failures rt s in
      elim (Bool-cases s.plan_changed_active) [
        | inl known ↦
            let same : evaluate_plan_changed rt s plans input now ≡ next = ground arith in
            rw same (Shows-same s next _ refl (ground arith))
        | inr new ↦
            let t = record next { plan_changed_active = true } in
            let summary = field "unknown_plans" (counts plans) end in
            let same : evaluate_plan_changed rt s plans input now
                ≡ append_event rt t event_plan_changed now input.channels summary =
              ground arith in
            rw same (
              append_event-Shows s t event_plan_changed now input.channels summary _ refl
                (ground arith))
      ]

  pub evaluate_total-Shows :
      (s : State rt) (total : Float) (summary : Fields Float) (input : Input rt) (now : ℕ)
      → Shows s
          (evaluate_total rt s total summary input now)
          (rate (reminder_due rt s input now) (view rt s) (level_of rt total input))
  unfolding evaluate_total
  evaluate_total-Shows s total summary input now =
      let after = evaluate_total rt s total summary input now in
      let raise =
        λ (t : State rt) (kind : String). append_event rt t kind now input.channels summary in
      elim (Bool-cases (lt_float total input.low_threshold)) [
        | inl is_below ↦ elim (Bool-cases s.low_active) [
          | inl open_alert ↦ elim (Bool-cases (reminder_due rt s input now)) [
            | inl due ↦
                let same : after ≡ raise s event_low_reminder = ground arith in
                rw same (
                  append_event-Shows s s event_low_reminder now input.channels summary _ refl
                    (ground arith))
            | inr early ↦
                let same : after ≡ s = ground arith in
                rw same (Shows-same s s _ refl (ground arith))
          ]
          | inr no_alert ↦
              let t = record s { low_active = true } in
              let same : after ≡ raise t event_low = ground arith in
              rw same
                (append_event-Shows s t event_low now input.channels summary _ refl (ground arith))
        ]
        | inr not_below ↦ elim (Bool-cases (at_least rt total input.recovery_threshold)) [
          | inl is_above ↦ elim (Bool-cases s.low_active) [
            | inl open_alert ↦
                let t = record s { low_active = false } in
                let same : after ≡ raise t event_recovery = ground arith in
                rw same (
                  append_event-Shows s t event_recovery now input.channels summary _ refl
                    (ground arith))
            | inr no_alert ↦
                let same : after ≡ s = ground arith in
                rw same (Shows-same s s _ refl (ground arith))
          ]
          | inr is_between ↦
              let same : after ≡ s = ground arith in rw same (Shows-same s s _ refl (ground arith))
        ]
      ]
