-- ===== src/Monitor/Deliver.antt =====
-- `MarkDelivered` of internal/monitor/types.go: the outcome of one delivery.
pub mod Filed
pub mod Kept
pub mod Latches
use cpa_quota_alert_plugin.Base.{
  ℕ, String, Bool, true, false, not, ◌&&◌, ◌||◌, Option, none, some, List, [], ◌∷◌, ◌==◌,
  if◌then◌else◌,
}
use cpa_quota_alert_plugin.Base.Dict.{Dict, lookup, insert}
use cpa_quota_alert_plugin.Runtime.{Runtime}
use cpa_quota_alert_plugin.Monitor.Types.{
  Event, State, event_low, event_low_reminder, event_recovery, event_data_error, event_plan_changed,
}

abbrev pub status_at : String → Dict String → String
status_at channel delivery = elim (lookup channel delivery) [ none ↦ "" | some s ↦ s ]

-- `len(delivery) == 0`
abbrev pub has_no_channel : Dict String → Bool
has_no_channel [] = true
has_no_channel (_ ∷ _) = false

-- The loop of `allConfiguredDelivered`.
unfoldable pub all_delivered : Dict String → Bool
all_delivered [] = true
all_delivered ((_, status) ∷ more) = status == "delivered" && all_delivered more

module _ (rt : Runtime) where
  unfoldable pub update_delivered_time : State rt → String → ℕ → State rt
  update_delivered_time s kind now =
      if kind == event_low || kind == event_low_reminder
      then record s { last_low_delivered_at = now }
      else if kind == event_recovery
      then record s { last_recovery_delivered_at = now }
      else if kind == event_data_error
      then record s { last_error_delivered_at = now }
      else if kind == event_plan_changed
      then record s { last_plan_delivered_at = now }
      else s

  unfoldable pub all_configured_delivered : Event rt → Bool
  unfolding all_delivered
  all_configured_delivered event =
      not (has_no_channel event.delivery) && all_delivered event.delivery

  -- The event with the outcome of the delivery noted.
  unfoldable pub note_delivery : Event rt → String → Bool → Event rt
  note_delivery event channel delivered =
      if delivered
      then record event { delivery = insert channel "delivered" event.delivery }
      else if status_at channel event.delivery == "delivered"
      then event
      else record event { delivery = insert channel "failed" event.delivery }

  -- The loop over the pending events, which stops at the first with the id: what is left of them,
  -- and that event once noted.
  unfoldable pub note_pending :
      List (Event rt) → String → String → Bool → List (Event rt) × Option (Event rt)
  unfolding note_delivery all_configured_delivered
  note_pending [] id channel delivered = ([], none)
  note_pending (event ∷ more) id channel delivered =
      let (rest, found) = note_pending more id channel delivered in
      let noted = note_delivery event channel delivered in
      if event.id == id
      then (if all_configured_delivered noted then more else noted ∷ more, some noted)
      else (event ∷ rest, found)

  -- `next.DeliveredEvents[event.ID] = *event`, once every channel has the event.
  file_delivered : State rt → Event rt → State rt
  unfolding all_configured_delivered
  file_delivered s event =
      if all_configured_delivered event
      then record s { delivered_events = insert event.id event s.delivered_events }
      else s

  mark_noted : State rt → Bool → ℕ → List (Event rt) × Option (Event rt) → State rt
  unfolding file_delivered update_delivered_time
  mark_noted s delivered now (pending, none) = s
  mark_noted s delivered now (pending, some event) =
      let timed = if delivered then update_delivered_time s event.kind now else s in
      file_delivered (record timed { pending_events = pending }) event

  unfoldable pub mark_delivered : State rt → String → String → Bool → ℕ → State rt
  unfolding note_pending mark_noted
  mark_delivered current id channel delivered now =
      mark_noted current delivered now (note_pending current.pending_events id channel delivered)
