-- ===== src/Monitor/Deliver/Kept.antt =====
-- No event is lost on its way from the pending to the delivered ones.
use cpa_quota_alert_plugin.Base.{
  ℕ, String, Bool, true, false, ◌&&◌, ◌||◌, Option, none, some, List, [], ◌∷◌, ◌==◌, ◌≡◌, refl,
  arith, eq_iff, if◌then◌else◌, any,
}
use cpa_quota_alert_plugin.Base.Dict.{Dict, lookup, lookup-insert}
use cpa_quota_alert_plugin.Runtime.{Runtime}
use cpa_quota_alert_plugin.Monitor.Types.{Event, State}
use cpa_quota_alert_plugin.Monitor.Deliver.{
  status_at, update_delivered_time, all_configured_delivered, note_delivery, note_pending,
  file_delivered, mark_noted, mark_delivered,
}

module _ (rt : Runtime) where
  abbrev pub is_pending : String → List (Event rt) → Bool
  is_pending id events = any (λ e. e.id == id) events

  abbrev pub is_filed : String → Dict (Event rt) → Bool
  is_filed id filed = elim (lookup id filed) [ none ↦ false | some _ ↦ true ]

  -- The event is pending or delivered.
  abbrev pub is_known : String → State rt → Bool
  is_known id s = is_pending id s.pending_events || is_filed id s.delivered_events

  abbrev done : String → Option (Event rt) → Bool
  done j none = false
  done j (some e) = all_configured_delivered rt e && e.id == j

  id-note_delivery :
      (e : Event rt) (channel : String) (delivered : Bool)
      → (note_delivery rt e channel delivered).id ≡ e.id
  unfolding note_delivery
  id-note_delivery e channel delivered = ground arith

  is_pending-note_pending :
      (events : List (Event rt)) (id channel : String) (delivered : Bool) (j : String)
      → is_pending j events ≡ true
      → (is_pending j (note_pending rt events id channel delivered).0
          || done j (note_pending rt events id channel delivered).1)
        ≡ true
  unfolding note_pending
  is_pending-note_pending [] id channel delivered j h = cc
  is_pending-note_pending (e ∷ more) id channel delivered j h = ground (
    arith,
    id-note_delivery e channel delivered,
    is_pending-note_pending more id channel delivered j,
  )

  is_known-mark_noted :
      (s : State rt) (delivered : Bool) (now : ℕ) (r : List (Event rt) × Option (Event rt))
      (j : String)
      → (is_pending j s.pending_events ≡ true → (is_pending j r.0 || done j r.1) ≡ true)
      → is_known j s ≡ true
      → is_known j (mark_noted rt s delivered now r) ≡ true
  unfolding mark_noted file_delivered update_delivered_time
  is_known-mark_noted s delivered now (pending, none) j keep h = h
  is_known-mark_noted s delivered now (pending, some e) j keep h =
      ground (arith, lookup-insert e.id j e s.delivered_events)

  -- Noting a delivery loses no event: what was pending or delivered is so afterwards.
  pub is_known-mark_delivered :
      (s : State rt) (id channel : String) (delivered : Bool) (now : ℕ) (j : String)
      → is_known j s ≡ true
      → is_known j (mark_delivered rt s id channel delivered now) ≡ true
  unfolding mark_delivered
  is_known-mark_delivered s id channel delivered now j =
      is_known-mark_noted s delivered now (note_pending rt s.pending_events id channel delivered) j
        (is_pending-note_pending s.pending_events id channel delivered j)

  -- The outcome of one delivery changes the status of its own channel only, to "delivered" on success;
  -- a failure never takes "delivered" back.
  status_at-note_delivery :
      (e : Event rt) (channel j : String) (delivered : Bool)
      → status_at j (note_delivery rt e channel delivered).delivery ≡ (
          if channel == j
          then (if delivered || status_at j e.delivery == "delivered"
              then "delivered"
              else "failed")
          else status_at j e.delivery)
  unfolding note_delivery
  status_at-note_delivery e channel j delivered = ground (
    arith,
    lookup-insert channel j "delivered" e.delivery,
    lookup-insert channel j "failed" e.delivery,
    eq_iff channel j,
    eq_iff (status_at j e.delivery) "delivered",
    eq_iff (status_at channel e.delivery) "delivered",
  )

  low_active-mark_noted :
      (s : State rt) (delivered : Bool) (now : ℕ) (r : List (Event rt) × Option (Event rt))
      → (mark_noted rt s delivered now r).low_active ≡ s.low_active
  unfolding mark_noted file_delivered update_delivered_time
  low_active-mark_noted s delivered now (pending, none) = refl
  low_active-mark_noted s delivered now (pending, some e) = ground arith

  pub low_active-mark_delivered :
      (s : State rt) (id channel : String) (delivered : Bool) (now : ℕ)
      → (mark_delivered rt s id channel delivered now).low_active ≡ s.low_active
  unfolding mark_delivered
  low_active-mark_delivered s id channel delivered now =
      low_active-mark_noted s delivered now (note_pending rt s.pending_events id channel delivered)
