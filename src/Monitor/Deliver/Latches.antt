-- ===== src/Monitor/Deliver/Latches.antt =====
-- A delivery leaves the latches of the monitor as they are.
use cpa_quota_alert_plugin.Base.{ℕ, String, Bool, List, ◌≡◌, refl, arith, Option, none, some}
use cpa_quota_alert_plugin.Runtime.{Runtime}
use cpa_quota_alert_plugin.Monitor.Types.{Event, State}
use cpa_quota_alert_plugin.Monitor.Deliver.{
  update_delivered_time, file_delivered, note_pending, mark_noted, mark_delivered,
}
use cpa_quota_alert_plugin.Monitor.Evaluate.Abstract.{view}

module _ (rt : Runtime) where
  view-mark_noted :
      (s : State rt) (delivered : Bool) (now : ℕ) (l : List (Event rt)) (e : Option (Event rt))
      → view rt (mark_noted rt s delivered now (l, e)) ≡ view rt s
  unfolding mark_noted file_delivered update_delivered_time
  view-mark_noted s delivered now l none = refl
  view-mark_noted s delivered now l (some e) = ground arith

  pub view-mark_delivered :
      (s : State rt) (id channel : String) (delivered : Bool) (now : ℕ)
      → view rt (mark_delivered rt s id channel delivered now) ≡ view rt s
  unfolding mark_delivered
  view-mark_delivered s id channel delivered now =
      let noted = note_pending rt s.pending_events id channel delivered in
      view-mark_noted s delivered now noted.0 noted.1
