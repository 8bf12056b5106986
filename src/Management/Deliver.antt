-- ===== src/Management/Deliver.antt =====
-- `deliverPending` of internal/management/handler.go.
pub mod Order
use cpa_quota_alert_plugin.Base.{
  ℕ, suc, String, Bool, true, false, not, ◌||◌, Option, none, some, List, [], ◌∷◌, ◌++◌, ◌==◌,
  if◌then◌else◌, contains,
}
use cpa_quota_alert_plugin.Base.Dict.{Dict}
use cpa_quota_alert_plugin.Runtime.{Runtime}
use cpa_quota_alert_plugin.Monitor.Types.{Event, State}
use cpa_quota_alert_plugin.Monitor.Deliver.{mark_delivered}
use cpa_quota_alert_plugin.Management.Types.{Dependencies, DeliveryResult, Effect, saved, sent}
use cpa_quota_alert_plugin.Management.Channels.{delivery_error_code, delivery_status}

module _ (rt : Runtime) (deps : Dependencies rt) where
  -- The variables of the loop, the effects so far, the saves so far, and whether a save has failed, at
  -- which the function returns.
  pub record Progress : Type 0 where
    pub state : State rt
    pub results : List DeliveryResult
    pub effects : List (Effect rt)
    pub saves : ℕ
    pub stopped : Bool

  abbrev code_of : Option String → String
  code_of none = ""
  code_of (some code) = delivery_error_code code

  abbrev pub succeeded : Option String → Bool
  succeeded none = true
  succeeded (some _) = false

  -- `MarkDelivered` with the outcome, its result, and the save of the state.
  unfoldable pub note : Progress → Event rt → String → Option String → Progress
  unfolding mark_delivered delivery_error_code
  note p event channel outcome =
      let delivered = succeeded outcome in
      let state = mark_delivered rt p.state event.id channel delivered deps.now in
      record {
        state = state;
        results =
            p.results
            ++ record {
              event_id = event.id;
              channel = channel;
              status = delivery_status delivered;
              error_code = code_of outcome;
            }
              ∷ [];
        effects = p.effects ++ (if deps.save p.saves then saved state ∷ [] else []);
        saves = suc p.saves;
        stopped = not (deps.save p.saves);
      }

  -- One channel of one event: a message that does not render is a failure with nothing sent.
  attempt : Progress → Event rt → String → Option String → Progress
  unfolding note
  attempt p event channel (some code) = note p event channel (some code)
  attempt p event channel none =
      note (record p { effects = p.effects ++ sent channel event ∷ [] }) event channel
        (deps.send channel event)

  unfoldable pub deliver_channel : List String → Progress → Event rt → String → String → Progress
  unfolding attempt
  deliver_channel senders p event channel status =
      if p.stopped || status == "delivered" || not (contains senders channel)
      then p
      else attempt p event channel (deps.render event)

  -- The inner loop.
  unfoldable pub deliver_event : List String → Progress → Event rt → Dict String → Progress
  unfolding deliver_channel
  deliver_event senders p event [] = p
  deliver_event senders p event ((channel, status) ∷ more) =
      deliver_event senders (deliver_channel senders p event channel status) event more

  -- The outer loop.
  unfoldable pub deliver_events : List String → Progress → List (Event rt) → Progress
  unfolding deliver_event
  deliver_events senders p [] = p
  deliver_events senders p (event ∷ more) =
      deliver_events senders (deliver_event senders p event event.delivery) more

  -- The state, the effects before and the saves before are the caller's.
  unfoldable pub deliver_pending : List String → State rt → List (Effect rt) → ℕ → Progress
  unfolding deliver_events
  deliver_pending senders state effects saves =
      deliver_events senders
        (record { state = state; results = []; effects = effects; saves = saves; stopped = false })
        state.pending_events
