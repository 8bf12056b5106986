-- ===== src/Store/Load.antt =====
-- `Load` of internal/state/store.go.
use cpa_quota_alert_plugin.Base.{Bool, String, Option, none, some, Result, ok, err, if◌then◌else◌}
use cpa_quota_alert_plugin.Base.Dict.{lookup}
use cpa_quota_alert_plugin.Runtime.{Runtime, Any, object}
use cpa_quota_alert_plugin.Monitor.Types.{State}
use cpa_quota_alert_plugin.Store.Save.{Content, Disk}

-- The JSON coding of the state, which is the standard library's.
pub record Coding (rt : Runtime) : Type 0 where
  -- `json.MarshalIndent`
  pub marshal : State rt → Option Content
  -- `json.Unmarshal` into an `any`, and into a `monitor.State`
  pub probe : Content → Option (Any rt.Float)
  pub unmarshal : Content → Option (State rt)
  -- `monitor.State{}`
  pub zero_state : State rt

-- How a read of the state file ends.
pub data LoadError : Type 0 where
  open_failed read_failed bad_json not_an_object bad_state : LoadError

module _ (rt : Runtime) (coding : Coding rt) where
  unfoldable pub decode_probed : Content → Option (Any rt.Float) → Result LoadError (State rt)
  decode_probed bytes (some (object _)) = elim (coding.unmarshal bytes) [
    | none ↦ err bad_state
    | some s ↦ ok s
  ]
  decode_probed bytes (some _) = err not_an_object
  decode_probed bytes none = err bad_json

  -- The flags say whether opening an existing file and reading it succeed.
  unfoldable pub load : Bool → Bool → String → Disk → Result LoadError (State rt)
  unfolding decode_probed
  load opens reads path d = elim (lookup path d) [
    | none ↦ ok coding.zero_state
    | some bytes ↦
        if opens
        then (if reads then decode_probed bytes (coding.probe bytes) else err read_failed)
        else err open_failed
  ]
