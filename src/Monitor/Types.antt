-- ===== src/Monitor/Types.antt =====
-- The types and helpers of internal/monitor/types.go.
use Prim.Native.String.{slice, [] as no_text, ◌∷◌ as ◌∷ₜ◌}
use cpa_quota_alert_plugin.Base.{
  ℕ, ℤ, pos, negsuc, sub_ℕ, max_int, wrap, increment, ◌*ℤ◌, ltb_ℤ, String, ◌<>◌, code, len, Bool,
  Option, none, some, List, [], ◌∷◌, ◌++◌, ◌==◌, if◌then◌else◌, any, ltb, eqb, trim_space, to_lower,
  ◌||◌,
}
use cpa_quota_alert_plugin.Base.Dict.{Dict, insert}
use cpa_quota_alert_plugin.Runtime.{Runtime, Fields}
use cpa_quota_alert_plugin.Quota.Types.{Snapshot, QuotaError}

abbrev pub event_low : String
event_low = "low"

abbrev pub event_low_reminder : String
event_low_reminder = "low_reminder"

abbrev pub event_recovery : String
event_recovery = "recovery"

abbrev pub event_data_error : String
event_data_error = "data_error"

abbrev pub event_plan_changed : String
event_plan_changed = "plan_changed"

-- An error of a check: one of the two that the aggregation returns, or any other by its text.
pub data CheckError : Type 0 where
  of_quota : QuotaError → CheckError
  of_text : String → CheckError

-- Nanoseconds in a second.
abbrev pub second : ℕ
second = 1000000000

-- `now.Sub(t)`: a difference that no int64 holds is the nearest that one holds.
unfoldable pub time_sub : ℕ → ℕ → ℤ
time_sub now t =
    let d = sub_ℕ now t in
    if ltb_ℤ (pos max_int) d
    then pos max_int
    else if ltb_ℤ d (negsuc max_int)
    then negsuc max_int
    else d

-- `time.Duration(n) * time.Second`, which wraps.
unfoldable pub seconds : ℤ → ℤ
unfolding ◌*ℤ◌ wrap
seconds n = wrap (n *ℤ pos second)

module _ (rt : Runtime) where
  open rt use {Float, event_digest, lower}

  pub record Event : Type 0 where
    pub id : String
    pub kind : String
    pub created_at : ℕ
    pub summary : Fields Float
    pub delivery : Dict String

  pub record State : Type 0 where
    pub low_active : Bool
    pub plan_changed_active : Bool
    pub error_active : Bool
    pub consecutive_failures : ℤ
    pub last_low_delivered_at : ℕ
    pub last_recovery_delivered_at : ℕ
    pub last_error_delivered_at : ℕ
    pub last_plan_delivered_at : ℕ
    pub last_valid_total : Float
    pub last_valid_at : ℕ
    pub last_error_code : String
    pub pending_events : List Event
    pub delivered_events : Dict Event
    pub event_sequence : ℤ

  pub record Input : Type 0 where
    pub snapshot : Option (Snapshot rt)
    pub error : Option CheckError
    pub channels : List String
    pub low_threshold : Float
    pub recovery_threshold : Float
    pub reminder_seconds : ℤ
    pub failure_alert_count : ℤ

  unfoldable pub stable_event_id : String → ℕ → ℤ → Fields Float → String
  stable_event_id kind now sequence summary =
      kind <> ("-" <> event_digest kind now sequence summary)

  unfoldable pub pending_delivery : List String → Dict String → Dict String
  unfolding trim_space insert
  pending_delivery [] delivery = delivery
  pending_delivery (channel ∷ more) delivery =
      let name = trim_space channel in
      pending_delivery more (if name == "" then delivery else insert name "pending" delivery)

  unfoldable pub new_event : String → ℕ → ℤ → List String → Fields Float → Event
  unfolding stable_event_id pending_delivery
  new_event kind now sequence channels summary = record {
    id = stable_event_id kind now sequence summary;
    kind = kind;
    created_at = now;
    summary = summary;
    delivery = pending_delivery channels [];
  }

  unfoldable pub append_event : State → String → ℕ → List String → Fields Float → State
  append_event state kind now channels summary =
      let sequence = increment state.event_sequence in
      record state {
        event_sequence = sequence;
        pending_events = state.pending_events ++ new_event kind now sequence channels summary ∷ [];
      }

  unfoldable pub has_pending_kind : List Event → String → Bool
  has_pending_kind events kind = any (λ event. event.kind == kind) events

  -- The replacer of `stableErrorCode`.
  replace_code : String → String
  replace_code no_text = no_text
  replace_code (c ∷ₜ s) =
      let rest = replace_code s in
      if eqb (code c) 32 || eqb (code c) 45
      then "_" <> rest
      else if eqb (code c) 58
      then rest
      else c ∷ₜ rest

  -- The cut at 48 bytes.
  cut_code : String → String
  cut_code text =
      let t = if ltb 48 (len text) then slice text 0 48 else text in if t == "" then "error" else t

  -- `none` is `ErrNotComputable`, and any other error is its text.
  unfoldable pub stable_error_code : Option String → String
  unfolding replace_code cut_code to_lower
  stable_error_code none = "not_computable"
  stable_error_code (some text) = cut_code (replace_code (to_lower lower text))
