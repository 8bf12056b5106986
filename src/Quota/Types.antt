-- ===== src/Quota/Types.antt =====
-- The types and constants of internal/quota/types.go, `normalize` and the search for a plan rule.
pub mod Order
use cpa_quota_alert_plugin.Base.{
  ℕ, ℤ, String, Char, code, Bool, true, false, ◌&&◌, ◌||◌, not, Option, none, some, List, [], ◌∷◌,
  ◌==◌, if◌then◌else◌, trim_space, to_lower, remove, any, eqb,
}
use cpa_quota_alert_plugin.Base.Dict.{Dict}
use cpa_quota_alert_plugin.Runtime.{Runtime}

abbrev pub window_5h : String
window_5h = "5h"

abbrev pub window_7d : String
window_7d = "7d"

abbrev pub window_5h_seconds : ℕ
window_5h_seconds = 18000

abbrev pub window_7d_seconds : ℕ
window_7d_seconds = 604800

module _ (rt : Runtime) where
  open rt use {Float, literal, eq_float}

  pub record Window : Type 0 where
    pub name : String
    pub used_percent : Float
    pub remaining_percent : Float
    pub reset_known : Bool

  pub record AccountQuota : Type 0 where
    pub plan_type : String
    pub windows : Dict Window

  pub record PlanRule : Type 0 where
    pub name : String
    pub aliases : List String
    pub window : String
    pub weight : Float

  pub record Rules : Type 0 where
    pub plan_rules : Dict PlanRule
    pub ignored_plans : List String
    pub terminal_error_codes : List String

  pub record AccountInput : Type 0 where
    pub enabled : Bool
    pub plan_type : String
    pub body : String
    pub error_code : String

  pub record AccountObservation : Type 0 where
    pub plan : String
    pub canonical_plan : String
    pub weighted_remaining : Float
    pub terminal_zero : Bool
    pub terminal_code : String
    pub unresolved_code : String
    pub unknown_plan : String
    pub partial : Bool
    pub success : Bool
    pub window : String

  -- `AccountObservation{}`
  abbrev pub no_observation : AccountObservation
  no_observation = record {
    plan = "";
    canonical_plan = "";
    weighted_remaining = literal 0 0;
    terminal_zero = false;
    terminal_code = "";
    unresolved_code = "";
    unknown_plan = "";
    partial = false;
    success = false;
    window = "";
  }

  -- `obs == (AccountObservation{})`: Go compares the fields in turn.
  unfoldable pub is_no_observation : AccountObservation → Bool
  is_no_observation obs =
      obs.plan == ""
      && obs.canonical_plan == ""
      && eq_float obs.weighted_remaining (literal 0 0)
      && not obs.terminal_zero
      && obs.terminal_code == ""
      && obs.unresolved_code == ""
      && obs.unknown_plan == ""
      && not obs.partial
      && not obs.success
      && obs.window == ""

  pub record PlanBreakdown : Type 0 where
    pub accounts : ℕ
    pub terminal_zero_count : ℕ
    pub remaining : Float

  -- A time is the number of nanoseconds since Go's zero time.
  pub record Snapshot : Type 0 where
    pub timestamp : ℕ
    pub total : Float
    pub total_by_window : Dict Float
    pub plans : Dict PlanBreakdown
    pub terminal_error_counts : Dict ℕ
    pub unresolved_code_counts : Dict ℕ
    pub unknown_plan_counts : Dict ℕ
    pub partial : Bool

-- The errors that `Aggregate` returns.
pub data QuotaError : Type 0 where
  plan_changed : Dict ℕ → QuotaError
  not_computable : QuotaError

-- ' ', '_' and '-'
abbrev pub is_separator : Char → Bool
is_separator c = eqb (code c) 32 || eqb (code c) 95 || eqb (code c) 45

module _ (rt : Runtime) where
  open rt use {lower}

  unfoldable pub normalize : String → String
  unfolding trim_space to_lower remove
  normalize value = remove is_separator (to_lower lower (trim_space value))

  unfoldable pub contains_normalized : List String → String → Bool
  contains_normalized values needle =
      let n = normalize needle in any (λ value. normalize value == n) values

  unfoldable pub normalize_rule : PlanRule rt → PlanRule rt
  normalize_rule rule = record rule { name = normalize rule.name }

  -- Whether the rule answers to an alias that is normalized.
  unfoldable pub answers : String → PlanRule rt → Bool
  answers alias rule =
      normalize rule.name == alias || any (λ candidate. normalize candidate == alias) rule.aliases

  -- The loop of `findRule` over the rules, in the order of the list.
  unfoldable pub first_rule : String → Dict (PlanRule rt) → Option (PlanRule rt)
  unfolding normalize_rule answers
  first_rule alias [] = none
  first_rule alias ((_, rule) ∷ rules) =
      if answers alias rule then some (normalize_rule rule) else first_rule alias rules

  unfoldable pub find_rule : String → Dict (PlanRule rt) → Option (PlanRule rt)
  unfolding first_rule
  find_rule alias rules = first_rule (normalize alias) rules
