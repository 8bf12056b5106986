-- ===== src/Quota/Observe.antt =====
-- `ObserveAccount` and `observeQuota` of internal/quota/types.go.
pub mod Success
use cpa_quota_alert_plugin.Base.{
  String, ◌<>◌, Bool, true, false, ◌||◌, Option, none, some, ◌==◌, if◌then◌else◌, Result, ok, err,
}
use cpa_quota_alert_plugin.Base.Dict.{lookup}
use cpa_quota_alert_plugin.Runtime.{Runtime}
use cpa_quota_alert_plugin.Quota.Types.{
  Window, AccountQuota, PlanRule, Rules, AccountInput, AccountObservation, no_observation,
  normalize, contains_normalized, find_rule,
}
use cpa_quota_alert_plugin.Quota.Wham.{WhamError, parse_wham}

module _ (rt : Runtime) where
  open rt use {Float, lt_float, mul, div, literal}

  -- `AccountObservation{UnresolvedCode: code, Partial: true}`
  abbrev pub unresolved : String → AccountObservation rt
  unresolved code = record (no_observation rt) { unresolved_code = code; partial = true }

  observe_window : String → PlanRule rt → Option (Window rt) → AccountObservation rt
  observe_window plan rule none = unresolved ("missing_" <> rule.window)
  observe_window plan rule (some window) =
      if lt_float window.remaining_percent (literal 0 0)
        || lt_float (literal 100 0) window.remaining_percent
      then unresolved "invalid_remaining"
      else record (no_observation rt) {
        plan = plan;
        canonical_plan = rule.name;
        weighted_remaining = mul (div window.remaining_percent (literal 100 0)) rule.weight;
        success = true;
        window = rule.window;
      }

  observe_rule : String → AccountQuota rt → Option (PlanRule rt) → AccountObservation rt
  unfolding observe_window
  observe_rule plan account none = record (no_observation rt) { plan = plan; unknown_plan = plan }
  observe_rule plan account (some rule) =
      observe_window plan rule (lookup rule.window account.windows)

  unfoldable pub observe_quota : AccountQuota rt → Rules rt → AccountObservation rt
  unfolding observe_rule
  observe_quota account rules =
      let plan = normalize rt account.plan_type in
      if plan == ""
      then unresolved "missing_plan"
      else if contains_normalized rt rules.ignored_plans plan
      then no_observation rt
      else observe_rule plan account (find_rule rt plan rules.plan_rules)

  -- The error result of `ObserveAccount` is that of the parser.
  observe_report :
      String
      → Rules rt
      → Result WhamError (AccountQuota rt)
      → AccountObservation rt × Option WhamError
  observe_report plan_type rules (err e) = (unresolved "parse_error", some e)
  observe_report plan_type rules (ok quota) =
      let quota' = if plan_type == "" then quota else record quota { plan_type = plan_type } in
      (observe_quota quota' rules, none)

  unfoldable pub observe_account :
      AccountInput rt → Rules rt → AccountObservation rt × Option WhamError
  unfolding observe_report
  observe_account input rules =
      if input.enabled
      then (if input.error_code == ""
          then observe_report input.plan_type rules (parse_wham rt input.body)
          else if contains_normalized rt rules.terminal_error_codes input.error_code
          then (
            record (no_observation rt) {
              terminal_zero = true;
              terminal_code = normalize rt input.error_code;
            },
            none,
          )
          else (unresolved (normalize rt input.error_code), none))
      else (no_observation rt, none)
