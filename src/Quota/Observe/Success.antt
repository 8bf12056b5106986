-- ===== src/Quota/Observe/Success.antt =====
-- What a successful observation says of the account.
use cpa_quota_alert_plugin.Base.{
  String, Bool, true, false, ◌||◌, Option, none, some, ◌==◌, ◌≡◌, refl, arith, Bool-cases, inl, inr,
}
use cpa_quota_alert_plugin.Base.Dict.{lookup}
use cpa_quota_alert_plugin.Runtime.{Runtime}
use cpa_quota_alert_plugin.Quota.Types.{
  Window, AccountQuota, PlanRule, Rules, AccountObservation, normalize, contains_normalized,
  find_rule,
}
use cpa_quota_alert_plugin.Quota.Observe.{observe_window, observe_rule, observe_quota}

module _ (rt : Runtime) where
  abbrev outside : Window rt → Bool
  outside w =
      rt.lt_float w.remaining_percent (rt.literal 0 0)
      || rt.lt_float (rt.literal 100 0) w.remaining_percent

  -- The rule and the window behind the observation.
  pub record Weighted (account : AccountQuota rt) (rules : Rules rt) (o : AccountObservation rt)
      : Type 0 where
    pub rule : PlanRule rt
    pub report : Window rt
    pub plan : normalize rt account.plan_type ≡ o.plan
    pub counted : contains_normalized rt rules.ignored_plans o.plan ≡ false
    pub found : find_rule rt o.plan rules.plan_rules ≡ some rule
    pub reported : lookup rule.window account.windows ≡ some report
    pub bounds :
        (rt.lt_float report.remaining_percent (rt.literal 0 0) ≡ false)
        × (rt.lt_float (rt.literal 100 0) report.remaining_percent ≡ false)
    pub weighted :
        o.weighted_remaining
        ≡ rt.mul (rt.div report.remaining_percent (rt.literal 100 0)) rule.weight
    pub canonical : (o.canonical_plan ≡ rule.name) × (o.window ≡ rule.window)

  observe_window-Weighted :
      (account : AccountQuota rt) (rules : Rules rt) (plan : String) (rule : PlanRule rt)
      (found : Option (Window rt))
      → normalize rt account.plan_type ≡ plan
      → contains_normalized rt rules.ignored_plans plan ≡ false
      → find_rule rt plan rules.plan_rules ≡ some rule
      → lookup rule.window account.windows ≡ found
      → (observe_window rt plan rule found).success ≡ true
      → Weighted account rules (observe_window rt plan rule found)
  unfolding observe_window
  observe_window-Weighted account rules plan rule none p c r l h = cc
  observe_window-Weighted account rules plan rule (some w) p c r l h =
      elim (Bool-cases (outside w)) [
        | inl out ↦ absurd (ground arith)
        | inr within ↦ rw within (record {
          rule = rule;
          report = w;
          plan = p;
          counted = c;
          found = r;
          reported = l;
          bounds = ground arith;
          weighted = refl;
          canonical = (refl, refl);
        })
      ]

  observe_rule-Weighted :
      (account : AccountQuota rt) (rules : Rules rt) (plan : String) (found : Option (PlanRule rt))
      → normalize rt account.plan_type ≡ plan
      → contains_normalized rt rules.ignored_plans plan ≡ false
      → find_rule rt plan rules.plan_rules ≡ found
      → (observe_rule rt plan account found).success ≡ true
      → Weighted account rules (observe_rule rt plan account found)
  unfolding observe_rule
  observe_rule-Weighted account rules plan none p c r h = cc
  observe_rule-Weighted account rules plan (some rule) p c r h =
      observe_window-Weighted account rules plan rule _ p c r refl h

  -- A quota is counted as a success only for a plan that is not ignored and has a rule, whose window
  -- the account reports with 0 to 100 per cent remaining; it weighs that share times the rule's weight,
  -- under the rule's name and window.
  pub observe_quota-Weighted :
      (account : AccountQuota rt) (rules : Rules rt)
      → (observe_quota rt account rules).success ≡ true
      → Weighted account rules (observe_quota rt account rules)
  unfolding observe_quota
  observe_quota-Weighted account rules h =
      let plan = normalize rt account.plan_type in
      elim (Bool-cases (plan == "")) [
        | inl missing ↦ absurd (ground arith)
        | inr named ↦ elim (Bool-cases (contains_normalized rt rules.ignored_plans plan)) [
          | inl ignored ↦ absurd (ground arith)
          | inr counted ↦
              rw (named, counted)
                (observe_rule-Weighted account rules plan _ refl counted refl
                  (rw (named, counted) at h))
        ]
      ]
