-- ===== src/Tests/Quotas.antt =====
-- The theorems on quotas, requests and accounts at concrete data.
use mathlib.Core.List.{Permᴰ}
use cpa_quota_alert_plugin.Base.{
  ℕ, ◌+◌, pos, increment, true, false, ◌&&◌, none, some, List, [], ◌∷◌, ◌≡◌, refl, arith, All,
  filter, length, count, ok, any, eqb, if◌then◌else◌,
}
use cpa_quota_alert_plugin.Base.Dict.{Dict, count_at, lookup, insert}
use cpa_quota_alert_plugin.Quota.Types.{
  PlanRule, Rules, AccountQuota, Window, AccountObservation, no_observation, find_rule, normalize,
  answers, contains_normalized, plan_changed, not_computable,
}
use cpa_quota_alert_plugin.Quota.Types.Order.{find_rule-perm}
use cpa_quota_alert_plugin.Quota.Wham.{parse_wham, round_4, has_reset_info}
use cpa_quota_alert_plugin.Quota.Wham.Bounds.{InRange, parse_wham-InRange}
use cpa_quota_alert_plugin.Quota.Observe.{observe_quota}
use cpa_quota_alert_plugin.Quota.Observe.Success.{Weighted, observe_quota-Weighted}
use cpa_quota_alert_plugin.Quota.Aggregate.{kind, aggregate_observations}
use cpa_quota_alert_plugin.Quota.Aggregate.Counts.{
  is_unresolved, is_unknown, is_terminal, any_unknown, any_unresolved, is_computable, sum_success,
  aggregate_observations-counts, aggregate_observations-error, aggregate_observations-total,
}
use cpa_quota_alert_plugin.Codex.Types.{AuthEntry, Outcome, responded, Settings}
use cpa_quota_alert_plugin.Codex.Fetch.{fetch_quota}
use cpa_quota_alert_plugin.Codex.Fetch.Retries.{Decides, fetch_quota-Decides}
use cpa_quota_alert_plugin.Codex.Check.{select_codex}
use cpa_quota_alert_plugin.Codex.Check.Selection.{is_candidate, select_codex-candidates}
use cpa_quota_alert_plugin.Tests.Machine.{runtime}

abbrev pro_rule : PlanRule runtime
pro_rule = record { name = "pro"; aliases = "p" ∷ []; window = "5h"; weight = 200 }

abbrev team_rule : PlanRule runtime
team_rule = record { name = "team"; aliases = []; window = "7d"; weight = 100 }

abbrev two_rules : Dict (PlanRule runtime)
two_rules = ("pro", pro_rule) ∷ ("team", team_rule) ∷ []

abbrev turned_rules : Dict (PlanRule runtime)
turned_rules = ("team", team_rule) ∷ ("pro", pro_rule) ∷ []

find_rule-perm_example : find_rule runtime "pro" two_rules ≡ find_rule runtime "pro" turned_rules
unfolding normalize
find_rule-perm_example =
    find_rule-perm runtime "pro" (Permᴰ.swap refl refl) (unfold normalize answers in omega arith)

abbrev used_window : Window runtime
used_window = record { name = "5h"; used_percent = 40; remaining_percent = 60; reset_known = false }

abbrev pro_account : AccountQuota runtime
pro_account = record { plan_type = "pro"; windows = ("5h", used_window) ∷ [] }

report_read : parse_wham runtime "report" ≡ ok pro_account
unfolding parse_wham insert round_4 has_reset_info
report_read = refl

parse_wham-InRange_example : All (λ e. InRange runtime e.1) pro_account.windows
parse_wham-InRange_example = parse_wham-InRange runtime "report" pro_account report_read

abbrev rules : Rules runtime
rules = record {
  plan_rules = two_rules;
  ignored_plans = "free" ∷ [];
  terminal_error_codes = "deactivated" ∷ [];
}

pro_counted : (observe_quota runtime pro_account rules).success ≡ true
unfolding observe_quota normalize contains_normalized find_rule lookup
pro_counted = refl

observe_quota-Weighted_example :
    Weighted runtime pro_account rules (observe_quota runtime pro_account rules)
observe_quota-Weighted_example = observe_quota-Weighted runtime pro_account rules pro_counted

abbrev observations : List (AccountObservation runtime)
observations =
    record (no_observation runtime) {
      plan = "pro";
      canonical_plan = "pro";
      weighted_remaining = 120;
      success = true;
      window = "5h";
    }
    ∷ record (no_observation runtime) { plan = "new"; unknown_plan = "new" }
    ∷ record (no_observation runtime) { unresolved_code = "http_500"; partial = true }
    ∷ record (no_observation runtime) { unresolved_code = "http_500"; partial = true }
    ∷ record (no_observation runtime) { terminal_zero = true; terminal_code = "deactivated" }
    ∷ []

two_unresolved : count (λ o. is_unresolved "http_500" (kind runtime o)) observations ≡ 2
unfolding kind
two_unresolved = refl

aggregate_observations-counts_example :
    let snap = (aggregate_observations runtime observations 7).0 in
    (count_at "http_500" snap.unresolved_code_counts
      ≡ count (λ o. is_unresolved "http_500" (kind runtime o)) observations)
    × (count_at "http_500" snap.unknown_plan_counts
        ≡ count (λ o. is_unknown "http_500" (kind runtime o)) observations)
    × (count_at "http_500" snap.terminal_error_counts
        ≡ count (λ o. is_terminal "http_500" (kind runtime o)) observations)
aggregate_observations-counts_example =
    aggregate_observations-counts runtime observations 7 "http_500"

aggregate_observations-error_example :
    let (snap, error) = aggregate_observations runtime observations 7 in
    error ≡ (
      if any (λ o. any_unknown (kind runtime o)) observations
      then some (plan_changed snap.unknown_plan_counts)
      else if any (λ o. is_computable (kind runtime o)) observations
      then none
      else some not_computable)
aggregate_observations-error_example = aggregate_observations-error runtime observations 7

aggregate_observations-total_example :
    let snap = (aggregate_observations runtime observations 7).0 in
    (snap.partial ≡ any (λ o. any_unresolved (kind runtime o)) observations)
    × (snap.total ≡ round_4 runtime (sum_success runtime 0 observations))
aggregate_observations-total_example = aggregate_observations-total runtime observations 7

abbrev settings : Settings runtime
settings = record {
  retry_attempts = pos 2;
  plan_rules = two_rules;
  ignored_plans = [];
  terminal_error_codes = [];
}

-- A server error, and then a report.
abbrev answers_of_host : ℕ → Outcome
answers_of_host n = if eqb n 0 then responded (pos 500) "" else responded (pos 200) "report"

second_attempt : fetch_quota runtime settings answers_of_host ≡ (ok "report", 2)
unfolding fetch_quota increment
second_attempt = refl

fetch_quota-Decides_example :
    Decides runtime settings answers_of_host 3 0 (fetch_quota runtime settings answers_of_host)
fetch_quota-Decides_example =
    fetch_quota-Decides runtime settings answers_of_host 2 refl (omega arith)

abbrev codex_account : AuthEntry
codex_account = record {
  auth_index = "1";
  type_name = "codex";
  provider = "";
  status = "";
  disabled = false;
  unavailable = true;
  runtime_only = false;
}

abbrev accounts : List AuthEntry
accounts =
    codex_account
    ∷ record codex_account { disabled = true }
    ∷ record codex_account { type_name = "x" }
    ∷ []

select_codex-candidates_example :
    let (selected, stats) = select_codex runtime accounts in
    (selected ≡ filter (is_candidate runtime) accounts)
    × (stats.selected ≡ length selected)
    × (stats.disabled + stats.skipped + stats.selected ≡ length accounts)
    × (stats.disabled ≡ count (λ (e : AuthEntry). e.disabled) accounts)
    × (stats.unavailable
        ≡ count (λ (e : AuthEntry). is_candidate runtime e && e.unavailable) accounts)
select_codex-candidates_example = select_codex-candidates runtime accounts
