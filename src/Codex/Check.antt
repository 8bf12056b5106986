-- ===== src/Codex/Check.antt =====
-- `selectCodex`, `checkOne` and `Check` of internal/codexquota/service.go.
pub mod Selection
use cpa_quota_alert_plugin.Base.{
  ℕ, zero, suc, ◌+◌, ℤ, String, Bool, true, false, not, ◌&&◌, ◌||◌, Option, none, some, List, [],
  ◌∷◌, ◌==◌, if◌then◌else◌, Result, ok, err, trim_space, to_lower, length, eqb,
}
use cpa_quota_alert_plugin.Base.Dict.{Dict}
use cpa_quota_alert_plugin.Runtime.{Runtime}
use cpa_quota_alert_plugin.Quota.Types.{
  Rules, AccountInput, AccountObservation, no_observation, is_no_observation,
}
use cpa_quota_alert_plugin.Quota.Observe.{observe_account}
use cpa_quota_alert_plugin.Codex.Types.{
  AuthEntry, Host, DiscoveryStats, no_stats, add_stats, Credential, Settings,
}
use cpa_quota_alert_plugin.Codex.Credential.{parse_credential}
use cpa_quota_alert_plugin.Codex.Fetch.{fetch_quota}

module _ (rt : Runtime) where
  -- `strings.EqualFold` with "codex": the letters of that word fold to their lower cases alone.
  unfoldable pub is_codex : String → Bool
  unfolding trim_space to_lower
  is_codex value = to_lower rt.lower (trim_space value) == "codex"

  -- The loop of `selectCodex`; the entries and counters that the rest gives come last.
  unfoldable pub select_codex : List AuthEntry → List AuthEntry × DiscoveryStats
  unfolding is_codex
  select_codex [] = ([], no_stats)
  select_codex (entry ∷ more) =
      let (selected, stats) = select_codex more in
      if entry.disabled
      then (selected, record stats { disabled = stats.disabled + 1 })
      else if not (is_codex entry.provider) && not (is_codex entry.type_name)
      then (selected, record stats { skipped = stats.skipped + 1 })
      else (
        entry ∷ selected,
        record stats {
          unavailable = if entry.unavailable then stats.unavailable + 1 else stats.unavailable;
          selected = stats.selected + 1;
        },
      )

  -- `Service.rules`
  abbrev pub rules : Settings rt → Rules rt
  rules cfg = record {
    plan_rules = cfg.plan_rules;
    ignored_plans = cfg.ignored_plans;
    terminal_error_codes = cfg.terminal_error_codes;
  }

  observe_error : Settings rt → String → AccountObservation rt
  unfolding observe_account
  observe_error cfg code =
      (observe_account rt (record { enabled = true; plan_type = ""; body = ""; error_code = code })
        (rules cfg)).0

  observe_fetched : Settings rt → Result String String → AccountObservation rt
  unfolding observe_error
  observe_fetched cfg (err code) = observe_error cfg code
  observe_fetched cfg (ok body) =
      (observe_account rt (record { enabled = true; plan_type = ""; body = body; error_code = "" })
        (rules cfg)).0

  check_credential :
      Settings rt → Host → Result String Credential → AccountObservation rt × DiscoveryStats
  unfolding observe_fetched fetch_quota
  check_credential cfg host (err _) =
      (observe_error cfg "credential_invalid", record no_stats { unreadable = 1 })
  check_credential cfg host (ok credential) =
      (observe_fetched cfg (fetch_quota rt cfg (host.http_do credential)).0, no_stats)

  check_auth : Settings rt → Host → Option String → AccountObservation rt × DiscoveryStats
  unfolding check_credential parse_credential
  check_auth cfg host none =
      (observe_error cfg "auth_get_error", record no_stats { get_failed = 1 })
  check_auth cfg host (some auth) = check_credential cfg host (parse_credential rt auth)

  unfoldable pub check_one : Settings rt → Host → AuthEntry → AccountObservation rt × DiscoveryStats
  unfolding check_auth observe_error
  check_one cfg host entry =
      if entry.auth_index == ""
      then (observe_error cfg "missing_auth_index", record no_stats { missing_index = 1 })
      else if entry.runtime_only
      then (observe_error cfg "runtime_auth_unreadable", record no_stats { runtime_only = 1 })
      else check_auth cfg host (host.get_auth entry.auth_index)

  -- The slots that the workers fill: one for each selected entry, in its order, however the workers
  -- take turns. Entries behind the first `sent` stay at the zero value, where the context ends before.
  unfoldable pub results :
      Settings rt → Host → ℕ → List AuthEntry → List (AccountObservation rt × DiscoveryStats)
  unfolding check_one
  results cfg host sent [] = []
  results cfg host zero (entry ∷ more) = (no_observation rt, no_stats) ∷ results cfg host zero more
  results cfg host (suc sent) (entry ∷ more) = check_one cfg host entry ∷ results cfg host sent more

  -- The last loop of `Check`.
  unfoldable pub gather :
      DiscoveryStats
      → List (AccountObservation rt × DiscoveryStats)
      → List (AccountObservation rt) × DiscoveryStats
  unfolding add_stats is_no_observation
  gather stats [] = ([], stats)
  gather stats ((obs, local) ∷ more) =
      let (out, total) = gather (add_stats stats local) more in
      (if is_no_observation rt obs then out else obs ∷ out, total)

  check_selected :
      Settings rt
      → Host
      → ℕ
      → List AuthEntry × DiscoveryStats
      → List (AccountObservation rt) × DiscoveryStats
  unfolding gather results
  check_selected cfg host sent (selected, stats) = gather stats (results cfg host sent selected)

  -- `Check`, where the context ends after `sent` entries are handed to the workers.
  unfoldable pub check : Settings rt → Host → ℕ → List (AccountObservation rt) × DiscoveryStats
  unfolding check_selected select_codex
  check cfg host sent = elim host.list_auth [
    | none ↦ ([], record no_stats { unreadable = 1 })
    | some entries ↦ check_selected cfg host sent (select_codex entries)
  ]
