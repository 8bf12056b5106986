-- ===== src/Codex/Types.antt =====
-- The types of internal/codexquota/service.go, and the part of internal/config and internal/abi that it
-- reads.
use cpa_quota_alert_plugin.Base.{ℕ, ◌+◌, ℤ, String, Bool, Option, List}
use cpa_quota_alert_plugin.Base.Dict.{Dict}
use cpa_quota_alert_plugin.Runtime.{Runtime}
use cpa_quota_alert_plugin.Quota.Types.{PlanRule}

-- `HostAuthFileEntry` of internal/abi/client.go
pub record AuthEntry : Type 0 where
  pub auth_index : String
  pub type_name : String
  pub provider : String
  pub status : String
  pub disabled : Bool
  pub unavailable : Bool
  pub runtime_only : Bool

-- What an error of the host's HTTP callback is to `classifyHTTPError`.
pub data HostError : Type 0 where
  deadline_exceeded canceled invalid_envelope invalid_result other_error : HostError
  callback : ℤ → Bool → HostError

-- The end of one HTTP request.
pub data Outcome : Type 0 where
  failed : HostError → Outcome
  responded : ℤ → String → Outcome

pub record Credential : Type 0 where
  pub access_token : String
  pub account_id : String

-- What the host answers: the list of the accounts, the JSON of one of them, and each attempt of a
-- request.
pub record Host : Type 0 where
  pub list_auth : Option (List AuthEntry)
  pub get_auth : String → Option String
  pub http_do : Credential → ℕ → Outcome

pub record DiscoveryStats : Type 0 where
  pub selected : ℕ
  pub skipped : ℕ
  pub disabled : ℕ
  pub unavailable : ℕ
  pub runtime_only : ℕ
  pub missing_index : ℕ
  pub get_failed : ℕ
  pub unreadable : ℕ

abbrev pub no_stats : DiscoveryStats
no_stats = record {
  selected = 0;
  skipped = 0;
  disabled = 0;
  unavailable = 0;
  runtime_only = 0;
  missing_index = 0;
  get_failed = 0;
  unreadable = 0;
}

-- `DiscoveryStats.add`
unfoldable pub add_stats : DiscoveryStats → DiscoveryStats → DiscoveryStats
add_stats s other = record {
  selected = s.selected + other.selected;
  skipped = s.skipped + other.skipped;
  disabled = s.disabled + other.disabled;
  unavailable = s.unavailable + other.unavailable;
  runtime_only = s.runtime_only + other.runtime_only;
  missing_index = s.missing_index + other.missing_index;
  get_failed = s.get_failed + other.get_failed;
  unreadable = s.unreadable + other.unreadable;
}

-- The fields of the configuration that a check of the pool reads.
pub record Settings (rt : Runtime) : Type 0 where
  pub retry_attempts : ℤ
  pub plan_rules : Dict (PlanRule rt)
  pub ignored_plans : List String
  pub terminal_error_codes : List String
