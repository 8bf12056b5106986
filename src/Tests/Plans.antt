-- ===== src/Tests/Plans.antt =====
-- The theorem on the plan rules at concrete data.
use cpa_quota_alert_plugin.Base.{ℕ, pos, ◌≤◌, [], ◌∷◌, ◌≡◌, refl, ok, err, trim_space, remove}
use cpa_quota_alert_plugin.Base.Dict.{lookup, insert}
use cpa_quota_alert_plugin.Runtime.{Any, text, int, array, object, nil, cons, Fields, end, field}
use cpa_quota_alert_plugin.Quota.Wham.{value_at}
use cpa_quota_alert_plugin.Config.{Accepted, normalize_plan, parse_rules}
use cpa_quota_alert_plugin.Config.Unique.{holding, parse_rules-IsUnique}
use cpa_quota_alert_plugin.Tests.Machine.{runtime}

abbrev plus : Fields ℕ
plus = field "name" (text "plus") (
    field "window" (text "7d")
      (field "weight" (int (pos 1)) (field "aliases" (array (cons (text "my-plus") nil)) end)))

abbrev team : Fields ℕ → Fields ℕ
team more =
    field "canonical_name" (text "team")
      (field "window" (text "5h") (field "weight" (int (pos 2)) more))

abbrev two_rules : Any ℕ
two_rules = array (cons (object plus) (cons (object (team end)) nil))

abbrev two_plans : Accepted runtime
two_plans = record {
  rules =
      (
        "plus",
        record { name = "plus"; aliases = "myplus" ∷ "plus" ∷ []; window = "7d"; weight = 1 },
      )
      ∷ ("team", record { name = "team"; aliases = "team" ∷ []; window = "5h"; weight = 2 })
      ∷ [];
  owners = ("myplus", "plus") ∷ ("plus", "plus") ∷ ("team", "team") ∷ [];
}

two_accepted : parse_rules runtime ("free" ∷ []) two_rules ≡ ok two_plans
unfolding parse_rules trim_space remove lookup insert value_at
two_accepted = refl

parse_rules-IsUnique_example : holding runtime "myplus" two_plans.rules ≤ 1
parse_rules-IsUnique_example =
    parse_rules-IsUnique runtime ("free" ∷ []) two_rules two_plans "myplus" two_accepted

-- Two rules with one alias.
shared_alias :
    parse_rules runtime [] (
      array (
        cons
          (object plus)
          (cons (object (team (field "aliases" (array (cons (text "my plus") nil)) end))) nil)))
    ≡ err "plan alias myplus conflicts between plus and team"
unfolding parse_rules trim_space remove lookup insert value_at
shared_alias = refl

-- A second pass takes what the first one uncovered.
normalized_twice :
    (normalize_plan runtime "-\tfoo" ≡ "\tfoo") × (normalize_plan runtime "\tfoo" ≡ "foo")
unfolding normalize_plan trim_space remove
normalized_twice = (refl, refl)
