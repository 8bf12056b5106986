-- ===== src/Config.antt =====
-- The plan rules of internal/config/types.go. An error is its message.
pub mod Unique
pub mod Channels
pub mod Environment
pub mod Mail
pub mod Parse
pub mod Plain
pub mod Values
pub mod Yaml
use cpa_quota_alert_plugin.Base.{
  suc, pos, ◌<>◌, join, ℕ, ltb, String, Bool, true, false, not, ◌&&◌, ◌||◌, Option, none, some,
  List, [], ◌∷◌, ◌++◌, ◌==◌, if◌then◌else◌, Result, ok, err, ◌>>=◌, contains, length, trim_space,
  to_lower, remove,
}
use cpa_quota_alert_plugin.Base.Dict.{Dict, lookup, insert}
use cpa_quota_alert_plugin.Runtime.{
  Runtime, Any, null, text, float, array, object, Items, nil, cons, Fields, end, field,
}
use cpa_quota_alert_plugin.Quota.Wham.{value_at}
use cpa_quota_alert_plugin.Config.Values.{
  refuse, read_string, read_float, parse_string_list, object_value, array_value,
}
use cpa_quota_alert_plugin.Quota.Types.{is_separator, window_5h, window_7d, PlanRule}

abbrev pub known_upstream_plans : List String
known_upstream_plans =
    "free" ∷ "go" ∷ "plus" ∷ "pro" ∷ "prolite" ∷ "promax" ∷ "team" ∷ "selfservebusinessprolite"
    ∷ "selfservebusinessusagebased" ∷ "business" ∷ "ent26" ∷ "enterprisecbpautomation"
    ∷ "enterprisecbpusagebased" ∷ "enterprise" ∷ "edu" ∷ "eduplus" ∷ "edupro" ∷ "k12" ∷ []

abbrev is_some {ℓ} : {A : Type ℓ} → Option A → Bool
is_some none = false
is_some (some _) = true

module _ (rt : Runtime) where
  open rt use {Float, lt_float, eq_float, literal, lower, itoa, quote, sort}

  unfoldable pub normalize_plan : String → String
  unfolding trim_space to_lower remove
  normalize_plan value = remove is_separator (to_lower lower (trim_space value))

  unfoldable pub normalize_aliases : List String → List String
  unfolding normalize_plan
  normalize_aliases [] = []
  normalize_aliases (alias ∷ more) =
      let rest = normalize_aliases more in
      let a = normalize_plan alias in if a == "" then rest else a ∷ rest

  -- `rule.Aliases`, with the name itself.
  unfoldable pub aliases_of : String → List String → List String
  unfolding normalize_aliases
  aliases_of name given =
      let l = normalize_aliases given in if contains l name then l else l ++ name ∷ []

  -- The loop of `claimedUpstreamPlans`.
  unfoldable pub claimed_plans : List String → List String → List String
  unfolding normalize_plan
  claimed_plans claimed [] = claimed
  claimed_plans claimed (candidate ∷ more) =
      let n = normalize_plan candidate in
      claimed_plans
        (if contains known_upstream_plans (normalize_plan n) && not (contains claimed n)
          then claimed ++ n ∷ []
          else claimed)
        more

  -- The name of a rule, or its canonical name where that is empty.
  read_name : Fields Float → Result String String
  unfolding read_string
  read_name fields = read_string rt fields "name" "" >>= λ name.
      if name == "" then read_string rt fields "canonical_name" "" else ok name

  read_aliases : ℕ → Fields Float → Result String (List String)
  unfolding value_at parse_string_list
  read_aliases i fields = elim (value_at rt "aliases" fields) [
    | none ↦ ok []
    | some raw ↦ parse_string_list rt ("plan_rules[" <> itoa (pos i) <> "].aliases") raw
  ]

  -- The checks of the rule with the index that ask for no other rule.
  unfoldable pub make_rule : (String → Bool) → ℕ → Fields Float → Result String (PlanRule rt)
  unfolding normalize_plan aliases_of read_name read_string read_float read_aliases
  make_rule ignored i fields = read_name fields >>= λ given.
      let name = normalize_plan given in
      refuse (name == "") ("plan_rules[" <> itoa (pos i) <> "].name is required") >>= λ _.
      refuse (ignored name) ("plan rule " <> quote name <> " conflicts with ignored_plans") >>= λ _.
      read_string rt fields "window" "" >>= λ window.
      refuse (not (window == window_5h) && not (window == window_7d))
        ("plan rule " <> quote name <> " window must be 5h or 7d")
      >>= λ _. read_float rt fields "weight" (literal 0 0) >>= λ weight.
          refuse (lt_float weight (literal 0 0) || eq_float weight (literal 0 0))
            ("plan rule " <> quote name <> " weight must be greater than 0")
          >>= λ _. read_aliases i fields >>= λ aliases. ok (record {
            name = name;
            aliases = aliases_of name aliases;
            window = window;
            weight = weight;
          })

  -- The rules so far and the owners of their aliases.
  pub record Accepted : Type 0 where
    pub rules : Dict (PlanRule rt)
    pub owners : Dict String

  -- The loop over the aliases of the rule by the name, with the owners of the aliases so far. The set
  -- of ignored plans is given by its test.
  unfoldable pub claim :
      (String → Bool) → String → List String → Dict String → Result String (Dict String)
  unfolding lookup insert
  claim ignored name [] owners = ok owners
  claim ignored name (alias ∷ more) owners =
      let rest = claim ignored name more (insert alias name owners) in
      if ignored alias
      then err ("plan alias " <> quote alias <> " conflicts with ignored_plans")
      else elim (lookup alias owners) [
        | none ↦ rest
        | some previous ↦
            if previous == name
            then rest
            else err (
                "plan alias "
                <> quote alias
                <> " conflicts between "
                <> quote previous
                <> " and "
                <> quote name)
      ]

  many_plans : String → List String → String
  unfolding join
  many_plans name claimed =
      "plan rule "
      <> quote name
      <> " claims "
      <> itoa (pos (length claimed))
      <> " distinct upstream plan types ("
      <> join ", " (sort claimed)
      <> "); each upstream plan type is a separate subscription tier and needs its own rule with its own confirmed weight"

  unfoldable pub add_rule : (String → Bool) → Accepted → PlanRule rt → Result String Accepted
  unfolding claim claimed_plans lookup insert many_plans
  add_rule ignored accepted rule =
      let claimed = claimed_plans [] (rule.name ∷ rule.aliases) in
      if is_some (lookup rule.name accepted.rules)
      then err ("duplicate plan rule " <> quote rule.name)
      else if ltb 1 (length claimed)
      then err (many_plans rule.name claimed)
      else (claim ignored rule.name rule.aliases accepted.owners >>= λ owners.
          ok (record { rules = insert rule.name rule accepted.rules; owners = owners }))

  unfoldable pub accept_rule : (String → Bool) → ℕ → Any Float → Accepted → Result String Accepted
  unfolding make_rule add_rule
  accept_rule ignored i value accepted = elim (object_value rt value) [
    | none ↦ err ("plan_rules[" <> itoa (pos i) <> "] must be an object")
    | some fields ↦ make_rule ignored i fields >>= λ rule. add_rule ignored accepted rule
  ]

  -- The loop of `parseRules`.
  unfoldable pub accept_rules :
      (String → Bool) → ℕ → Items Float → Accepted → Result String Accepted
  unfolding accept_rule
  accept_rules ignored i nil accepted = ok accepted
  accept_rules ignored i (cons value more) accepted =
      accept_rule ignored i value accepted >>= λ next. accept_rules ignored (suc i) more next

  -- `PlanSet.Contains`
  unfoldable pub is_ignored : List String → String → Bool
  unfolding normalize_plan
  is_ignored set plan = contains set (normalize_plan plan)

  abbrev pub none_accepted : Accepted
  none_accepted = record { rules = []; owners = [] }

  default_rule : String → Any Float
  default_rule name = object (
      field "name" (text name) (
        field "aliases" (array (cons (text name) nil))
          (field "window" (text window_7d) (field "weight" (float (literal 1 0)) end))))

  unfoldable pub candidates : Any Float → Option (Items Float)
  unfolding array_value default_rule
  candidates null = some (cons (default_rule "plus") (cons (default_rule "team") nil))
  candidates value = array_value rt value

  -- `parseRules` with the set of ignored plans; a missing entry is null.
  unfoldable pub parse_rules : List String → Any Float → Result String Accepted
  unfolding accept_rules is_ignored candidates
  parse_rules set raw = elim (candidates raw) [
    | none ↦ err "plan_rules must be an array"
    | some items ↦ accept_rules (is_ignored set) 0 items none_accepted
  ]
