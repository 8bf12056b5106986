-- ===== src/Notify/Format.antt =====
-- The texts of the values in a summary, in internal/notify/template.go. A map is visited in the order
-- of the list that stands for it.
use cpa_quota_alert_plugin.Base.{
  ℕ, ℤ, pos, String, ◌<>◌, Bool, true, false, ◌||◌, none, some, List, [], ◌∷◌, ◌==◌, if◌then◌else◌,
  trim_space, to_lower, join,
}
use cpa_quota_alert_plugin.Base.Dict.{Dict, lookup, insert}
use cpa_quota_alert_plugin.Runtime.{
  Runtime, Any, null, bool, int, int_64, float, float_32, number, text, object, counts, Fields, end,
  field,
}
use cpa_quota_alert_plugin.Quota.Wham.{value_at}

abbrev bool_text : Bool → String
bool_text true = "true"
bool_text false = "false"

module _ (rt : Runtime) where
  open rt use {
    Float, eq_float, float_of_int, int_of_float, parse_float, itoa, format_float, sprint, atoi,
    lower, sort,
  }

  -- `firstPresent`; a missing entry is nil.
  unfoldable pub first_present : Fields Float → String → Any Float
  unfolding value_at
  first_present summary key = elim (value_at rt key summary) [ none ↦ null | some value ↦ value ]

  unfoldable pub format_plain : Any Float → String
  unfolding trim_space
  format_plain null = ""
  format_plain (text s) = trim_space s
  format_plain (bool b) = bool_text b
  format_plain (float n) =
      if eq_float n (float_of_int (int_of_float n)) then itoa (int_of_float n) else format_float n
  format_plain (int n) = itoa n
  format_plain (int_64 n) = itoa n
  format_plain value = trim_space (sprint value)

  unfoldable pub format_number : Any Float → String
  unfolding format_plain trim_space
  format_number null = ""
  format_number (float n) = format_float n
  format_number (float_32 n) = format_float n
  format_number (int n) = format_float (float_of_int n)
  format_number (int_64 n) = format_float (float_of_int n)
  format_number (number s) = elim (parse_float s) [ none ↦ trim_space s | some f ↦ format_float f ]
  format_number value = format_plain value

  unfoldable pub format_bool : Any Float → String
  unfolding format_plain trim_space to_lower
  format_bool (bool b) = bool_text b
  format_bool (text s) =
      let lowered = to_lower lower (trim_space s) in
      if lowered == "true" || lowered == "false" then lowered else trim_space s
  format_bool null = "false"
  format_bool value = format_plain value

  unfoldable pub int_from_any : Any Float → ℤ
  unfolding trim_space
  int_from_any (int n) = n
  int_from_any (int_64 n) = n
  int_from_any (float n) = int_of_float n
  int_from_any (text s) = elim (atoi (trim_space s)) [ none ↦ pos 0 | some n ↦ n ]
  int_from_any _ = pos 0

  -- The counts by the trimmed plan, for a `map[string]int` and for a `map[string]any`.
  count_all : List (String × ℕ) → Dict ℤ → Dict ℤ
  unfolding trim_space insert
  count_all [] plans = plans
  count_all ((plan, n) ∷ more) plans =
      let name = trim_space plan in
      count_all more (if name == "" then plans else insert name (pos n) plans)

  count_fields : Fields Float → Dict ℤ → Dict ℤ
  unfolding trim_space insert int_from_any
  count_fields end plans = plans
  count_fields (field plan value more) plans =
      let name = trim_space plan in
      count_fields more (if name == "" then plans else insert name (int_from_any value) plans)

  keys_of : Dict ℤ → List String
  keys_of [] = []
  keys_of ((plan, _) ∷ more) = plan ∷ keys_of more

  parts_of : Dict ℤ → List String → List String
  unfolding lookup
  parts_of plans [] = []
  parts_of plans (plan ∷ more) =
      let n : ℤ = elim (lookup plan plans) [ none ↦ pos 0 | some n ↦ n ] in
      (plan <> "=" <> itoa n) ∷ parts_of plans more

  listed : Dict ℤ → String
  unfolding keys_of parts_of join
  listed plans = join ", " (parts_of plans (sort (keys_of plans)))

  plain_plans : String → String
  plain_plans s = if s == "" || s == "<nil>" || s == "map[]" then "" else s

  unfoldable pub format_unknown_plans : Any Float → String
  unfolding count_all count_fields listed plain_plans format_plain
  format_unknown_plans (counts l) = listed (count_all l [])
  format_unknown_plans (object fields) = listed (count_fields fields [])
  format_unknown_plans value = plain_plans (format_plain value)
