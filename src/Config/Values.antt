-- ===== src/Config/Values.antt =====
-- The readers of single values of internal/config/types.go. An error is its message.
use cpa_quota_alert_plugin.Base.{
  ℕ, suc, ltb, ℤ, pos, negsuc, ltb_ℤ, max_int, String, ◌<>◌, Bool, not, ◌&&◌, ◌||◌, Option, none,
  some, List, [], ◌∷◌, ◌==◌, if◌then◌else◌, Result, ok, err, ◌>>=◌, contains, trim_space, to_lower,
  trim_right_by, eqb, code, is_blank,
}
use cpa_quota_alert_plugin.Runtime.{
  Runtime, Any, null, bool, int, int_64, small_int, uint, float, float_32, number, text, texts,
  array, object, objects, Items, nil, cons, Fields, end, field, Objects, none_left, one_more,
}
use cpa_quota_alert_plugin.Quota.Wham.{value_at}

-- What `fmt.Errorf` puts before a wrapped error.
abbrev pub within {ℓ} : {A : Type ℓ} → String → Result String A → Result String A
within prefix (err e) = err (prefix <> e)
within prefix (ok a) = ok a

-- A check that ends with the message where the test holds.
abbrev pub refuse : Bool → String → Result String (Unit {0})
refuse fails message = if fails then err message else ok tt

module _ (rt : Runtime) where
  open rt use {
    Float, lt_float, eq_float, trunc, is_nan, is_inf, float_of_int, int_of_float, parse_float,
    parse_float_error, type_name, itoa, lower,
  }

  abbrev pub is_finite : Float → Bool
  is_finite value = not (is_nan value) && not (is_inf value)

  bool_of : String → Any Float → Result String Bool
  bool_of key (bool b) = ok b
  bool_of key _ = err (key <> " must be a boolean")

  unfoldable pub read_bool : Fields Float → String → Bool → Result String Bool
  unfolding value_at bool_of
  read_bool raw key fallback = elim (value_at rt key raw) [
    | none ↦ ok fallback
    | some value ↦ bool_of key value
  ]

  abbrev in_range : ℤ → Result String ℤ
  in_range n =
      if ltb_ℤ n (negsuc max_int) || ltb_ℤ (pos max_int) n then err "overflows int" else ok n

  -- The case of a float64, with the message for one that is not integral.
  integral : String → Float → Result String ℤ
  integral message v =
      if not (is_finite v) || not (eq_float (trunc v) v)
      then err message
      else if lt_float v (float_of_int (negsuc max_int)) || lt_float (float_of_int (pos max_int)) v
      then err "overflows int"
      else ok (int_of_float v)

  integral_text : Option Float → Result String ℤ
  unfolding integral
  integral_text none = err "must be integral"
  integral_text (some v) = integral "must be integral" v

  unfoldable pub strict_int : Any Float → Result String ℤ
  unfolding integral integral_text
  strict_int (int v) = ok v
  strict_int (small_int v) = ok v
  strict_int (int_64 v) = in_range v
  strict_int (uint v) = if ltb max_int v then err "overflows int" else ok (pos v)
  strict_int (float v) = integral "must be finite and integral" v
  strict_int (float_32 v) = integral "must be finite and integral" v
  strict_int (number v) = integral_text (parse_float v)
  strict_int null = err "is required when present"
  strict_int value = err ("unsupported type " <> type_name value)

  abbrev finite : Float → Result String Float
  finite f = if is_finite f then ok f else err "must be finite"

  finite_text : String → Option Float → Result String Float
  finite_text v none = err (parse_float_error v)
  finite_text v (some f) = finite f

  unfoldable pub strict_float : Any Float → Result String Float
  unfolding finite_text
  strict_float (float v) = finite v
  strict_float (float_32 v) = finite v
  strict_float (int v) = finite (float_of_int v)
  strict_float (small_int v) = finite (float_of_int v)
  strict_float (int_64 v) = finite (float_of_int v)
  strict_float (uint v) = finite (float_of_int (pos v))
  strict_float (number v) = finite_text v (parse_float v)
  strict_float null = err "is required when present"
  strict_float value = err ("unsupported type " <> type_name value)

  unfoldable pub read_int : Fields Float → String → ℤ → Result String ℤ
  unfolding value_at strict_int
  read_int raw key fallback = elim (value_at rt key raw) [
    | none ↦ ok fallback
    | some value ↦ within (key <> " must be an integer: ") (strict_int value)
  ]

  unfoldable pub read_float : Fields Float → String → Float → Result String Float
  unfolding value_at strict_float
  read_float raw key fallback = elim (value_at rt key raw) [
    | none ↦ ok fallback
    | some value ↦ within (key <> " must be a finite number: ") (strict_float value)
  ]

  text_of : String → Any Float → Result String String
  text_of key (text s) = ok (trim_space s)
  text_of key _ = err (key <> " must be a string")

  unfoldable pub read_string : Fields Float → String → String → Result String String
  unfolding value_at text_of
  read_string raw key fallback = elim (value_at rt key raw) [
    | none ↦ ok fallback
    | some value ↦ text_of key value
  ]

  abbrev pub object_value : Any Float → Option (Fields Float)
  object_value (object fields) = some fields
  object_value _ = none

  -- The items of a `[]map[string]any` and of a `[]string`, as values.
  items_of_objects : Objects Float → Items Float
  items_of_objects none_left = nil
  items_of_objects (one_more fields more) = cons (object fields) (items_of_objects more)

  items_of_texts : List String → Items Float
  items_of_texts [] = nil
  items_of_texts (s ∷ more) = cons (text s) (items_of_texts more)

  unfoldable pub array_value : Any Float → Option (Items Float)
  unfolding items_of_objects items_of_texts
  array_value (array items) = some items
  array_value (objects l) = some (items_of_objects l)
  array_value (texts l) = some (items_of_texts l)
  array_value _ = none

  item_text : Any Float → Option String
  item_text (text s) = if is_blank s then none else some (trim_space s)
  item_text _ = none

  unfoldable pub list_items : String → ℕ → Items Float → Result String (List String)
  unfolding item_text
  list_items at i nil = ok []
  list_items at i (cons value more) =
      let rest = list_items at (suc i) more in
      elim (item_text value) [
        | none ↦ err (at <> "[" <> itoa (pos i) <> "] must be a non-empty string")
        | some s ↦ (rest >>= λ l. ok (s ∷ l))
      ]

  -- A `[]string` is read like the array of its items.
  unfoldable pub parse_string_list : String → Any Float → Result String (List String)
  unfolding list_items items_of_texts
  parse_string_list at (texts l) = list_items at 0 (items_of_texts l)
  parse_string_list at (array items) = list_items at 0 items
  parse_string_list at _ = err (at <> " must be an array of strings")

  -- A set is a list of its members; one may stand there twice.
  unfoldable pub set_of : (String → String) → List String → List String
  set_of normalized [] = []
  set_of normalized (item ∷ more) =
      let rest = set_of normalized more in
      let n = normalized item in if n == "" then rest else n ∷ rest

  unfoldable pub normalize_host : String → String
  unfolding trim_right_by to_lower trim_space
  normalize_host value = trim_right_by (λ c. eqb (code c) 46) (to_lower lower (trim_space value))

  unfoldable pub reject_unknown_fields :
      String → List String → Fields Float → Result String (Unit {0})
  reject_unknown_fields prefix allowed end = ok tt
  reject_unknown_fields prefix allowed (field key value more) =
      let rest = reject_unknown_fields prefix allowed more in
      if contains allowed key then rest else err (prefix <> "." <> key <> " is not allowed")
