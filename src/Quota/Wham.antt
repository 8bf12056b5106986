-- ===== src/Quota/Wham.antt =====
-- `ParseWham` of internal/quota/types.go: the usage report of one account, from decoded JSON.
pub mod Bounds
use cpa_quota_alert_plugin.Base.{
  ℕ, ℤ, pos, String, Bool, true, false, ◌&&◌, ◌||◌, not, Option, none, some, List, [], ◌∷◌, ◌==◌,
  if◌then◌else◌, Result, ok, err, ◌>>=◌, leb_ℤ, ltb_ℤ, eqb_ℤ, negsuc, max_int,
}
use cpa_quota_alert_plugin.Base.Dict.{Dict, insert}
use cpa_quota_alert_plugin.Runtime.{
  Runtime, Any, null, bool, int, int_64, float, number, text, array, object, other, Items, nil,
  cons, Fields, end, field,
}
use cpa_quota_alert_plugin.Quota.Types.{
  Window, AccountQuota, window_5h, window_7d, window_5h_seconds, window_7d_seconds,
}

pub data WhamError : Type 0 where
  invalid_json bad_duration unsupported_duration duration_required used_percent_missing : WhamError
  used_percent_outside : WhamError
  in_window : String → WhamError → WhamError

abbrev pub duration_keys : List String
duration_keys =
    "limit_window_seconds" ∷ "limitWindowSeconds" ∷ "window_seconds" ∷ "windowSeconds" ∷ "duration"
    ∷ "duration_seconds" ∷ "durationSeconds" ∷ []

abbrev pub named_windows : List (String × String)
named_windows =
    ("primary", window_5h)
    ∷ ("secondary", window_7d)
    ∷ ("primary_window", window_5h)
    ∷ ("secondary_window", window_7d)
    ∷ ("primaryWindow", window_5h)
    ∷ ("secondaryWindow", window_7d)
    ∷ []

module _ (rt : Runtime) where
  open rt use {
    Float, lt_float, sub, mul, div, round, trunc, eq_float, is_nan, is_inf, literal, float_of_int,
    int_of_float, parse_int_64, parse_float, unmarshal_object,
  }

  -- `raw[key]`
  unfoldable pub value_at : String → Fields Float → Option (Any Float)
  value_at key end = none
  value_at key (field k v rest) = if k == key then some v else value_at key rest

  abbrev as_object : Option (Any Float) → Option (Fields Float)
  as_object (some (object o)) = some o
  as_object _ = none

  abbrev as_text : Option (Any Float) → Option String
  as_text (some (text s)) = some s
  as_text _ = none

  abbrev as_bool : Option (Any Float) → Option Bool
  as_bool (some (bool b)) = some b
  as_bool _ = none

  unfoldable pub get_object : Fields Float → List String → Option (Fields Float)
  unfolding value_at
  get_object raw [] = none
  get_object raw (key ∷ more) = elim (as_object (value_at key raw)) [
    | some obj ↦ some obj
    | none ↦ get_object raw more
  ]

  unfoldable pub get_string : Fields Float → List String → String
  unfolding value_at
  get_string raw [] = ""
  get_string raw (key ∷ more) = elim (as_text (value_at key raw)) [
    | some t ↦ t
    | none ↦ get_string raw more
  ]

  unfoldable pub get_bool : Fields Float → List String → Option Bool
  unfolding value_at
  get_bool raw [] = none
  get_bool raw (key ∷ more) = elim (as_bool (value_at key raw)) [
    | some b ↦ some b
    | none ↦ get_bool raw more
  ]

  -- The switch of `getFloat`: `none` goes on to the next key, `some none` is a number that does not
  -- parse, at which the function returns.
  abbrev as_float : Option (Any Float) → Option (Option Float)
  as_float (some (float f)) = some (some f)
  as_float (some (int n)) = some (some (float_of_int n))
  as_float (some (number n)) = some (parse_float n)
  as_float _ = none

  unfoldable pub get_float : Fields Float → List String → Option Float
  unfolding value_at
  get_float raw [] = none
  get_float raw (key ∷ more) = elim (as_float (value_at key raw)) [
    | some f ↦ f
    | none ↦ get_float raw more
  ]

  unfoldable pub round_4 : Float → Float
  round_4 value = div (round (mul value (literal 10000 0))) (literal 10000 0)

  -- `v` where it fits a 64-bit `int`.
  abbrev in_int : ℤ → Result WhamError ℤ
  in_int n = if ltb_ℤ (pos max_int) n || ltb_ℤ n (negsuc max_int) then err bad_duration else ok n

  abbrev parsed_int : Option ℤ → Result WhamError ℤ
  parsed_int none = err bad_duration
  parsed_int (some n) = in_int n

  unfoldable pub duration_seconds : Any Float → Result WhamError ℤ
  duration_seconds (int v) = ok v
  duration_seconds (int_64 v) = in_int v
  duration_seconds (float v) =
      if is_nan v || is_inf v || not (eq_float (trunc v) v)
      then err bad_duration
      else if lt_float (float_of_int (pos max_int)) v || lt_float v (float_of_int (negsuc max_int))
      then err bad_duration
      else ok (int_of_float v)
  duration_seconds (number v) = parsed_int (parse_int_64 v)
  duration_seconds _ = err bad_duration

  -- `ok none` where no key is present.
  unfoldable pub get_duration_seconds : Fields Float → List String → Result WhamError (Option ℤ)
  unfolding value_at duration_seconds
  get_duration_seconds raw [] = ok none
  get_duration_seconds raw (key ∷ more) = elim (value_at key raw) [
    | none ↦ get_duration_seconds raw more
    | some value ↦ (duration_seconds value >>= λ s. ok (some s))
  ]

  unfoldable pub named_by_seconds : String → Option ℤ → Result WhamError String
  named_by_seconds fallback (some seconds) =
      if eqb_ℤ seconds (pos window_5h_seconds)
      then ok window_5h
      else if eqb_ℤ seconds (pos window_7d_seconds)
      then ok window_7d
      else err unsupported_duration
  named_by_seconds fallback none =
      if fallback == window_5h || fallback == window_7d then ok fallback else err duration_required

  unfoldable pub window_name : Fields Float → String → Result WhamError String
  unfolding get_duration_seconds named_by_seconds
  window_name raw fallback =
      get_duration_seconds raw duration_keys >>= λ seconds. named_by_seconds fallback seconds

  present_any : Fields Float → List String → Bool
  unfolding value_at
  present_any raw [] = false
  present_any raw (key ∷ more) = elim (value_at key raw) [
    | some _ ↦ true
    | none ↦ present_any raw more
  ]

  unfoldable pub has_reset_info : Fields Float → Bool
  unfolding present_any
  has_reset_info raw =
      present_any raw
        ("reset_at" ∷ "resetAt" ∷ "resets_at" ∷ "resetsAt" ∷ "reset_seconds" ∷ "resetSeconds" ∷ [])

  abbrev is_set : Option Bool → Bool
  is_set (some b) = b
  is_set none = false

  abbrev is_unset : Option Bool → Bool
  is_unset (some b) = not b
  is_unset none = false

  unfoldable pub exhausted : Fields Float → Bool
  unfolding get_bool
  exhausted raw =
      is_set (get_bool raw ("limit_reached" ∷ "limitReached" ∷ []))
      || is_unset (get_bool raw ("allowed" ∷ []))

  used_or_exhausted : Fields Float → Option Float → Result WhamError Float
  used_or_exhausted raw (some used) = ok used
  used_or_exhausted raw none =
      if has_reset_info raw && exhausted raw then ok (literal 100 0) else err used_percent_missing

  window_of : Fields Float → String → Float → Result WhamError (Window rt)
  window_of raw name used =
      if is_nan used || is_inf used || lt_float used (literal 0 0) || lt_float (literal 100 0) used
      then err used_percent_outside
      else ok (record {
        name = name;
        used_percent = used;
        remaining_percent = round_4 (sub (literal 100 0) used);
        reset_known = has_reset_info raw;
      })

  unfoldable pub parse_window : Fields Float → String → Result WhamError (Window rt)
  unfolding window_name used_or_exhausted window_of get_float
  parse_window raw fallback = window_name raw fallback >>= λ name.
      used_or_exhausted raw (get_float raw ("used_percent" ∷ "usedPercent" ∷ [])) >>= λ used.
      window_of raw name used

  in_named : String → Result WhamError (Window rt) → Result WhamError (Window rt)
  in_named name (ok w) = ok w
  in_named name (err e) = err (in_window name e)

  unfoldable pub parse_named_window :
      Fields Float → String → String → Dict (Window rt) → Result WhamError (Dict (Window rt))
  unfolding get_object parse_window in_named
  parse_named_window rate_limit name fallback windows = elim (get_object rate_limit (name ∷ [])) [
    | none ↦ ok windows
    | some obj ↦
        (in_named name (parse_window obj fallback) >>= λ window.
        ok (insert window.name window windows))
  ]

  -- The loop over the names under which a report may hold a window.
  unfoldable pub parse_named_windows :
      Fields Float → List (String × String) → Dict (Window rt) → Result WhamError (Dict (Window rt))
  unfolding parse_named_window
  parse_named_windows rate_limit [] windows = ok windows
  parse_named_windows rate_limit ((name, fallback) ∷ more) windows =
      parse_named_window rate_limit name fallback windows >>= λ windows'.
      parse_named_windows rate_limit more windows'

  -- The report itself is the window where it names none.
  or_whole : Fields Float → Dict (Window rt) → Result WhamError (Dict (Window rt))
  unfolding parse_window
  or_whole rate_limit [] = parse_window rate_limit "" >>= λ window. ok ((window.name, window) ∷ [])
  or_whole rate_limit (w ∷ windows) = ok (w ∷ windows)

  abbrev pub or_raw : Fields Float → Option (Fields Float) → Fields Float
  or_raw raw none = raw
  or_raw raw (some rate_limit) = rate_limit

  unfoldable pub quota_of : Fields Float → Result WhamError (AccountQuota rt)
  unfolding get_string get_object parse_named_windows or_whole
  quota_of raw =
      let rate_limit = or_raw raw (get_object raw ("rate_limit" ∷ "rateLimit" ∷ [])) in
      parse_named_windows rate_limit named_windows [] >>= λ named.
      or_whole rate_limit named >>= λ windows.
      ok (record { plan_type = get_string raw ("plan_type" ∷ "planType" ∷ []); windows = windows })

  unfoldable pub parse_wham : String → Result WhamError (AccountQuota rt)
  unfolding quota_of
  parse_wham body = elim (unmarshal_object body) [
    | none ↦ err invalid_json
    | some raw ↦ quota_of raw
  ]
