-- ===== src/Tests/Machine.antt =====
-- One runtime: natural numbers for float64, and one usage report that its decoder knows.
use cpa_quota_alert_plugin.Base.{
  ℕ, ◌+◌, ◌-◌, ◌*◌, ◌/◌, ◌^◌, ltb, eqb, pos, pos_part, String, true, false, Option, none, some,
  ◌==◌, if◌then◌else◌,
}
use cpa_quota_alert_plugin.Runtime.{Runtime, Url, int, text, object, Fields, end, field}

abbrev pub window_report : ℕ → Fields ℕ
window_report used =
    field "used_percent" (int (pos used)) (field "limit_window_seconds" (int (pos 18000)) end)

abbrev pub usage_report : Fields ℕ
usage_report =
    field "plan_type" (text "pro")
      (field "rate_limit" (object (field "primary_window" (object (window_report 40)) end)) end)

abbrev pub decode_report : String → Option (Fields ℕ)
decode_report body = if body == "report" then some usage_report else none

abbrev pub read_url : String → Option Url
read_url raw =
    if raw == "https://chatgpt.com/backend-api/wham/usage"
    then some
        (record { scheme = "https"; hostname = "chatgpt.com"; is_absolute = true; is_bare = true })
    else none

abbrev pub runtime : Runtime
runtime = record {
  Float = ℕ;
  eq_float = eqb;
  lt_float = ltb;
  add = λ x y. x + y;
  sub = λ x y. x - y;
  mul = λ x y. x * y;
  div = λ x y. x / y;
  round = λ x. x;
  trunc = λ x. x;
  is_nan = λ _. false;
  is_inf = λ _. false;
  literal = λ m e. m / 10 ^ e;
  float_of_int = pos_part;
  int_of_float = pos;
  parse_int_64 = λ _. none;
  parse_float = λ _. none;
  lower = λ c. c;
  unmarshal_object = decode_report;
  event_digest = λ _ _ _ _. "0";
  itoa = λ _. "500";
  decode_base_64 = λ _. none;
  upper = λ s. s;
  sort = λ l. l;
  quote = λ s. s;
  type_name = λ _. "other";
  sprint = λ _. "other";
  parse_float_error = λ _. "invalid syntax";
  atoi = λ _. none;
  format_float = λ _. "1.00";
  format_time = λ _. "2025-01-01T00:00:00Z";
  parse_url = read_url;
  parse_address = λ s. some (record { name = ""; address = s });
  is_loopback_ip = λ s. s == "127.0.0.1";
}
