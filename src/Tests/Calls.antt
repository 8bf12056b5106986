-- ===== src/Tests/Calls.antt =====
-- The theorem on the host's answers at concrete data.
use cpa_quota_alert_plugin.Base.{ℤ, pos, String, true, Option, none, some, [], ◌∷◌, ◌≡◌, refl, ok}
use cpa_quota_alert_plugin.Base.Dict.{Dict, lookup}
use cpa_quota_alert_plugin.Codex.Types.{responded}
use cpa_quota_alert_plugin.Host.{Decoders, call, http_do}
use cpa_quota_alert_plugin.Host.Status.{is_status, http_do-responded}

-- Both spellings of the status, and a null in another field.
abbrev decoders : Decoders
decoders = record {
  envelope = λ _. some (record { is_ok = true; result = "{}"; error = none });
  files = λ _. some none;
  auth_file = λ _. none;
  response = λ _.
      some (
        ("StatusCode", some (pos 200)) ∷ ("x", none) ∷ ("status_code", some (pos 200)) ∷ [],
        "body",
      );
}

got_body : http_do decoders (ok "answer") ≡ responded (pos 200) "body"
unfolding http_do lookup
got_body = refl

http_do-responded_example :
    (raw : String) × (fields : Dict (Option ℤ)) × (call decoders (ok "answer") ≡ ok raw)
    × (decoders.response raw ≡ some (fields, "body"))
    × (is_status fields (pos 200) ≡ true)
http_do-responded_example = http_do-responded decoders (ok "answer") (pos 200) "body" got_body
