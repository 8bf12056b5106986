-- ===== src/Config/Parse/Safety.antt =====
-- A configuration that is accepted has no key for a plaintext secret.
use cpa_quota_alert_plugin.Base.{>>=-eq-ok, String, [], ◌≡◌, ok, ◌>>=◌, eq_iff, arith}
use cpa_quota_alert_plugin.Runtime.{Runtime, object, Fields}
use cpa_quota_alert_plugin.Config.Plain.{find_plain_secret, AreFieldsPlainless, AreFieldsDecoded}
use cpa_quota_alert_plugin.Config.Plain.Safety.{find_in_fields-Plainless}
use cpa_quota_alert_plugin.Config.Parse.{
  Config, check_plain, read_scalars, default_config, with_scalars, parse,
}

module _ (rt : Runtime) where
  open rt use {Float}

  -- In the fields of a configuration that is accepted, as the decoders build them, no key at any depth
  -- is in lower case one of the sixteen names for a plaintext secret.
  pub parse-IsPlainless :
      (raw : Fields Float) (getenv : String → String) (cfg : Config rt)
      → AreFieldsDecoded rt raw
      → parse rt raw getenv ≡ ok cfg
      → AreFieldsPlainless rt raw
  unfolding parse check_plain find_plain_secret
  parse-IsPlainless raw getenv cfg d h =
      let (_, plain, _) =
        >>=-eq-ok (check_plain rt raw)
          (λ _. read_scalars rt raw (default_config rt) >>= with_scalars rt raw getenv) h in
      let path = find_plain_secret rt (object raw) [] in
      find_in_fields-Plainless rt raw [] d (ground (arith, eq_iff path ""))
