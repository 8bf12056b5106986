-- ===== src/Codex/Credential.antt =====
-- `ParseCredential` and `parseJWTPayload` of internal/codexquota/service.go.
use Prim.Native.String.{[] as no_text, ◌∷◌ as ◌∷ₜ◌}
use cpa_quota_alert_plugin.Base.{
  String, code, Option, none, some, List, [], ◌∷◌, ◌==◌, if◌then◌else◌, Result, ok, err, trim_space,
  is_blank, eqb,
}
use cpa_quota_alert_plugin.Runtime.{Runtime, Any, text, Fields}
use cpa_quota_alert_plugin.Quota.Wham.{value_at}
use cpa_quota_alert_plugin.Codex.Types.{Credential}

-- `strings.Split(token, ".")`
abbrev pub split_dots : String → List String
split_dots no_text = no_text ∷ []
split_dots (c ∷ₜ s) =
    let rest = split_dots s in
    if eqb (code c) 46
    then no_text ∷ rest
    else elim rest [ [] ↦ [] | part ∷ more ↦ (c ∷ₜ part) ∷ more ]

module _ (rt : Runtime) where
  open rt use {Float}

  -- `raw[key].(string)`, "" where it is none.
  abbrev text_of : Option (Any Float) → String
  text_of (some (text s)) = s
  text_of _ = ""

  unfoldable pub first_string : Fields Float → List String → String
  unfolding value_at trim_space
  first_string raw [] = ""
  first_string raw (key ∷ more) =
      let value = trim_space (text_of (value_at rt key raw)) in
      if value == "" then first_string raw more else value

  abbrev second_part : List String → Option String
  second_part (_ ∷ part ∷ _) = some part
  second_part _ = none

  unfoldable pub parse_jwt_payload : String → Option (Fields Float)
  parse_jwt_payload token = elim (second_part (split_dots token)) [
    | none ↦ none
    | some part ↦ elim (rt.decode_base_64 part) [
      | none ↦ none
      | some payload ↦ rt.unmarshal_object payload
    ]
  ]

  claimed_account : String → Result String String
  unfolding parse_jwt_payload first_string
  claimed_account id_token = if id_token == "" then ok "" else elim (parse_jwt_payload id_token) [
    | none ↦ err "credential_invalid_jwt"
    | some claims ↦ ok (
        first_string claims
          ("chatgpt_account_id" ∷ "https://api.openai.com/auth.chatgpt_account_id" ∷ []))
  ]

  account_of : Fields Float → Result String String
  unfolding first_string claimed_account
  account_of raw =
      let id = first_string raw (
        "account_id" ∷ "chatgpt_account_id" ∷ "https://api.openai.com/auth.chatgpt_account_id"
        ∷ []) in
      if id == "" then claimed_account (text_of (value_at rt "id_token" raw)) else ok id

  credential_of : String → Result String String → Result String Credential
  credential_of access_token (err e) = err e
  credential_of access_token (ok account_id) =
      if is_blank account_id
      then err "credential_missing_account_id"
      else ok (record { access_token = access_token; account_id = account_id })

  -- A JSON null decodes to a nil map, which the decoder's `none` covers too.
  unfoldable pub parse_credential : String → Result String Credential
  unfolding account_of credential_of
  parse_credential body = elim (rt.unmarshal_object body) [
    | none ↦ err "credential_invalid"
    | some raw ↦
        let access_token = text_of (value_at rt "access_token" raw) in
        if is_blank access_token
        then err "credential_missing_access_token"
        else credential_of access_token (account_of raw)
  ]
