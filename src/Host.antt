-- ===== src/Host.antt =====
-- internal/abi/client.go: the answers of the host's callbacks, from the envelope to the result.
pub mod Status
use cpa_quota_alert_plugin.Base.{
  ℤ, pos, eqb_ℤ, leb_ℤ, String, Bool, true, false, not, ◌&&◌, ◌||◌, Option, none, some, List, ◌==◌,
  if◌then◌else◌, Result, ok, err, ◌>>=◌,
}
use cpa_quota_alert_plugin.Base.Dict.{Dict, lookup}
use cpa_quota_alert_plugin.Codex.Types.{
  AuthEntry, HostError, invalid_envelope, invalid_result, callback, Outcome, failed, responded,
}

-- `Error`, without the fields that `CallbackError` does not keep.
pub record CallError : Type 0 where
  pub status : ℤ
  pub retryable : Bool

pub record Envelope : Type 0 where
  pub is_ok : Bool
  -- the raw JSON, "" where it is missing
  pub result : String
  pub error : Option CallError

pub record AuthFile : Type 0 where
  pub auth_index : String
  pub json : Option String

-- What `json.Unmarshal` makes of a raw value. The fields of a response are those of its object, each with
-- the `int` it decodes to, if it does; the list of files is `none` where it is null or missing.
pub record Decoders : Type 0 where
  pub envelope : String → Option Envelope
  pub files : String → Option (Option (List AuthEntry))
  pub auth_file : String → Option AuthFile
  pub response : String → Option (Dict (Option ℤ) × String)

-- The two errors of `call` on an envelope that is not ok.
abbrev callback_error : Option CallError → HostError
callback_error none = callback (pos 0) false
callback_error (some e) = callback e.status e.retryable

-- `call` once the caller has answered: the raw result.
unfoldable pub open_envelope : Option Envelope → Result HostError String
open_envelope none = err invalid_envelope
open_envelope (some env) =
    if not env.is_ok
    then err (callback_error env.error)
    else if env.result == "" || env.result == "null"
    then err invalid_envelope
    else ok env.result

-- `ok none` where the field is missing.
unfoldable pub decode_status_field : Dict (Option ℤ) → String → Result HostError (Option ℤ)
unfolding lookup
decode_status_field fields name = elim (lookup name fields) [
  | none ↦ ok none
  | some none ↦ err invalid_result
  | some (some n) ↦
      if leb_ℤ (pos 100) n && leb_ℤ n (pos 599) then ok (some n) else err invalid_result
]

-- The end of `decodeHTTPStatusCode`, with both fields.
unfoldable pub choose_status : Option ℤ → Option ℤ → Result HostError ℤ
choose_status (some n) (some m) = if eqb_ℤ n m then ok n else err invalid_result
choose_status (some n) none = ok n
choose_status none (some m) = ok m
choose_status none none = err invalid_result

unfoldable pub decode_status_code : Dict (Option ℤ) → Result HostError ℤ
unfolding decode_status_field choose_status
decode_status_code fields = decode_status_field fields "StatusCode" >>= λ upper.
    decode_status_field fields "status_code" >>= λ snake. choose_status upper snake

module _ (decode : Decoders) where
  unfoldable pub call : Result HostError String → Result HostError String
  unfolding open_envelope
  call (err e) = err e
  call (ok response) = open_envelope (decode.envelope response)

  unfoldable pub list_auth : Result HostError String → Result HostError (List AuthEntry)
  unfolding call
  list_auth answer = call answer >>= λ raw. elim (decode.files raw) [
    | some (some files) ↦ ok files
    | _ ↦ err invalid_result
  ]

  complete : AuthFile → Result HostError String
  complete file = elim file.json [
    | none ↦ err invalid_result
    | some json ↦ if file.auth_index == "" then err invalid_result else ok json
  ]

  -- `GetAuth`, of which the checker reads the JSON.
  unfoldable pub get_auth : Result HostError String → Result HostError String
  unfolding call complete
  get_auth answer = call answer >>= λ raw. elim (decode.auth_file raw) [
    | none ↦ err invalid_result
    | some file ↦ complete file
  ]

  -- An error of `UnmarshalJSON` is an invalid result to `call`.
  unfoldable pub decode_response : Option (Dict (Option ℤ) × String) → Outcome
  unfolding decode_status_code
  decode_response none = failed invalid_result
  decode_response (some (fields, body)) = elim (decode_status_code fields) [
    | err e ↦ failed invalid_result
    | ok status ↦ responded status body
  ]

  unfoldable pub http_do : Result HostError String → Outcome
  unfolding call decode_response
  http_do answer = elim (call answer) [
    | err e ↦ failed e
    | ok raw ↦ decode_response (decode.response raw)
  ]
