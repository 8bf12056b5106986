-- ===== src/Host/Status.antt =====
-- The status of a response that the client lets through.
use cpa_quota_alert_plugin.Base.{
  Result-cases, ℤ, pos, eqb_ℤ, leb_ℤ, String, Bool, true, false, ◌&&◌, Option, none, some, ◌≡◌,
  refl, sym, ap, arith, Result, ok, err, ◌>>=◌, inl, inr,
}
use cpa_quota_alert_plugin.Base.Dict.{Dict, lookup}
use cpa_quota_alert_plugin.Codex.Types.{HostError, responded}
use cpa_quota_alert_plugin.Host.{
  Decoders, decode_status_field, choose_status, decode_status_code, call, decode_response, http_do,
}

-- The field is missing or holds that status.
abbrev pub agrees : Option (Option ℤ) → ℤ → Bool
agrees none status = true
agrees (some none) status = false
agrees (some (some n)) status = eqb_ℤ n status

-- The status is in the range of HTTP, and every field for it that is there holds it.
abbrev pub is_status : Dict (Option ℤ) → ℤ → Bool
is_status fields status =
    leb_ℤ (pos 100) status
    && leb_ℤ status (pos 599)
    && agrees (lookup "StatusCode" fields) status
    && agrees (lookup "status_code" fields) status

eqb_ℤ-eq : (n m : ℤ) → eqb_ℤ n m ≡ true → n ≡ m
eqb_ℤ-eq n m h = ground arith

eqb_ℤ-refl : (n : ℤ) → eqb_ℤ n n ≡ true
eqb_ℤ-refl n = ground arith

-- What a field that decodes is.
abbrev IsFound : Option (Option ℤ) → Option ℤ → Type 0
IsFound field none = field ≡ none
IsFound field (some n) =
    (field ≡ some (some n)) × (leb_ℤ (pos 100) n ≡ true) × (leb_ℤ n (pos 599) ≡ true)

decode_status_field-ok :
    (fields : Dict (Option ℤ)) (name : String) (found : Option ℤ)
    → decode_status_field fields name ≡ ok found
    → IsFound (lookup name fields) found
unfolding decode_status_field
decode_status_field-ok fields name none h = ground arith
decode_status_field-ok fields name (some n) h = ground arith

-- Both fields decode where a status is chosen.
both-ok :
    (upper snake : Result HostError (Option ℤ)) (status : ℤ)
    → (upper >>= λ u. snake >>= λ s. choose_status u s) ≡ ok status
    → (u : Option ℤ) × (s : Option ℤ) × (upper ≡ ok u)
      × (snake ≡ ok s)
      × (choose_status u s ≡ ok status)
both-ok (ok u) (ok s) status h = (u, s, refl, refl, h)
both-ok (ok u) (err e) status h = cc
both-ok (err e) snake status h = cc

is_status-choose_status :
    (fields : Dict (Option ℤ)) (upper snake : Option ℤ) (status : ℤ)
    → IsFound (lookup "StatusCode" fields) upper
    → IsFound (lookup "status_code" fields) snake
    → choose_status upper snake ≡ ok status
    → is_status fields status ≡ true
unfolding choose_status
is_status-choose_status fields (some n) (some m) status u s h =
    ground (arith, eqb_ℤ-eq n m, eqb_ℤ-refl n)
is_status-choose_status fields (some n) none status u s h = ground (arith, eqb_ℤ-refl n)
is_status-choose_status fields none (some m) status u s h = ground (arith, eqb_ℤ-refl m)
is_status-choose_status fields none none status u s h = ground arith

decode_status_code-is_status :
    (fields : Dict (Option ℤ)) (status : ℤ)
    → decode_status_code fields ≡ ok status
    → is_status fields status ≡ true
unfolding decode_status_code
decode_status_code-is_status fields status h =
    let (u, s, upper, snake, chosen) =
      both-ok (decode_status_field fields "StatusCode") (decode_status_field fields "status_code")
        status h in
    is_status-choose_status fields u s status (decode_status_field-ok fields "StatusCode" u upper)
      (decode_status_field-ok fields "status_code" s snake) chosen

module _ (decode : Decoders) where
  decode_response-responded :
      (o : Option (Dict (Option ℤ) × String)) (status : ℤ) (body : String)
      → decode_response decode o ≡ responded status body
      → (fields : Dict (Option ℤ)) × (o ≡ some (fields, body)) × (is_status fields status ≡ true)
  unfolding decode_response
  decode_response-responded none status body h = cc
  decode_response-responded (some (fields, b)) status body h =
      elim (Result-cases (decode_status_code fields)) [
        | inl (e, bad) ↦ absurd (ground arith)
        | inr (n, good) ↦
            let known = decode_status_code-is_status fields n good in
            let same : n ≡ status = ground arith in
            let same_body : b ≡ body = ground arith in
            (fields, ap (λ x. some (fields, x)) same_body, rw (sym same) known)
      ]

  -- A request that ends in a response with a status had an answer of the host whose envelope holds a
  -- result that decodes to fields and that body, the status is one of 100 to 599, and each of the two
  -- fields for it that is there holds it.
  pub http_do-responded :
      (answer : Result HostError String) (status : ℤ) (body : String)
      → http_do decode answer ≡ responded status body
      → (raw : String) × (fields : Dict (Option ℤ)) × (call decode answer ≡ ok raw)
        × (decode.response raw ≡ some (fields, body))
        × (is_status fields status ≡ true)
  unfolding http_do decode_response
  http_do-responded answer status body h = elim (Result-cases (call decode answer)) [
    | inl (e, bad) ↦ absurd (ground arith)
    | inr (raw, good) ↦
        let (fields, decoded, known) =
          decode_response-responded (decode.response raw) status body (ground arith) in
        (raw, fields, good, decoded, known)
  ]
