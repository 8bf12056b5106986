-- ===== src/Notify/Recipients.antt =====
-- The lists of mail addresses: `parseRecipients` of internal/notify/smtp.go, and `recipientCount` of
-- internal/pluginapp/runtime.go, which counts them before a sender is made. The error of the first is
-- its code, that of the second its message.
pub mod Equivalence
use Prim.Native.String.{[] as no_text, ◌∷◌ as ◌∷ₜ◌}
use cpa_quota_alert_plugin.Base.{
  ℕ, suc, eqb, String, Char, code, Bool, ◌||◌, Option, none, some, List, [], ◌∷◌, ◌==◌,
  if◌then◌else◌, Result, ok, err, ◌>>=◌, trim_space,
}
use cpa_quota_alert_plugin.Runtime.{Runtime, Address}
use cpa_quota_alert_plugin.Notify.{has_header_injection}

-- The first part of a text, and the others.
split : (Char → Bool) → String → String × List String
split p no_text = (no_text, [])
split p (c ∷ₜ s) =
    let rest = split p s in if p c then (no_text, rest.0 ∷ rest.1) else (c ∷ₜ rest.0, rest.1)

nonempty : List String → List String
nonempty [] = []
nonempty (part ∷ more) = let rest = nonempty more in if part == "" then rest else part ∷ rest

-- `strings.FieldsFunc`
unfoldable pub fields_func : (Char → Bool) → String → List String
unfolding split nonempty
fields_func p s = let parts = split p s in nonempty (parts.0 ∷ parts.1)

abbrev pub is_separator : Char → Bool
is_separator c = let n = code c in eqb n 44 || eqb n 59

module _ (rt : Runtime) where
  open rt use {parse_address}

  -- `mail.ParseAddress` with the checks of its result, which are those of both functions.
  unfoldable pub address_of : String → Option Address
  unfolding has_header_injection
  address_of part = elim (parse_address part) [
    | none ↦ none
    | some a ↦
        if a.address == "" || has_header_injection a.name || has_header_injection a.address
        then none
        else some a
  ]

  unfoldable pub parse_parts : List String → Result String (List Address)
  unfolding trim_space address_of
  parse_parts [] = ok []
  parse_parts (part ∷ more) =
      let rest = parse_parts more in
      let trimmed = trim_space part in
      if trimmed == "" then rest else elim (address_of trimmed) [
        | none ↦ err "smtp_invalid_address"
        | some a ↦ (rest >>= λ l. ok (a ∷ l))
      ]

  some_address : List Address → Result String (List Address)
  some_address [] = err "smtp_invalid_address"
  some_address (a ∷ l) = ok (a ∷ l)

  unfoldable pub parse_recipients : String → Result String (List Address)
  unfolding has_header_injection fields_func parse_parts some_address
  parse_recipients raw =
      if has_header_injection raw
      then err "smtp_header_injection"
      else (parse_parts (fields_func is_separator raw) >>= some_address)

  unfoldable pub count_parts : List String → ℕ → Result String ℕ
  unfolding trim_space address_of
  count_parts [] n = ok n
  count_parts (part ∷ more) n =
      let skipped = count_parts more n in
      let counted = count_parts more (suc n) in
      let trimmed = trim_space part in
      if trimmed == ""
      then skipped
      else elim (address_of trimmed) [ none ↦ err "invalid recipients" | some _ ↦ counted ]

  unfoldable pub recipient_count : String → Result String ℕ
  unfolding has_header_injection fields_func count_parts
  recipient_count raw =
      if has_header_injection raw
      then err "invalid recipients"
      else (count_parts (fields_func is_separator raw) 0 >>= λ n.
          if eqb n 0 then err "invalid recipients" else ok n)
