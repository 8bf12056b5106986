-- ===== src/Notify/Recipients/Equivalence.antt =====
-- The count of the recipients agrees with what the sender makes of the same text.
use cpa_quota_alert_plugin.Base.{
  Option-cases, Bool-cases, ℕ, suc, eqb, ◌+◌, String, List, [], ◌∷◌, ◌==◌, ◌≡◌, refl, arith, length,
  if◌then◌else◌, Result, ok, err, ◌>>=◌, trim_space, inl, inr, ap,
}
use cpa_quota_alert_plugin.Runtime.{Runtime, Address}
use cpa_quota_alert_plugin.Notify.{has_header_injection}
use cpa_quota_alert_plugin.Notify.Recipients.{
  fields_func, is_separator, address_of, parse_parts, some_address, parse_recipients, count_parts,
  recipient_count,
}

-- The result of the count where the other is that of the parser.
abbrev pub counted : ℕ → Result String (List Address) → Result String ℕ
counted n (err e) = err "invalid recipients"
counted n (ok l) = ok (n + length l)

counted-cons :
    (n : ℕ) (a : Address) (r : Result String (List Address))
    → counted (suc n) r ≡ counted n (r >>= λ l. ok (a ∷ l))
counted-cons n a (err e) = refl
counted-cons n a (ok l) = ap ok (omega arith)

module _ (rt : Runtime) where
  count_parts-counted :
      (parts : List String) (n : ℕ) → count_parts rt parts n ≡ counted n (parse_parts rt parts)
  unfolding count_parts parse_parts
  count_parts-counted [] n = ap ok (omega arith)
  count_parts-counted (part ∷ more) n = elim (Bool-cases (trim_space part == "")) [
    | inl blank ↦ rw blank (count_parts-counted more n)
    | inr given ↦ elim (Option-cases (address_of rt (trim_space part))) [
      | inl bad ↦ rw given (rw bad refl)
      | inr (a, good) ↦
          ground (arith, count_parts-counted more (suc n), counted-cons n a (parse_parts rt more))
    ]
  ]

  nonzero-counted :
      (r : Result String (List Address))
      → (counted 0 r >>= λ n. if eqb n 0 then err "invalid recipients" else ok n)
        ≡ counted 0 (r >>= some_address rt)
  unfolding some_address
  nonzero-counted (err e) = refl
  nonzero-counted (ok []) = refl
  nonzero-counted (ok (a ∷ l)) = ground arith

  -- The recipients are counted without an error exactly where the sender parses them, and the count is
  -- the number of addresses that it parses.
  pub recipient_count-counted :
      (raw : String) → recipient_count rt raw ≡ counted 0 (parse_recipients rt raw)
  unfolding recipient_count parse_recipients
  recipient_count-counted raw = elim (Bool-cases (has_header_injection raw)) [
    | inl bad ↦ rw bad refl
    | inr good ↦
        let parts = fields_func is_separator raw in
        rw good (rw (count_parts-counted parts 0) (nonzero-counted (parse_parts rt parts)))
  ]
