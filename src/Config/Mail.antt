-- ===== src/Config/Mail.antt =====
-- The mail templates of internal/config/types.go: the placeholders of their texts, which
-- internal/notify/template.go finds by the same expression, and `parseMail`. A map's entries are
-- visited in the order of the list that stands for it.
use Prim.Native.String.{[] as no_text, ◌∷◌ as ◌∷ₜ◌}
use cpa_quota_alert_plugin.Base.{
  ℕ, suc, zero, ◌-◌, leb, eqb, String, Char, code, len, ◌<>◌, Bool, true, false, not, ◌&&◌, ◌||◌,
  Option, none, some, List, [], ◌∷◌, ◌==◌, if◌then◌else◌, Result, ok, err, ◌>>=◌, is_blank,
  contains, contains_char,
}
use cpa_quota_alert_plugin.Base.Dict.{Dict, insert}
use cpa_quota_alert_plugin.Runtime.{Runtime, Any, Fields, end, field}
use cpa_quota_alert_plugin.Quota.Wham.{value_at}
use cpa_quota_alert_plugin.Config.Values.{
  refuse, within, read_string, object_value, reject_unknown_fields,
}

abbrev pub is_cr : Char → Bool
is_cr c = eqb (code c) 13

abbrev pub is_lf : Char → Bool
is_lf c = eqb (code c) 10

-- The class `\s` of a regular expression.
abbrev is_gap : Char → Bool
is_gap c = let n = code c in eqb n 32 || eqb n 9 || eqb n 10 || eqb n 12 || eqb n 13

abbrev is_word : Char → Bool
is_word c = let n = code c in eqb n 95 || (leb 97 n && leb n 122)

-- The longest prefix that passes the test, and what follows it.
unfoldable pub span : (Char → Bool) → String → String × String
span p no_text = (no_text, no_text)
span p (c ∷ₜ s) = let rest = span p s in if p c then (c ∷ₜ rest.0, rest.1) else (no_text, c ∷ₜ s)

-- What follows two characters with the code.
strip : ℕ → String → Option String
strip n no_text = none
strip n (c ∷ₜ no_text) = none
strip n (c ∷ₜ d ∷ₜ s) = if eqb (code c) n && eqb (code d) n then some s else none

-- The match of the expression for a placeholder at the beginning of the text: its name, and how many
-- characters follow the first one of it. All of them are bytes, which `len` counts.
unfoldable pub match_here : String → Option (String × ℕ)
unfolding span strip
match_here s = elim (strip 123 s) [
  | none ↦ none
  | some inside ↦
      let word = span is_word (span is_gap inside).1 in
      if word.0 == "" then none else elim (strip 125 (span is_gap word.1).1) [
        | none ↦ none
        | some rest ↦ some (word.0, len s - len rest - 1)
      ]
]

-- The names of the matches that `FindAllStringSubmatch` finds, from the first character that is not
-- skipped.
unfoldable pub find_names : ℕ → String → List String
unfolding match_here
find_names skipped no_text = []
find_names zero (c ∷ₜ s) = elim (match_here (c ∷ₜ s)) [
  | none ↦ find_names 0 s
  | some (name, n) ↦ name ∷ find_names n s
]
find_names (suc n) (c ∷ₜ s) = find_names n s

abbrev pub allowed_mail_kinds : List String
allowed_mail_kinds =
    "low" ∷ "low_reminder" ∷ "recovery" ∷ "data_error" ∷ "plan_changed" ∷ "test_notification" ∷ []

abbrev pub allowed_mail_placeholders : List String
allowed_mail_placeholders =
    "kind" ∷ "total" ∷ "low_threshold" ∷ "recovery_threshold" ∷ "consecutive_failures"
    ∷ "error_code" ∷ "unknown_plans" ∷ "partial" ∷ "unresolved_count" ∷ "occurred_at" ∷ []

unfoldable pub is_allowed_placeholder : String → Bool
is_allowed_placeholder name = contains allowed_mail_placeholders name

-- The loop over the matches.
unfoldable pub check_names : String → List String → Result String (Unit {0})
unfolding is_allowed_placeholder
check_names at [] = ok tt
check_names at (name ∷ more) =
    let rest = check_names at more in
    if is_allowed_placeholder name
    then rest
    else err (at <> " contains unknown placeholder {{" <> name <> "}}")

unfoldable pub validate_mail_template_text : String → String → Bool → Result String (Unit {0})
unfolding contains_char find_names check_names
validate_mail_template_text at value subject =
    if is_blank value
    then err (at <> " must be non-empty")
    else if contains_char is_cr value
    then err (at <> " must not contain CR")
    else if subject && contains_char is_lf value
    then err (at <> " must be a single line")
    else check_names at (find_names 0 value)

pub record MailTemplate : Type 0 where
  pub subject : String
  pub body : String

pub record MailConfig : Type 0 where
  pub templates : Dict MailTemplate

abbrev pub no_mail : MailConfig
no_mail = record { templates = [] }

module _ (rt : Runtime) where
  open rt use {Float}

  -- The two reads of one round of the loop over the templates.
  unfoldable pub read_template : String → Fields Float → Result String MailTemplate
  unfolding reject_unknown_fields read_string
  read_template path item = reject_unknown_fields rt path ("subject" ∷ "body" ∷ []) item >>= λ _.
      within (path <> ".subject: ") (read_string rt item "subject" "") >>= λ subject.
      within (path <> ".body: ") (read_string rt item "body" "") >>= λ body.
      ok (record { subject = subject; body = body })

  unfoldable pub check_template : String → MailTemplate → Result String MailTemplate
  unfolding validate_mail_template_text
  check_template path template =
      validate_mail_template_text (path <> ".subject") template.subject true >>= λ _.
      validate_mail_template_text (path <> ".body") template.body false >>= λ _. ok template

  unfoldable pub parse_item : String → Option (Fields Float) → Result String MailTemplate
  unfolding read_template check_template
  parse_item path none = err (path <> " must be an object")
  parse_item path (some item) = read_template path item >>= check_template path

  -- One round of the loop.
  unfoldable pub parse_template : String → Any Float → Result String MailTemplate
  unfolding parse_item
  parse_template kind value =
      let path = "mail.templates." <> kind in
      refuse (not (contains allowed_mail_kinds kind)) (path <> " is not a supported event kind")
      >>= λ _. parse_item path (object_value rt value)

  unfoldable pub parse_templates :
      Fields Float → Dict MailTemplate → Result String (Dict MailTemplate)
  unfolding parse_template insert
  parse_templates end parsed = ok parsed
  parse_templates (field kind value more) parsed =
      parse_template kind value >>= λ template. parse_templates more (insert kind template parsed)

  unfoldable pub parse_mail : Fields Float → Result String MailConfig
  unfolding reject_unknown_fields value_at parse_templates
  parse_mail raw = reject_unknown_fields rt "mail" ("templates" ∷ []) raw >>= λ _.
      elim (value_at rt "templates" raw) [
        | none ↦ ok no_mail
        | some value ↦ elim (object_value rt value) [
          | none ↦ err "mail.templates must be an object"
          | some fields ↦
              parse_templates fields [] >>= λ templates. ok (record { templates = templates })
        ]
      ]
