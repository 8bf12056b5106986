-- ===== src/Notify/Template.antt =====
-- The rendering of internal/notify/template.go. An error of `validateTemplateText` is its message, one
-- of `Render` its code.
pub mod Agreement
pub mod Success
use Prim.Native.String.{[] as no_text, ◌∷◌ as ◌∷ₜ◌}
use cpa_quota_alert_plugin.Base.{
  ℕ, zero, suc, String, Char, ◌<>◌, Bool, true, false, not, ◌&&◌, ◌||◌, Option, none, some, List,
  [], ◌∷◌, ◌==◌, if◌then◌else◌, Result, ok, err, ◌>>=◌, is_blank, contains_char, contains,
  trim_space, starts_with,
}
use cpa_quota_alert_plugin.Base.Dict.{Dict, lookup}
use cpa_quota_alert_plugin.Runtime.{Runtime, Fields}
use cpa_quota_alert_plugin.Config.Values.{refuse, within}
use cpa_quota_alert_plugin.Config.Mail.{
  is_cr, is_lf, match_here, find_names, MailTemplate, MailConfig,
}
use cpa_quota_alert_plugin.Notify.Texts.{default_subjects, default_bodies}
use cpa_quota_alert_plugin.Notify.Format.{
  first_present, format_plain, format_number, format_bool, format_unknown_plans,
}
use cpa_quota_alert_plugin.Notify.{Message, occurred_at}

abbrev pub allowed_placeholders : List String
allowed_placeholders =
    "kind" ∷ "total" ∷ "low_threshold" ∷ "recovery_threshold" ∷ "consecutive_failures"
    ∷ "error_code" ∷ "unknown_plans" ∷ "partial" ∷ "unresolved_count" ∷ "occurred_at" ∷ []

abbrev is_there {ℓ} : {A : Type ℓ} → Option A → Bool
is_there none = false
is_there (some _) = true

unfoldable pub is_allowed_mail_kind : String → Bool
unfolding lookup trim_space
is_allowed_mail_kind kind = is_there (lookup (trim_space kind) default_subjects)

unfoldable pub is_known_placeholder : String → Bool
is_known_placeholder name = contains allowed_placeholders name

-- The loop over the matches.
unfoldable pub known_names : List String → Result String (Unit {0})
unfolding is_known_placeholder
known_names [] = ok tt
known_names (name ∷ more) =
    let rest = known_names more in
    if is_known_placeholder name then rest else err ("unknown placeholder {{" <> name <> "}}")

unfoldable pub validate_template_text : String → String → Bool → Result String (Unit {0})
unfolding contains_char find_names known_names
validate_template_text label value subject =
    if is_blank value
    then err (label <> " must be non-empty")
    else if contains_char is_cr value
    then err (label <> " must not contain CR")
    else if subject && contains_char is_lf value
    then err "subject must be a single line"
    else known_names (find_names 0 value)

-- `ValidateMailTemplates`
unfoldable pub validate_mail_templates : Dict MailTemplate → Result String (Unit {0})
unfolding is_allowed_mail_kind validate_template_text
validate_mail_templates [] = ok tt
validate_mail_templates ((kind, template) ∷ more) =
    let path = "mail.templates." <> kind in
    refuse (not (is_allowed_mail_kind kind)) (path <> " is not a supported event kind") >>= λ _.
    within (path <> ".subject: ") (validate_template_text "subject" template.subject true) >>= λ _.
    within (path <> ".body: ") (validate_template_text "body" template.body false) >>= λ _.
    validate_mail_templates more

-- `vars[key]`, which is empty where the key is missing.
abbrev pub text_at : String → Dict String → String
text_at key vars = elim (lookup key vars) [ none ↦ "" | some value ↦ value ]

-- The text with the matches replaced, from the first character that is not skipped.
unfoldable pub fill : Dict String → ℕ → String → String
unfolding match_here lookup
fill vars skipped no_text = no_text
fill vars zero (c ∷ₜ s) = elim (match_here (c ∷ₜ s)) [
  | none ↦ c ∷ₜ fill vars 0 s
  | some (name, n) ↦ text_at name vars <> fill vars n s
]
fill vars (suc n) (c ∷ₜ s) = fill vars n s

-- `strings.ReplaceAll` of "\r\n" by "\n".
unfoldable pub unify_breaks : String → String
unify_breaks no_text = no_text
unify_breaks (c ∷ₜ s) =
    let rest = unify_breaks s in if is_cr c && starts_with s "\n" then rest else c ∷ₜ rest

unfoldable pub finish_text : Bool → String → Result String String
unfolding unify_breaks trim_space contains_char
finish_text subject filled =
    let unified = unify_breaks filled in
    let trimmed = if subject then trim_space unified else unified in
    if contains_char is_cr trimmed || (subject && contains_char is_lf trimmed)
    then err "notify_header_injection"
    else ok trimmed

unfoldable pub apply_template : String → Dict String → Bool → Result String String
unfolding validate_template_text fill finish_text
apply_template template vars subject = validate_template_text "template" template subject >>= λ _.
    finish_text subject (fill vars 0 template)

abbrev unless_blank : String → String → String
unless_blank fallback given = if is_blank given then fallback else given

unfoldable pub resolve_templates : String → Dict MailTemplate → String × String
unfolding lookup trim_space
resolve_templates kind templates =
    let subject = text_at kind default_subjects in
    let body = text_at kind default_bodies in
    elim (lookup kind templates) [
      | none ↦ (subject, body)
      | some template ↦ (unless_blank subject template.subject, unless_blank body template.body)
    ]

-- `Render` takes every error of a template for one code.
abbrev invalid {ℓ} : {A : Type ℓ} → Result String A → Result String A
invalid (err _) = err "notify_invalid_message"
invalid (ok a) = ok a

module _ (rt : Runtime) where
  open rt use {Float, format_time, format_float, eq_float, literal}

  pub record RenderInput : Type 0 where
    pub kind : String
    pub summary : Fields Float
    pub occurred : ℕ
    pub low_threshold : Float
    pub recovery_threshold : Float
    pub templates : MailConfig

  threshold_text : Float → String
  threshold_text value = if eq_float value (literal 0 0) then "0.00" else format_float value

  unfoldable pub template_vars : ℕ → RenderInput → Dict String
  unfolding first_present format_plain format_number format_bool format_unknown_plans threshold_text
      trim_space
  template_vars now input =
      let at = first_present rt input.summary in
      ("kind", trim_space input.kind)
      ∷ ("total", format_number rt (at "total"))
      ∷ ("low_threshold", threshold_text input.low_threshold)
      ∷ ("recovery_threshold", threshold_text input.recovery_threshold)
      ∷ ("consecutive_failures", format_plain rt (at "consecutive_failures"))
      ∷ ("error_code", format_plain rt (at "error_code"))
      ∷ ("unknown_plans", format_unknown_plans rt (at "unknown_plans"))
      ∷ ("partial", format_bool rt (at "partial"))
      ∷ ("unresolved_count", format_plain rt (at "unresolved_count"))
      ∷ ("occurred_at", format_time (occurred_at now input.occurred))
      ∷ []

  -- `Render`; a nil summary has no entries.
  unfoldable pub render : ℕ → RenderInput → Result String Message
  unfolding is_allowed_mail_kind resolve_templates template_vars apply_template trim_space
  render now input =
      let kind = trim_space input.kind in
      let templates = resolve_templates kind input.templates.templates in
      let vars = template_vars now input in
      refuse (not (is_allowed_mail_kind kind)) "notify_invalid_message" >>= λ _.
      invalid (apply_template templates.0 vars true) >>= λ subject.
      invalid (apply_template templates.1 vars false) >>= λ body. ok (record {
        event_id = "";
        event_type = kind;
        subject = subject;
        body = body;
        occurred_at = occurred_at now input.occurred;
      })
