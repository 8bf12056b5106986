-- ===== src/Notify/Template/Agreement.antt =====
-- The texts of a configuration that is accepted pass the check of the rendering.
use cpa_quota_alert_plugin.Base.{
  >>=-eq-ok, Option-cases, Result-cases, String, ◌<>◌, Bool, true, false, not, Option, none, some,
  List, [], ◌∷◌, if◌then◌else◌, Result, ok, err, ◌>>=◌, contains, ◌≡◌, refl, arith, All, inl, inr,
}
use cpa_quota_alert_plugin.Base.Dict.{Dict, insert, All-insert}
use cpa_quota_alert_plugin.Runtime.{Runtime, Any, Fields, end, field}
use cpa_quota_alert_plugin.Quota.Wham.{value_at}
use cpa_quota_alert_plugin.Config.Values.{refuse, object_value}
use cpa_quota_alert_plugin.Config.Mail.{
  find_names, check_names, validate_mail_template_text, MailTemplate, MailConfig, read_template,
  check_template, parse_item, parse_template, parse_templates, parse_mail, no_mail,
  allowed_mail_kinds,
}
use cpa_quota_alert_plugin.Notify.Template.{
  is_known_placeholder, known_names, validate_template_text,
}

-- The template passes the check.
abbrev pub IsAccepted : String → Bool → Type 0
IsAccepted template subject = validate_template_text "template" template subject ≡ ok tt

if-eq-ok :
    (b : Bool) (first second : Result String (Unit {0})) (e e' : String)
    → (if b then first else err e) ≡ ok tt
    → (first ≡ ok tt → second ≡ ok tt)
    → (if b then second else err e') ≡ ok tt
if-eq-ok true first second e e' h step = step h
if-eq-ok false first second e e' h step = absurd (ground arith)

check_names-known_names :
    (at : String) (names : List String) → check_names at names ≡ ok tt → known_names names ≡ ok tt
unfolding check_names known_names
check_names-known_names at [] h = refl
check_names-known_names at (name ∷ more) h =
    if-eq-ok (is_known_placeholder name) (check_names at more) (known_names more)
      (at <> " contains unknown placeholder {{" <> name <> "}}")
      ("unknown placeholder {{" <> name <> "}}") h (check_names-known_names at more)

-- The check of the configuration and the one of the rendering agree.
validate_mail_template_text-IsAccepted :
    (at value : String) (subject : Bool)
    → validate_mail_template_text at value subject ≡ ok tt
    → IsAccepted value subject
unfolding validate_mail_template_text validate_template_text
validate_mail_template_text-IsAccepted at value subject h =
    ground (arith, check_names-known_names at (find_names 0 value))

abbrev pub AreBothAccepted : MailTemplate → Type 0
AreBothAccepted template = IsAccepted template.subject true × IsAccepted template.body false

module _ (rt : Runtime) where
  open rt use {Float}

  check_template-AreBothAccepted :
      (path : String) (read template : MailTemplate)
      → check_template rt path read ≡ ok template
      → AreBothAccepted template
  unfolding check_template
  check_template-AreBothAccepted path read template h =
      let (_, subject, after) =
        >>=-eq-ok (validate_mail_template_text (path <> ".subject") read.subject true)
          (λ _. validate_mail_template_text (path <> ".body") read.body false >>= λ _. ok read) h in
      let (_, body, done) =
        >>=-eq-ok (validate_mail_template_text (path <> ".body") read.body false) (λ _. ok read)
          after in
      let same : template ≡ read = cc done in
      rw same (
        validate_mail_template_text-IsAccepted (path <> ".subject") read.subject true subject,
        validate_mail_template_text-IsAccepted (path <> ".body") read.body false body,
      )

  parse_item-AreBothAccepted :
      (path : String) (item : Option (Fields Float)) (template : MailTemplate)
      → parse_item rt path item ≡ ok template
      → AreBothAccepted template
  unfolding parse_item
  parse_item-AreBothAccepted path none template h = absurd (ground arith)
  parse_item-AreBothAccepted path (some item) template h =
      let (read, _, checked) = >>=-eq-ok (read_template rt path item) (check_template rt path) h in
      check_template-AreBothAccepted path read template checked

  parse_template-AreBothAccepted :
      (kind : String) (value : Any Float) (template : MailTemplate)
      → parse_template rt kind value ≡ ok template
      → AreBothAccepted template
  unfolding parse_template
  parse_template-AreBothAccepted kind value template h =
      let path = "mail.templates." <> kind in
      let (_, _, parsed) =
        >>=-eq-ok
          (refuse (not (contains allowed_mail_kinds kind))
            (path <> " is not a supported event kind"))
          (λ _. parse_item rt path (object_value rt value)) h in
      parse_item-AreBothAccepted path (object_value rt value) template parsed

  parse_templates-All :
      (fields : Fields Float) (parsed result : Dict MailTemplate)
      → All (λ e. AreBothAccepted e.1) parsed
      → parse_templates rt fields parsed ≡ ok result
      → All (λ e. AreBothAccepted e.1) result
  unfolding parse_templates
  parse_templates-All end parsed result all h = let e : result ≡ parsed = ground arith in rw e all
  parse_templates-All (field kind value more) parsed result all h =
      let (template, made, rest) =
        >>=-eq-ok (parse_template rt kind value)
          (λ t. parse_templates rt more (insert kind t parsed)) h in
      parse_templates-All more (insert kind template parsed) result
        (All-insert AreBothAccepted kind template parsed all
          (parse_template-AreBothAccepted kind value template made))
        rest

  pub parse_mail-All :
      (raw : Fields Float) (mail : MailConfig)
      → parse_mail rt raw ≡ ok mail
      → All (λ e. AreBothAccepted e.1) mail.templates
  unfolding parse_mail
  parse_mail-All raw mail h = elim (Option-cases (value_at rt "templates" raw)) [
    | inl missing ↦ let e : mail ≡ no_mail = ground arith in rw e tt
    | inr (value, found) ↦ elim (Option-cases (object_value rt value)) [
      | inl bad ↦ absurd (ground arith)
      | inr (fields, is_object) ↦ elim (Result-cases (parse_templates rt fields [])) [
        | inl (e, bad) ↦ absurd (ground arith)
        | inr (templates, parsed) ↦
            let e : mail ≡ record { templates = templates } = ground arith in
            rw e (parse_templates-All fields [] templates tt parsed)
      ]
    ]
  ]
