-- ===== src/Notify/Template/Success.antt =====
-- The texts that a configuration accepts can be rendered.
use Prim.Native.String.{[] as no_text, ◌∷◌ as ◌∷ₜ◌}
use cpa_quota_alert_plugin.Base.{
  Option-cases, Bool-cases, ℕ, zero, suc, String, Char, Bool, true, false, ◌&&◌, some, List, [],
  ◌∷◌, ◌==◌, ok, is_blank, contains_char, contains, trim_space, starts_with, ◌≡◌, refl, ap, ◌∙◌,
  arith, eq_iff, All, inl, inr, contains_char-if, contains_char-cons, contains_char-trim_space,
  contains_char-append,
}
use cpa_quota_alert_plugin.Base.Dict.{Dict, lookup}
use cpa_quota_alert_plugin.Runtime.{Runtime, Fields}
use cpa_quota_alert_plugin.Config.Mail.{
  is_cr, is_lf, match_here, find_names, MailTemplate, parse_mail, allowed_mail_kinds,
}
use cpa_quota_alert_plugin.Notify.Texts.{default_subjects, default_bodies}
use cpa_quota_alert_plugin.Notify.{Message, is_line_break, occurred_at}
use cpa_quota_alert_plugin.Notify.Template.{
  is_known_placeholder, is_allowed_mail_kind, known_names, validate_template_text, text_at, fill,
  unify_breaks, finish_text, apply_template, unless_blank, resolve_templates, RenderInput,
  template_vars, render,
}
use cpa_quota_alert_plugin.Notify.Template.Agreement.{IsAccepted, AreBothAccepted, parse_mail-All}

-- Without the character, as the filled text is where the template and the values are.
fill-contains_char :
    (p : Char → Bool) (vars : Dict String) (skipped : ℕ) (s : String)
    → contains_char p s ≡ false
    → ((key : String) → contains_char p (text_at key vars) ≡ false)
    → contains_char p (fill vars skipped s) ≡ false
unfolding fill contains_char
fill-contains_char p vars skipped no_text h free = h
fill-contains_char p vars zero (c ∷ₜ s) h free = elim (Option-cases (match_here (c ∷ₜ s))) [
  | inl missing ↦ ground (arith, fill-contains_char p vars 0 s (ground arith) free)
  | inr ((name, n), found) ↦ ground (
    arith,
    free name,
    contains_char-append p (text_at name vars) (fill vars n s),
    fill-contains_char p vars n s (ground arith) free,
  )
]
fill-contains_char p vars (suc n) (c ∷ₜ s) h free =
    fill-contains_char p vars n s (ground arith) free

unify_breaks-contains_char :
    (p : Char → Bool) (s : String)
    → contains_char p s ≡ false
    → contains_char p (unify_breaks s) ≡ false
unfolding unify_breaks
unify_breaks-contains_char p no_text h = h
unify_breaks-contains_char p (c ∷ₜ s) h =
    let (rest, all) =
      contains_char-cons p c s (unify_breaks s) h (unify_breaks-contains_char p s) in
    contains_char-if p (is_cr c && starts_with s "\n") (unify_breaks s) (c ∷ₜ unify_breaks s) rest
      all

-- A value without line breaks has neither of the two.
contains_char-line_break :
    (s : String)
    → contains_char is_line_break s ≡ false
    → (contains_char is_cr s ≡ false) × (contains_char is_lf s ≡ false)
unfolding contains_char
contains_char-line_break no_text h = (refl, refl)
contains_char-line_break (c ∷ₜ s) h = ground (arith, contains_char-line_break s)

finish_text-eq-ok :
    (subject : Bool) (filled : String)
    → contains_char is_cr filled ≡ false
    → (subject ≡ true → contains_char is_lf filled ≡ false)
    → (s : String) × (finish_text subject filled ≡ ok s)
unfolding finish_text
finish_text-eq-ok false filled cr lf =
    let whole = unify_breaks-contains_char is_cr filled cr in (unify_breaks filled, ground arith)
finish_text-eq-ok true filled cr lf =
    let unified = unify_breaks filled in
    let cr' = contains_char-trim_space is_cr unified (unify_breaks-contains_char is_cr filled cr) in
    let lf' =
      contains_char-trim_space is_lf unified (unify_breaks-contains_char is_lf filled (lf refl)) in
    (trim_space unified, ground arith)

apply_template-eq-ok :
    (template : String) (vars : Dict String) (subject : Bool)
    → IsAccepted template subject
    → ((key : String) → contains_char is_line_break (text_at key vars) ≡ false)
    → (s : String) × (apply_template template vars subject ≡ ok s)
unfolding apply_template validate_template_text
apply_template-eq-ok template vars subject accepted free =
    let cr : contains_char is_cr template ≡ false = ground arith in
    let lf : subject ≡ true → contains_char is_lf template ≡ false = λ on. ground arith in
    let (s, done) =
      finish_text-eq-ok subject (fill vars 0 template)
        (fill-contains_char is_cr vars 0 template cr
          (λ key. (contains_char-line_break (text_at key vars) (free key)).0))
        (λ on.
          fill-contains_char is_lf vars 0 template (lf on)
            (λ key. (contains_char-line_break (text_at key vars) (free key)).1)) in
    (s, ground arith)

-- Both default texts of a kind pass the check.
record IsDefaulted (kind : String) : Type 0 where
  allowed : is_allowed_mail_kind kind ≡ true
  subject : IsAccepted (text_at kind default_subjects) true
  body : IsAccepted (text_at kind default_bodies) false

contains-All :
    (P : String → Type 0) (l : List String) (k : String) → All P l → contains l k ≡ true → P k
contains-All P [] k all h = absurd (ground arith)
contains-All P (x ∷ l) k (here, all) h = elim (Bool-cases (x == k)) [
  | inl same ↦ let e : k ≡ x = ground (arith, eq_iff x k) in rw e here
  | inr other ↦ contains-All P l k all (ground arith)
]

kinds-IsDefaulted : All IsDefaulted allowed_mail_kinds
unfolding is_allowed_mail_kind is_known_placeholder validate_template_text known_names find_names
    lookup trim_space contains_char
kinds-IsDefaulted = (
  record { allowed = refl; subject = refl; body = refl },
  (
    record { allowed = refl; subject = refl; body = refl },
    (
      record { allowed = refl; subject = refl; body = refl },
      (
        record { allowed = refl; subject = refl; body = refl },
        (
          record { allowed = refl; subject = refl; body = refl },
          (record { allowed = refl; subject = refl; body = refl }, tt),
        ),
      ),
    ),
  ),
)

lookup-All :
    {V : Type 0} (P : V → Type 0) (k : String) (v : V) (l : Dict V)
    → All (λ e. P e.1) l
    → lookup k l ≡ some v
    → P v
unfolding lookup
lookup-All P k v [] all h = absurd (ground arith)
lookup-All P k v ((j, w) ∷ l) (here, all) h = elim (Bool-cases (j == k)) [
  | inl same ↦ let e : v ≡ w = ground arith in rw e here
  | inr other ↦ lookup-All P k v l all (ground arith)
]

-- Values that are all free of a character make every lookup so.
pub text_at-contains_char :
    (p : Char → Bool) (key : String) (vars : Dict String)
    → All (λ (e : String × String). contains_char p e.1 ≡ false) vars
    → contains_char p (text_at key vars) ≡ false
unfolding lookup contains_char
text_at-contains_char p key [] free = refl
text_at-contains_char p key ((k, v) ∷ vars) (here, free) = elim (Bool-cases (k == key)) [
  | inl same ↦
      let e : text_at key ((k, v) ∷ vars) ≡ v = ground arith in ap (contains_char p) e ∙ here
  | inr other ↦
      let e : text_at key ((k, v) ∷ vars) ≡ text_at key vars = ground arith in
      ap (contains_char p) e ∙ text_at-contains_char p key vars free
]

unless_blank-IsAccepted :
    (fallback given : String) (subject : Bool)
    → IsAccepted fallback subject
    → IsAccepted given subject
    → IsAccepted (unless_blank fallback given) subject
unless_blank-IsAccepted fallback given subject f g = elim (Bool-cases (is_blank given)) [
  | inl blank ↦ ground arith
  | inr not_blank ↦ ground arith
]

resolve_templates-IsAccepted :
    (kind : String) (templates : Dict MailTemplate)
    → IsDefaulted kind
    → All (λ e. AreBothAccepted e.1) templates
    → IsAccepted (resolve_templates kind templates).0 true
      × IsAccepted (resolve_templates kind templates).1 false
unfolding resolve_templates
resolve_templates-IsAccepted kind templates d all = elim (Option-cases (lookup kind templates)) [
  | inl missing ↦ rw (missing, resolve_templates) (d.subject, d.body)
  | inr (template, found) ↦
      let (subject, body) = lookup-All AreBothAccepted kind template templates all found in
      rw (found, resolve_templates)
        (
          unless_blank-IsAccepted (text_at kind default_subjects) template.subject true d.subject
              subject,
          unless_blank-IsAccepted (text_at kind default_bodies) template.body false d.body body,
        )
]

module _ (rt : Runtime) where
  open rt use {Float}

  -- Of a kind that exists, and with the templates of a configuration that is accepted, every event is
  -- rendered as long as no value of its variables has a line break.
  pub render-eq-ok :
      (raw : Fields Float) (now : ℕ) (input : RenderInput rt)
      → parse_mail rt raw ≡ ok input.templates
      → contains allowed_mail_kinds (trim_space input.kind) ≡ true
      → ((key : String)
          → contains_char is_line_break (text_at key (template_vars rt now input)) ≡ false)
      → (msg : Message) × (render rt now input ≡ ok msg)
  unfolding render
  render-eq-ok raw now input parsed known free =
      let kind = trim_space input.kind in
      let templates = resolve_templates kind input.templates.templates in
      let vars = template_vars rt now input in
      let d = contains-All IsDefaulted allowed_mail_kinds kind kinds-IsDefaulted known in
      let (ok_subject, ok_body) =
        resolve_templates-IsAccepted kind input.templates.templates d
          (parse_mail-All rt raw input.templates parsed) in
      let (subject, s) = apply_template-eq-ok templates.0 vars true ok_subject free in
      let (body, b) = apply_template-eq-ok templates.1 vars false ok_body free in
      (
        record {
          event_id = "";
          event_type = kind;
          subject = subject;
          body = body;
          occurred_at = occurred_at now input.occurred;
        },
        rw d.allowed (rw s (rw b refl)),
      )
