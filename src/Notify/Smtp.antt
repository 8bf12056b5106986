-- ===== src/Notify/Smtp.antt =====
-- internal/notify/smtp.go. `Send` is the list of what it asks of the server, in order, each with the
-- code of the error that a failure gives. What a server answers is a function of what it was asked
-- before. The deadlines and the closing of the connection are left out, and so is the closing of the writer after a write that failed.
pub mod Safety
use cpa_quota_alert_plugin.Base.{
  ℕ, ℤ, pos, String, Char, ◌<>◌, Bool, true, false, not, ◌||◌, Option, none, some, List, [], ◌∷◌,
  ◌++◌, ◌==◌, if◌then◌else◌, Result, ok, err, ◌>>=◌, trim_space, ends_with, join,
}
use cpa_quota_alert_plugin.Runtime.{Runtime, Address}
use cpa_quota_alert_plugin.Config.Channels.{SmtpConfig}
use cpa_quota_alert_plugin.Config.Values.{refuse}
use cpa_quota_alert_plugin.Notify.{Message, has_header_injection, validate_message, occurred_at}
use cpa_quota_alert_plugin.Notify.Recipients.{parse_recipients}

pub data Command : Type 0 where
  dial : String → ℤ → Command
  handshake hello has_starttls start_tls begin_data close quit : Command
  new_client : String → Command
  -- the username and the password
  auth : String → String → Command
  mail rcpt write : String → Command

-- What `Send` asks, with the code of the error that a failure gives.
abbrev pub Step : Type 0
Step = Command × String

-- The answers of a server: whether the command succeeds after those before it.
abbrev pub Server : Type 0
Server = List Command → Command → Bool

-- The steps up to the first failure: its code, and the commands asked.
unfoldable pub execute : Server → List Command → List Step → Option String × List Command
execute server asked [] = (none, asked)
execute server asked ((command, failure) ∷ more) =
    let next = asked ++ command ∷ [] in
    let rest = execute server next more in
    if server asked command then rest else (some failure, next)

abbrev implicit_steps : Bool → List Step
implicit_steps on = if on then (handshake, "smtp_tls_failed") ∷ [] else []

abbrev starttls_steps : Bool → List Step
starttls_steps on =
    if on
    then (hello, "smtp_protocol_failed")
      ∷ (has_starttls, "smtp_tls_failed")
      ∷ (start_tls, "smtp_tls_failed")
      ∷ []
    else []

rcpt_steps : List Address → List Step
rcpt_steps [] = []
rcpt_steps (a ∷ more) = (rcpt a.address, "smtp_protocol_failed") ∷ rcpt_steps more

-- The steps before the authentication, and those from it on.
unfoldable pub opening : SmtpConfig → List Step
opening cfg =
    (dial cfg.host cfg.port, "smtp_connect_failed")
      ∷ implicit_steps (cfg.tls_mode == "implicit_tls")
    ++ (new_client cfg.host, "smtp_protocol_failed") ∷ starttls_steps (cfg.tls_mode == "starttls")

unfoldable pub delivering : String → String → Address → List Address → String → List Step
unfolding rcpt_steps
delivering username password from recipients payload =
    (auth username password, "smtp_auth_failed")
      ∷ (mail from.address, "smtp_protocol_failed")
      ∷ rcpt_steps recipients
    ++ (begin_data, "smtp_protocol_failed")
      ∷ (write payload, "smtp_protocol_failed")
      ∷ (close, "smtp_protocol_failed")
      ∷ (quit, "smtp_protocol_failed")
      ∷ []

-- What a sender reads of the environment, with the address of `From`.
pub record Envelope : Type 0 where
  pub username : String
  pub password : String
  pub from : Address
  pub recipients : List Address

module _ (rt : Runtime) where
  open rt use {parse_address}

  -- `Address.String`, the encoding of a subject and the date of a message, of net/mail, mime and time.
  pub record Mime : Type 0 where
    pub address_text : Address → String
    pub encode_subject : String → String
    pub format_date : ℕ → String

  abbrev header : String → String → String
  header key value = key <> ": " <> value <> "\r\n"

  address_texts : Mime → List Address → List String
  address_texts mime [] = []
  address_texts mime (a ∷ more) = mime.address_text a ∷ address_texts mime more

  unfoldable pub build_smtp_message : Mime → ℕ → Address → List Address → Message → String
  unfolding address_texts join ends_with
  build_smtp_message mime now from recipients msg =
      header "From" (mime.address_text from)
      <> header "To" (join ", " (address_texts mime recipients))
      <> header "Subject" (mime.encode_subject msg.subject)
      <> header "Date" (mime.format_date (occurred_at now msg.occurred_at))
      <> header "MIME-Version" "1.0"
      <> header "Content-Type" "text/plain; charset=utf-8"
      <> header "Content-Transfer-Encoding" "8bit"
      <> "\r\n"
      <> msg.body
      <> (if ends_with msg.body "\n" then "" else "\r\n")

  named : SmtpConfig → Address → Address
  named cfg from = if cfg.from_name == "" then from else record from { name = cfg.from_name }

  from_of : SmtpConfig → String → Result String Address
  unfolding named
  from_of cfg raw = elim (parse_address raw) [
    | none ↦ err "smtp_invalid_address"
    | some a ↦ if a.address == "" then err "smtp_invalid_address" else ok (named cfg a)
  ]

  -- The checks of `Send` before it dials.
  unfoldable pub prepare : SmtpConfig → (String → String) → Message → Result String Envelope
  unfolding validate_message has_header_injection trim_space from_of parse_recipients
  prepare cfg getenv msg =
      let username = trim_space (getenv cfg.username_env) in
      let password = trim_space (getenv cfg.password_env) in
      let from_raw = trim_space (getenv cfg.from_env) in
      let recipients_raw = trim_space (getenv cfg.recipients_env) in
      validate_message msg >>= λ _.
      refuse (has_header_injection cfg.from_name) "smtp_header_injection" >>= λ _.
      refuse (username == "" || password == "" || from_raw == "" || recipients_raw == "")
        "smtp_runtime_config"
      >>= λ _.
          refuse
            (has_header_injection username
              || has_header_injection from_raw
              || has_header_injection recipients_raw)
            "smtp_header_injection"
          >>= λ _. from_of cfg from_raw >>= λ from.
              parse_recipients rt recipients_raw >>= λ recipients. ok (record {
                username = username;
                password = password;
                from = from;
                recipients = recipients;
              })

  run : SmtpConfig → Server → Mime → ℕ → Message → Envelope → Option String × List Command
  unfolding execute opening delivering build_smtp_message
  run cfg server mime now msg e = execute server [] (
      opening cfg
      ++ delivering e.username e.password e.from e.recipients
          (build_smtp_message mime now e.from e.recipients msg))

  -- `Send`: the code of its error, and what it asked of the server.
  unfoldable pub send :
      SmtpConfig → (String → String) → Server → Mime → ℕ → Message → Option String × List Command
  unfolding prepare run
  send cfg getenv server mime now msg =
      if not cfg.enabled then (none, []) else elim (prepare cfg getenv msg) [
        | err e ↦ (some e, [])
        | ok e ↦ run cfg server mime now msg e
      ]
