-- ===== src/Notify/Smtp/Safety.antt =====
-- The credentials of the mail server are sent over TLS only.
use cpa_quota_alert_plugin.Base.{
  Result-cases, Bool-cases, ℕ, String, Bool, true, false, not, ◌&&◌, ◌||◌, List, [], ◌∷◌, ◌++◌, ◌≡◌,
  ◌⊎◌, refl, arith, inl, inr, ok, ap, ◌∙◌,
}
use cpa_quota_alert_plugin.Runtime.{Runtime, Fields}
use cpa_quota_alert_plugin.Config.Channels.{SmtpConfig}
use cpa_quota_alert_plugin.Config.Parse.{Config, parse}
use cpa_quota_alert_plugin.Config.Parse.Bounds.{parse-IsValid}
use cpa_quota_alert_plugin.Notify.{Message}
use cpa_quota_alert_plugin.Notify.Smtp.{
  Command, handshake, start_tls, auth, Step, Server, execute, opening, delivering, Mime, Envelope,
  build_smtp_message, prepare, run, send,
}

abbrev is_auth : Command → Bool
is_auth (auth _ _) = true
is_auth _ = false

abbrev is_tls : Command → Bool
is_tls handshake = true
is_tls start_tls = true
is_tls _ = false

-- Of the commands asked after those before, each authentication follows a command for TLS that
-- succeeded.
unfoldable pub is_secured : Server → List Command → Bool → List Command → Bool
is_secured server before tls [] = true
is_secured server before tls (c ∷ more) =
    (not (is_auth c) || tls)
    && is_secured server (before ++ c ∷ []) (tls || (is_tls c && server before c)) more

-- The same of steps, were all to succeed.
is_guarded : Bool → List Step → Bool
is_guarded tls [] = true
is_guarded tls ((c, _) ∷ more) = (not (is_auth c) || tls) && is_guarded (tls || is_tls c) more

is_guarded-true : (steps : List Step) → is_guarded true steps ≡ true
unfolding is_guarded
is_guarded-true [] = refl
is_guarded-true ((c, _) ∷ more) = ground (arith, is_guarded-true more)

snoc-append :
    (before : List Command) (c : Command) (l : List Command)
    → (before ++ c ∷ []) ++ l ≡ before ++ c ∷ l
snoc-append [] c l = refl
snoc-append (b ∷ before) c l = ap (λ m. b ∷ m) (snoc-append before c l)

append_nil : (before : List Command) → before ≡ before ++ []
append_nil [] = refl
append_nil (b ∷ before) = ap (λ m. b ∷ m) (append_nil before)

execute-is_secured :
    (server : Server) (before : List Command) (tls : Bool) (steps : List Step)
    → is_guarded tls steps ≡ true
    → (l : List Command) × ((execute server before steps).1 ≡ before ++ l)
      × (is_secured server before tls l ≡ true)
unfolding execute is_secured is_guarded
execute-is_secured server before tls [] h = ([], append_nil before, refl)
execute-is_secured server before tls ((c, e) ∷ more) h = elim (Bool-cases (server before c)) [
  | inl succeeds ↦
      let (l, trail, secured) =
        execute-is_secured server (before ++ c ∷ []) (tls || is_tls c) more (ground arith) in
      (c ∷ l, ground (arith, snoc-append before c l), ground arith)
  | inr fails ↦ (c ∷ [], ground arith, ground arith)
]

opening-is_guarded :
    (cfg : SmtpConfig) (steps : List Step)
    → (cfg.tls_mode ≡ "implicit_tls") ⊎ (cfg.tls_mode ≡ "starttls")
    → is_guarded false (opening cfg ++ steps) ≡ true
unfolding opening is_guarded
opening-is_guarded cfg steps (inl mode) = rw mode (is_guarded-true steps)
opening-is_guarded cfg steps (inr mode) = rw mode (is_guarded-true steps)

module _ (rt : Runtime) where
  run-is_secured :
      (cfg : SmtpConfig) (server : Server) (mime : Mime rt) (now : ℕ) (msg : Message) (e : Envelope)
      → (cfg.tls_mode ≡ "implicit_tls") ⊎ (cfg.tls_mode ≡ "starttls")
      → is_secured server [] false (run rt cfg server mime now msg e).1 ≡ true
  unfolding run
  run-is_secured cfg server mime now msg e mode =
      let rest =
        delivering e.username e.password e.from e.recipients
          (build_smtp_message rt mime now e.from e.recipients msg) in
      let (l, trail, secured) =
        execute-is_secured server [] false (opening cfg ++ rest)
          (opening-is_guarded cfg rest mode) in
      ap (is_secured server [] false) trail ∙ secured

  -- The configuration is one that is accepted. Then whatever the environment holds at that time,
  -- whatever the server answers and whatever the message is, the sender asks for an authentication only
  -- after a handshake of TLS that succeeded.
  pub send-is_secured :
      (raw : Fields rt.Float) (getenv : String → String) (cfg : Config rt)
      → parse rt raw getenv ≡ ok cfg
      → (environment : String → String) (server : Server) (mime : Mime rt) (now : ℕ) (msg : Message)
      → is_secured server [] false (send rt cfg.smtp environment server mime now msg).1 ≡ true
  unfolding send is_secured
  send-is_secured raw getenv cfg parsed environment server mime now msg =
      elim (Bool-cases cfg.smtp.enabled) [
        | inr off ↦ rw off refl
        | inl on ↦ elim (Result-cases (prepare rt cfg.smtp environment msg)) [
          | inl (code, bad) ↦ rw on (rw bad refl)
          | inr (e, good) ↦
              let mode = ((parse-IsValid rt raw getenv cfg parsed).smtp on).tls_mode in
              rw on (rw good (run-is_secured cfg.smtp server mime now msg e mode))
        ]
      ]
