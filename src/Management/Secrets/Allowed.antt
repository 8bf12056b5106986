-- ===== src/Management/Secrets/Allowed.antt =====
-- Which secrets a request may change.
use mathlib.Core.Logic.Or
use mathlib.Core.List.{Mem, mem-cons}
use text.Mathlib.TextBridge.{IsPrefix}
use text.Mathlib.TextEquality.{starts_with_iff}
use cpa_quota_alert_plugin.Base.{
  String, true, false, not, some, List, [], ◌∷◌, ◌≡◌, ◌≢◌, ◌≤◌, ◌⊎◌, ◌==◌, ◌&&◌, starts_with, arith,
  any, All, length, ◌+◌, Option-cases, Bool-cases, inl, inr, eq_iff,
}
use cpa_quota_alert_plugin.Base.Dict.{Dict, keys}
use cpa_quota_alert_plugin.Runtime.{Runtime}
use cpa_quota_alert_plugin.Management.Types.{
  Request, Config, Effect, saved, sent, sent_test, updated, Dependencies,
}
use cpa_quota_alert_plugin.Management.Secrets.{may_store, apply_update, put_secrets, secrets}

module _ (rt : Runtime) (deps : Dependencies rt) where
  -- A name that the configuration refers to, or one that begins with the plugin's prefix.
  abbrev pub IsStorable : Config rt → String → Type 0
  IsStorable cfg name = (Mem name cfg.secret_names × (name ≢ "")) ⊎ IsPrefix "CPA_QUOTA_ALERT_" name

  -- The effect is the update that a PUT request asks for, of at most 16 names, all of them storable.
  abbrev pub IsAllowed : Config rt → Request → Effect rt → Type 0
  IsAllowed cfg req (updated set clear) =
      (req.method ≡ "PUT")
      × (deps.decode_update req.body ≡ some (set, clear))
      × (length set + length clear ≤ 16)
      × All (IsStorable cfg) (keys set)
      × All (IsStorable cfg) clear
  IsAllowed cfg req (saved s) = ⊥
  IsAllowed cfg req (sent channel event) = ⊥
  IsAllowed cfg req (sent_test channel) = ⊥

  Mem-any :
      (name : String) (names : List String)
      → any (λ allowed. not (allowed == "") && allowed == name) names ≡ true
      → Mem name names × (name ≢ "")
  Mem-any name [] h = absurd (ground arith)
  Mem-any name (other ∷ names) h = elim (Bool-cases (not (other == "") && other == name)) [
    | inl found ↦
        let same : name ≡ other = ground (arith, eq_iff other name) in
        (mem-cons.1 (Or.inl same), ground (arith, eq_iff other name, eq_iff other ""))
    | inr missed ↦
        let (rest, nonempty) = Mem-any name names (ground arith) in
        (mem-cons.1 (Or.inr rest), nonempty)
  ]

  may_store-IsStorable :
      (cfg : Config rt) (name : String) → may_store rt deps cfg name ≡ true → IsStorable cfg name
  unfolding may_store
  may_store-IsStorable cfg name h = elim (Bool-cases (starts_with name "CPA_QUOTA_ALERT_")) [
    | inl prefixed ↦ inr ((starts_with_iff name "CPA_QUOTA_ALERT_").0 prefixed)
    | inr other ↦ inl (Mem-any name cfg.secret_names (ground arith))
  ]

  all-IsStorable :
      (cfg : Config rt) (names : List String)
      → any (λ name. not (may_store rt deps cfg name)) names ≡ false
      → All (IsStorable cfg) names
  all-IsStorable cfg [] h = tt
  all-IsStorable cfg (name ∷ names) h =
      (may_store-IsStorable cfg name (ground arith), all-IsStorable cfg names (ground arith))

  apply_update-IsAllowed :
      (cfg : Config rt) (req : Request) (set : Dict String) (clear : List String)
      → req.method ≡ "PUT"
      → deps.decode_update req.body ≡ some (set, clear)
      → length set + length clear ≤ 16
      → All (IsAllowed cfg req) (apply_update rt deps cfg set clear).1
  unfolding apply_update
  apply_update-IsAllowed cfg req set clear put decoded small =
      ground (arith, all-IsStorable cfg (keys set), all-IsStorable cfg clear)

  put_secrets-IsAllowed :
      (cfg : Config rt) (req : Request)
      → deps.config ≡ some cfg
      → req.method ≡ "PUT"
      → All (IsAllowed cfg req) (put_secrets rt deps req.body).1
  unfolding put_secrets
  put_secrets-IsAllowed cfg req c put = elim (Option-cases (deps.decode_update req.body)) [
    | inl bad ↦ ground arith
    | inr ((set, clear), good) ↦ ground (arith, apply_update-IsAllowed cfg req set clear)
  ]

  -- Under an active configuration, the secrets handler changes secrets only on a PUT request, as its
  -- body asks and at most 16 of them, and stores and clears only names that the configuration refers
  -- to or that begin with CPA_QUOTA_ALERT_; it saves no state and sends nothing.
  pub secrets-IsAllowed :
      (cfg : Config rt) (req : Request)
      → deps.config ≡ some cfg
      → All (IsAllowed cfg req) (secrets rt deps req).1
  unfolding secrets
  secrets-IsAllowed cfg req c =
      ground (arith, put_secrets-IsAllowed cfg req, eq_iff req.method "PUT")
