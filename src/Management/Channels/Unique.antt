-- ===== src/Management/Channels/Unique.antt =====
-- The channels that `configuredChannels` lets through.
use cpa_quota_alert_plugin.Base.{
  ℕ, ◌≤◌, ◌+◌, String, true, false, List, [], ◌∷◌, ◌==◌, ◌≡◌, refl, ap, arith, if◌then◌else◌,
  contains, All, count, length, eq_iff, trim_space, to_lower,
}
use cpa_quota_alert_plugin.Runtime.{Runtime}
use cpa_quota_alert_plugin.Management.Types.{Channel}
use cpa_quota_alert_plugin.Management.Channels.{configure}

module _ (rt : Runtime) where
  -- The channels by that name.
  abbrev pub named : String → List Channel → ℕ
  named name channels = count (λ (c : Channel). c.name == name) channels

  named-configure :
      (name : String) (seen : List String) (channels : List Channel)
      → named name (configure rt seen channels) ≤ (if contains seen name then 0 else 1)
  unfolding configure
  named-configure name seen [] = ground arith
  named-configure name seen (c ∷ more) =
      let n = trim_space (to_lower rt.lower c.name) in
      ground
        (arith, named-configure name seen more, named-configure name (n ∷ seen) more, eq_iff n name)

  apart : (name : String) → (name == "smtp") ≡ true → (name == "webhook") ≡ false
  apart name h = ap (λ m. m == "webhook") ((eq_iff name "smtp").0 h)

  length-configure :
      (seen : List String) (channels : List Channel)
      → length (configure rt seen channels)
        ≡ named "smtp" (configure rt seen channels) + named "webhook" (configure rt seen channels)
  unfolding configure
  length-configure seen [] = refl
  length-configure seen (c ∷ more) =
      let n = trim_space (to_lower rt.lower c.name) in
      ground (arith, length-configure seen more, length-configure (n ∷ seen) more, apart n)

  senders :
      (seen : List String) (channels : List Channel)
      → All (λ c. c.has_sender ≡ true) (configure rt seen channels)
  unfolding configure
  senders seen [] = tt
  senders seen (c ∷ more) =
      let n = trim_space (to_lower rt.lower c.name) in
      ground (arith, senders seen more, senders (n ∷ seen) more)

  -- Whatever channels the factory gives, those in use are at most one by the name "smtp" and one by the
  -- name "webhook", and no other, and each has a sender.
  pub configure-IsUnique :
      (channels : List Channel)
      → let l = configure rt [] channels in
        (named "smtp" l ≤ 1)
        × (named "webhook" l ≤ 1)
        × (length l ≡ named "smtp" l + named "webhook" l)
        × All (λ c. c.has_sender ≡ true) l
  configure-IsUnique channels = (
    named-configure "smtp" [] channels,
    named-configure "webhook" [] channels,
    length-configure [] channels,
    senders [] channels,
  )
