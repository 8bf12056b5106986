-- ===== src/Codex/Check/Selection.antt =====
-- Which accounts a check asks, and the counters of its discovery.
use cpa_quota_alert_plugin.Base.{
  String, ◌==◌, to_lower, trim_space, ◌+◌, Bool, not, ◌&&◌, ◌||◌, List, [], ◌∷◌, ◌≡◌, refl, arith,
  length, filter, count,
}
use cpa_quota_alert_plugin.Runtime.{Runtime}
use cpa_quota_alert_plugin.Codex.Types.{AuthEntry}
use cpa_quota_alert_plugin.Codex.Check.{is_codex, select_codex}

module _ (rt : Runtime) where
  -- Spells Codex, in any case and with white space around.
  abbrev pub is_named_codex : String → Bool
  is_named_codex name = to_lower rt.lower (trim_space name) == "codex"

  -- An enabled account of the Codex provider or type.
  abbrev pub is_candidate : AuthEntry → Bool
  is_candidate e = not e.disabled && (is_named_codex e.provider || is_named_codex e.type_name)

  selected-select_codex :
      (entries : List AuthEntry) → (select_codex rt entries).0 ≡ filter is_candidate entries
  unfolding select_codex is_codex
  selected-select_codex [] = refl
  selected-select_codex (e ∷ entries) = ground (arith, selected-select_codex entries)

  stats-select_codex :
      (entries : List AuthEntry)
      → let (selected, stats) = select_codex rt entries in
        (stats.selected ≡ length selected)
        × (stats.disabled + stats.skipped + stats.selected ≡ length entries)
        × (stats.disabled ≡ count (λ (e : AuthEntry). e.disabled) entries)
        × (stats.unavailable ≡ count (λ (e : AuthEntry). is_candidate e && e.unavailable) entries)
  unfolding select_codex is_codex
  stats-select_codex [] = (refl, refl, refl, refl)
  stats-select_codex (e ∷ entries) = ground (arith, stats-select_codex entries)

  -- The selected accounts are the candidates themselves, unchanged and in the order of the host's list.
  -- Every account is counted once, as disabled, skipped or selected, and an unavailable candidate is
  -- selected all the same, and counted.
  pub select_codex-candidates :
      (entries : List AuthEntry)
      → let (selected, stats) = select_codex rt entries in
        (selected ≡ filter is_candidate entries)
        × (stats.selected ≡ length selected)
        × (stats.disabled + stats.skipped + stats.selected ≡ length entries)
        × (stats.disabled ≡ count (λ (e : AuthEntry). e.disabled) entries)
        × (stats.unavailable ≡ count (λ (e : AuthEntry). is_candidate e && e.unavailable) entries)
  select_codex-candidates entries =
      let (number, total, disabled, unavailable) = stats-select_codex entries in
      (selected-select_codex entries, number, total, disabled, unavailable)
