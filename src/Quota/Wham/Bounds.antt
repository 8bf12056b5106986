-- ===== src/Quota/Wham/Bounds.antt =====
-- The windows of an accepted report.
use cpa_quota_alert_plugin.Base.{
  >>=-eq-ok, ℤ, String, false, Option, none, some, List, [], ◌∷◌, ◌≡◌, ◌⊎◌, inl, inr, arith, eq_iff,
  Result, ok, err, ◌>>=◌, All, Option-cases,
}
use cpa_quota_alert_plugin.Base.Dict.{Dict, insert, All-insert}
use cpa_quota_alert_plugin.Runtime.{Runtime, Fields}
use cpa_quota_alert_plugin.Quota.Types.{Window, AccountQuota, window_5h, window_7d}
use cpa_quota_alert_plugin.Quota.Wham.{
  WhamError, round_4, named_by_seconds, get_duration_seconds, window_name, used_or_exhausted,
  window_of, parse_window, duration_keys, in_named, get_object, parse_named_window,
  parse_named_windows, or_whole, quota_of, parse_wham, named_windows, get_float, or_raw, get_string,
}

module _ (rt : Runtime) where
  -- The used share is a number of 0..100 per cent, the rest is what remains of 100, and the window is
  -- one of the two that the plan rules know.
  pub record InRange (w : Window rt) : Type 0 where
    pub number : (rt.is_nan w.used_percent ≡ false) × (rt.is_inf w.used_percent ≡ false)
    pub bounds :
        (rt.lt_float w.used_percent (rt.literal 0 0) ≡ false)
        × (rt.lt_float (rt.literal 100 0) w.used_percent ≡ false)
    pub remaining : w.remaining_percent ≡ round_4 rt (rt.sub (rt.literal 100 0) w.used_percent)
    pub named : (w.name ≡ window_5h) ⊎ (w.name ≡ window_7d)

  abbrev AllInRange : Dict (Window rt) → Type 0
  AllInRange = All (λ e. InRange e.1)

  named_by_seconds-named :
      (fallback : String) (seconds : Option ℤ) (name : String)
      → named_by_seconds rt fallback seconds ≡ ok name
      → (name ≡ window_5h) ⊎ (name ≡ window_7d)
  unfolding named_by_seconds
  named_by_seconds-named fallback (some seconds) name h = ground arith
  named_by_seconds-named fallback none name h =
      ground (arith, eq_iff fallback window_5h, eq_iff fallback window_7d)

  window_name-named :
      (raw : Fields rt.Float) (fallback name : String)
      → window_name rt raw fallback ≡ ok name
      → (name ≡ window_5h) ⊎ (name ≡ window_7d)
  unfolding window_name
  window_name-named raw fallback name h =
      let (seconds, _, e) =
        >>=-eq-ok (get_duration_seconds rt raw duration_keys) (λ s. named_by_seconds rt fallback s)
          h in
      named_by_seconds-named fallback seconds name e

  window_of-InRange :
      (raw : Fields rt.Float) (name : String) (used : rt.Float) (w : Window rt)
      → (name ≡ window_5h) ⊎ (name ≡ window_7d)
      → window_of rt raw name used ≡ ok w
      → InRange w
  unfolding window_of
  window_of-InRange raw name used w n h = ground arith

  parse_window-InRange :
      (raw : Fields rt.Float) (fallback : String) (w : Window rt)
      → parse_window rt raw fallback ≡ ok w
      → InRange w
  unfolding parse_window
  parse_window-InRange raw fallback w h =
      let used = get_float rt raw ("used_percent" ∷ "usedPercent" ∷ []) in
      let (name, n, h') =
        >>=-eq-ok (window_name rt raw fallback)
          (λ n. used_or_exhausted rt raw used >>= λ u. window_of rt raw n u) h in
      let (u, _, h'') =
        >>=-eq-ok (used_or_exhausted rt raw used) (λ u. window_of rt raw name u) h' in
      window_of-InRange raw name u w (window_name-named raw fallback name n) h''

  in_named-ok :
      (name : String) (r : Result WhamError (Window rt)) (w : Window rt)
      → in_named rt name r ≡ ok w
      → r ≡ ok w
  unfolding in_named
  in_named-ok name (ok v) w h = h
  in_named-ok name (err e) w h = cc

  parse_named_window-InRange :
      (limit : Fields rt.Float) (name fallback : String) (ws ws' : Dict (Window rt))
      → AllInRange ws
      → parse_named_window rt limit name fallback ws ≡ ok ws'
      → AllInRange ws'
  parse_named_window-InRange limit name fallback ws ws' all h =
      go (get_object rt limit (name ∷ [])) (unfold parse_named_window in h)
    where
      go :
          (obj : Option (Fields rt.Float))
          → elim obj [
            | none ↦ ok ws
            | some o ↦
                (in_named rt name (parse_window rt o fallback) >>= λ window.
                ok (insert window.name window ws))
          ]
            ≡ ok ws'
          → AllInRange ws'
      go none e = let same : ws ≡ ws' = cc in rw (← same) all
      go (some o) e =
          let (w, p, q) =
            >>=-eq-ok (in_named rt name (parse_window rt o fallback))
              (λ window. ok (insert window.name window ws)) e in
          let same : insert w.name w ws ≡ ws' = cc q in
          rw (← same) (
            All-insert InRange w.name w ws all
              (parse_window-InRange o fallback w (in_named-ok name _ w p)))

  parse_named_windows-InRange :
      (limit : Fields rt.Float) (names : List (String × String)) (ws ws' : Dict (Window rt))
      → AllInRange ws
      → parse_named_windows rt limit names ws ≡ ok ws'
      → AllInRange ws'
  unfolding parse_named_windows
  parse_named_windows-InRange limit [] ws ws' all h = let same : ws ≡ ws' = cc in rw (← same) all
  parse_named_windows-InRange limit ((name, fallback) ∷ more) ws ws' all h =
      let (ws'', e, h') =
        >>=-eq-ok (parse_named_window rt limit name fallback ws) (parse_named_windows rt limit more)
          h in
      parse_named_windows-InRange limit more ws'' ws'
        (parse_named_window-InRange limit name fallback ws ws'' all e) h'

  or_whole-InRange :
      (limit : Fields rt.Float) (ws ws' : Dict (Window rt))
      → AllInRange ws
      → or_whole rt limit ws ≡ ok ws'
      → AllInRange ws'
  unfolding or_whole
  or_whole-InRange limit [] ws' all h =
      let (w, p, q) =
        >>=-eq-ok (parse_window rt limit "") (λ window. ok ((window.name, window) ∷ [])) h in
      let same : (w.name, w) ∷ [] ≡ ws' = cc q in
      rw (← same) (parse_window-InRange limit "" w p, tt)
  or_whole-InRange limit (e ∷ ws) ws' all h = let same : e ∷ ws ≡ ws' = cc in rw (← same) all

  quota_of-InRange :
      (raw : Fields rt.Float) (q : AccountQuota rt) → quota_of rt raw ≡ ok q → AllInRange q.windows
  unfolding quota_of
  quota_of-InRange raw q h =
      let limit = or_raw rt raw (get_object rt raw ("rate_limit" ∷ "rateLimit" ∷ [])) in
      let plan = get_string rt raw ("plan_type" ∷ "planType" ∷ []) in
      let finish = λ (ws : Dict (Window rt)).
        let r : Result WhamError (AccountQuota rt) =
          ok (record { plan_type = plan; windows = ws }) in
        r in
      let (named, p, h') =
        >>=-eq-ok (parse_named_windows rt limit named_windows [])
          (λ n. or_whole rt limit n >>= finish) h in
      let (ws, p', h'') = >>=-eq-ok (or_whole rt limit named) finish h' in
      let same : q.windows ≡ ws = ground arith in
      rw same (
        or_whole-InRange limit named ws
          (parse_named_windows-InRange limit named_windows [] named tt p) p')

  -- Every window of an accepted report has a used share that is a number of 0 to 100 per cent, what
  -- remains is 100 less that share, rounded, and it is a 5-hour or a 7-day window.
  pub parse_wham-InRange :
      (body : String) (q : AccountQuota rt)
      → parse_wham rt body ≡ ok q
      → All (λ e. InRange e.1) q.windows
  unfolding parse_wham
  parse_wham-InRange body q h = elim (Option-cases (rt.unmarshal_object body)) [
    | inl bad ↦ absurd (ground arith)
    | inr (raw, good) ↦ quota_of-InRange raw q (ground arith)
  ]
