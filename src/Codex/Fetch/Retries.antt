-- ===== src/Codex/Fetch/Retries.antt =====
-- How often a request is tried, and which attempt decides.
use cpa_quota_alert_plugin.Base.{
  ℕ, zero, suc, ◌+◌, ◌<◌, pos, increment-pos, max_int, ltb, String, Bool, true, false, ◌&&◌, ◌≡◌,
  refl, ◌⊎◌, inl, inr, arith, if◌then◌else◌, Result,
}
use cpa_quota_alert_plugin.Runtime.{Runtime}
use cpa_quota_alert_plugin.Codex.Types.{Outcome, Settings}
use cpa_quota_alert_plugin.Codex.Fetch.{result_of, is_retryable, fetch_loop, attempts, fetch_quota}

module _ (rt : Runtime) (cfg : Settings rt) (request : ℕ → Outcome) where
  -- `calls` requests from the attempt `first` on, with `left` allowed: all but the last could be retried,
  -- the last gives the result, and it is the last allowed or cannot be retried.
  pub record Decides (left first : ℕ) (r : Result String String × ℕ) : Type 0 where
    pub last : ℕ
    pub calls : r.1 ≡ suc last
    pub bounded : last < left
    pub retried : (i : ℕ) → i < last → is_retryable rt (request (first + i)) ≡ true
    pub decided : r.0 ≡ result_of rt cfg (request (first + last))
    pub stopped : (suc last ≡ left) ⊎ (is_retryable rt (request (first + last)) ≡ false)

  Decides-stop :
      (left first : ℕ)
      → (1 ≡ suc left) ⊎ (is_retryable rt (request first) ≡ false)
      → Decides (suc left) first (result_of rt cfg (request first), 1)
  Decides-stop left first h =
      let same : first + 0 ≡ first = omega arith in
      record {
        last = 0;
        calls = refl;
        bounded = omega arith;
        retried = λ i lt. absurd (omega arith);
        decided = rw same;
        stopped = rw same h;
      }

  Decides-retry :
      (left first : ℕ) (r : Result String String × ℕ)
      → is_retryable rt (request first) ≡ true
      → Decides left (suc first) r
      → Decides (suc left) first (r.0, suc r.1)
  Decides-retry left first r h d =
      let same : first + suc d.last ≡ suc first + d.last = omega arith in
      record {
        last = suc d.last;
        calls = rw d.calls;
        bounded = omega (arith, d.bounded);
        retried = earlier;
        decided = rw same d.decided;
        stopped = rw same (ground (arith, d.stopped));
      }
    where
      earlier : (i : ℕ) → i < suc d.last → is_retryable rt (request (first + i)) ≡ true
      earlier zero lt = let same : first + 0 ≡ first = omega arith in rw same h
      earlier (suc i) lt =
          let same : first + suc i ≡ suc first + i = omega arith in
          rw same (d.retried i (omega arith))

  Decides-if :
      (left first : ℕ) (b : Bool) (x y : Result String String × ℕ)
      → (b ≡ true → Decides left first x)
      → (b ≡ false → Decides left first y)
      → Decides left first (if b then x else y)
  Decides-if left first true x y f g = f refl
  Decides-if left first false x y f g = g refl

  fetch_loop-Decides :
      (left first : ℕ) (code : String)
      → Decides (suc left) first (fetch_loop rt cfg request (suc left) first code)
  unfolding fetch_loop
  fetch_loop-Decides zero first code =
      Decides-if 1 first (is_retryable rt (request first) && ltb 0 0) _ _
        (λ b. absurd (ground arith)) (λ _. Decides-stop zero first (inl refl))
  fetch_loop-Decides (suc left) first code =
      Decides-if (suc (suc left)) first (is_retryable rt (request first) && ltb 0 (suc left)) _ _
        (λ b.
          Decides-retry (suc left) first _ (ground arith) (fetch_loop-Decides left (suc first) _))
        (λ b. Decides-stop (suc left) first (inr (ground arith)))

  -- With `n` retries configured, fewer than 2 ^ 63 - 1, a quota request is sent at least once and at most
  -- `n + 1` times: every attempt but the last ended in an error that may be retried, the last one alone
  -- gives the result, and it is the last allowed or ended in something that is not retried.
  pub fetch_quota-Decides :
      (n : ℕ)
      → cfg.retry_attempts ≡ pos n
      → n < max_int
      → Decides (suc n) 0 (fetch_quota rt cfg request)
  unfolding fetch_quota attempts
  fetch_quota-Decides n e small =
      let count : attempts rt cfg ≡ suc n =
        rw (e, increment-pos n small, attempts) (ground arith) in
      rw count (fetch_loop-Decides n 0 "")
