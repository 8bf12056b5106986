-- ===== src/Monitor/Evaluate/Failures.antt =====
-- A run of failed checks raises one data error, at the configured number of failures.
use native.Mathlib.Nat.{add-zero}
use cpa_quota_alert_plugin.Base.{
  ℕ, suc, ◌+◌, ◌≤◌, ◌<◌, pos, leb, leb_ℤ, increment, increment-pos, max_int, String, Bool, true,
  false, not, ◌&&◌, Option, none, some, List, [], ◌∷◌, ◌++◌, ◌==◌, ◌≡◌, refl, ◌∙◌, arith,
  if◌then◌else◌, All, length, count, ◌||◌, Bool-cases, inl, inr, ap,
}
use cpa_quota_alert_plugin.Runtime.{Runtime}
use cpa_quota_alert_plugin.Quota.Types.{Snapshot, plan_changed, not_computable}
use cpa_quota_alert_plugin.Monitor.Types.{
  event_data_error, CheckError, of_quota, of_text, Event, State, Input, append_event, new_event,
}
use cpa_quota_alert_plugin.Monitor.Evaluate.{
  mark_data_failure, note_snapshot, evaluate_snapshot, evaluate_input, evaluate, with_defaults,
}

module _ (rt : Runtime) where
  -- A check that gave no complete result and no proof of recovery, and that is no plan change.
  abbrev pub fails : Option CheckError → Option (Snapshot rt) → Input rt → Bool
  fails (some (of_quota (plan_changed _))) snap input = false
  fails (some (of_quota not_computable)) snap input = true
  fails (some (of_text _)) snap input = true
  fails none none input = false
  fails none (some snap) input =
      snap.partial && rt.lt_float snap.total (with_defaults rt input).recovery_threshold

  abbrev pub IsFailure : ℕ → Input rt × ℕ → Type 0
  IsFailure limit (input, now) =
      (fails input.error input.snapshot input ≡ true) × (input.failure_alert_count ≡ pos limit)

  -- The monitor after `n` failures in a row, with a data error raised at the `limit`-th.
  pub record Failed (limit n : ℕ) (s : State rt) : Type 0 where
    pub counted : s.consecutive_failures ≡ pos n
    pub active : s.error_active ≡ leb limit n

  abbrev pub data_errors : State rt → ℕ
  data_errors s = count (λ (e : Event rt). e.kind == event_data_error) s.pending_events

  -- `evaluate` on a failed check is `markDataFailure`.
  evaluate_failure :
      (s : State rt) (e : Option CheckError) (snap : Option (Snapshot rt)) (input : Input rt)
      (now : ℕ)
      → fails e snap input ≡ true
      → (code : String) × (evaluate_input rt s e snap (with_defaults rt input) now
          ≡ mark_data_failure rt s code (with_defaults rt input) now)
  unfolding evaluate_input evaluate_snapshot note_snapshot
  evaluate_failure s (some (of_quota (plan_changed _))) snap input now h = cc
  evaluate_failure s (some (of_quota not_computable)) snap input now h = (_, refl)
  evaluate_failure s (some (of_text t)) snap input now h = (_, refl)
  evaluate_failure s none none input now h = cc
  evaluate_failure s none (some snap) input now h = ("partial_unresolved", ground arith)

  count-concat :
      (xs : List (Event rt)) (e : Event rt)
      → e.kind ≡ event_data_error
      → count (λ (x : Event rt). x.kind == event_data_error) (xs ++ e ∷ [])
        ≡ suc (count (λ (x : Event rt). x.kind == event_data_error) xs)
  count-concat [] e h = rw h
  count-concat (x ∷ xs) e h = ground (arith, count-concat xs e h)

  abbrev alerts_now : State rt → Input rt → Bool
  alerts_now s input =
      leb_ℤ input.failure_alert_count (increment s.consecutive_failures) && not s.error_active

  module _ (s : State rt) (code : String) (input : Input rt) (now : ℕ) where
    consecutive_failures-mark :
        (mark_data_failure rt s code input now).consecutive_failures
        ≡ increment s.consecutive_failures
    unfolding mark_data_failure append_event
    consecutive_failures-mark = ground arith

    error_active-mark :
        (mark_data_failure rt s code input now).error_active
        ≡ (alerts_now s input || s.error_active)
    unfolding mark_data_failure append_event
    error_active-mark = ground arith

    data_errors-mark :
        data_errors (mark_data_failure rt s code input now)
        ≡ (if alerts_now s input then suc (data_errors s) else data_errors s)
    unfolding mark_data_failure append_event new_event
    data_errors-mark = elim (Bool-cases (alerts_now s input)) [
      | inl due ↦ rw due (count-concat s.pending_events _ refl)
      | inr quiet ↦ rw quiet
    ]

  failure_step :
      (limit n : ℕ) (s : State rt) (code : String) (input : Input rt) (now : ℕ)
      → input.failure_alert_count ≡ pos limit
      → n < max_int
      → Failed limit n s
      → let s' = mark_data_failure rt s code input now in
        Failed limit (suc n) s'
        × (data_errors s' + (if leb limit n then 1 else 0)
            ≡ data_errors s + (if leb limit (suc n) then 1 else 0))
  failure_step limit n s code input now l small h =
      let due : alerts_now s input ≡ (leb limit (suc n) && not (leb limit n)) =
        rw (l, h.counted, h.active, increment-pos n small) (ground arith) in
      (
        record {
          counted =
              consecutive_failures-mark s code input now
              ∙ (rw (h.counted, increment-pos n small) (ground arith));
          active = error_active-mark s code input now ∙ (rw (due, h.active) (ground arith));
        },
        rw (data_errors-mark s code input now, due) (ground arith),
      )

  failure_count-with_defaults :
      (limit : ℕ) (input : Input rt)
      → input.failure_alert_count ≡ pos limit
      → 0 < limit
      → (with_defaults rt input).failure_alert_count ≡ pos limit
  unfolding with_defaults
  failure_count-with_defaults limit input l h = rw l (ground arith)

  evaluate_failure_step :
      (limit n : ℕ) (s : State rt) (check : Input rt × ℕ)
      → 0 < limit
      → n < max_int
      → IsFailure limit check
      → Failed limit n s
      → let s' = evaluate rt s check.0 check.1 in
        Failed limit (suc n) s'
        × (data_errors s' + (if leb limit n then 1 else 0)
            ≡ data_errors s + (if leb limit (suc n) then 1 else 0))
  unfolding evaluate
  evaluate_failure_step limit n s (input, now) positive small (failed, l) h =
      let (code, e) = evaluate_failure s input.error input.snapshot input now failed in
      rw e (
        failure_step limit n s code (with_defaults rt input) now
          (failure_count-with_defaults limit input l positive) small h)

  -- The checks in turn.
  unfoldable pub evaluate_all : State rt → List (Input rt × ℕ) → State rt
  evaluate_all s [] = s
  evaluate_all s ((input, now) ∷ more) = evaluate_all (evaluate rt s input now) more

  evaluate_all-Failed :
      (limit n : ℕ) (s : State rt) (checks : List (Input rt × ℕ))
      → 0 < limit
      → n + length checks ≤ max_int
      → All (IsFailure limit) checks
      → Failed limit n s
      → let s' = evaluate_all s checks in
        Failed limit (n + length checks) s'
        × (data_errors s' + (if leb limit n then 1 else 0)
            ≡ data_errors s + (if leb limit (n + length checks) then 1 else 0))
  unfolding evaluate_all
  evaluate_all-Failed limit n s [] positive small _ h = rw add-zero (h, refl)
  evaluate_all-Failed limit n s (check ∷ more) positive small (failed, rest) h =
      let (h', d) = evaluate_failure_step limit n s check positive (omega arith) failed h in
      let (h'', d') = evaluate_all-Failed limit (suc n) _ more positive (omega arith) rest h' in
      let e : n + suc (length more) ≡ suc n + length more = omega arith in
      rw e (h'', omega (arith, d, d'))

  -- From a state with no failure counted, failed checks in a row, with one limit and fewer than 2 ^ 63,
  -- raise no data error below the limit and exactly one from the limit on, however many follow; the
  -- failures are counted and the error is active from the limit on.
  pub data_errors-evaluate_all :
      (limit : ℕ) (s : State rt) (checks : List (Input rt × ℕ))
      → 0 < limit
      → length checks ≤ max_int
      → s.consecutive_failures ≡ pos 0
      → s.error_active ≡ false
      → All (IsFailure limit) checks
      → let s' = evaluate_all s checks in
        (data_errors s' ≡ data_errors s + (if leb limit (length checks) then 1 else 0))
        × (s'.consecutive_failures ≡ pos (length checks))
        × (s'.error_active ≡ leb limit (length checks))
  data_errors-evaluate_all limit s checks positive small counted idle failed =
      let (h, d) =
        evaluate_all-Failed limit 0 s checks positive (omega arith) failed
          (record { counted = counted; active = rw idle (ground arith) }) in
      let e : 0 + length checks ≡ length checks = omega arith in
      (ground (arith, d), h.counted ∙ ap pos e, h.active ∙ ap (leb limit) e)
