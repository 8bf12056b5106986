-- ===== src/Quota/Aggregate.antt =====
-- `AggregateObservations` and `Aggregate` of internal/quota/types.go.
pub mod Counts
use cpa_quota_alert_plugin.Base.{
  ℕ, suc, zero, ◌+◌, String, Bool, true, false, ◌||◌, ◌&&◌, Option, none, some, List, [], ◌∷◌, ◌==◌,
  if◌then◌else◌, eqb, Result, ok, err, ◌>>=◌,
}
use cpa_quota_alert_plugin.Base.Dict.{Dict, lookup, insert, bump}
use cpa_quota_alert_plugin.Runtime.{Runtime}
use cpa_quota_alert_plugin.Quota.Types.{
  AccountInput, AccountObservation, is_no_observation, PlanBreakdown, Snapshot, Rules, QuotaError,
  plan_changed, not_computable,
}
use cpa_quota_alert_plugin.Quota.Wham.{WhamError, round_4}
use cpa_quota_alert_plugin.Quota.Observe.{observe_account}

-- The class into which the loop sorts an observation, by the first of its tests that passes.
pub data Kind : Type 0 where
  unknown : String → Kind
  unresolved : String → Kind
  terminal : String → Kind
  success : Kind
  ignored : Kind

abbrev pub is_nil {ℓ} : {A : Type ℓ} → List A → Bool
is_nil [] = true
is_nil (x ∷ xs) = false

module _ (rt : Runtime) where
  open rt use {Float, literal, add}

  unfoldable pub kind : AccountObservation rt → Kind
  kind obs =
      if obs.unknown_plan == ""
      then (if obs.unresolved_code == ""
          then (if obs.terminal_zero
              then terminal (if obs.terminal_code == "" then "terminal" else obs.terminal_code)
              else if obs.success
              then success
              else ignored)
          else unresolved obs.unresolved_code)
      else unknown obs.unknown_plan

  -- The variables of the loop: the snapshot and the two counters.
  pub record Tally : Type 0 where
    pub snap : Snapshot rt
    pub successes : ℕ
    pub terminal_zeros : ℕ

  abbrev float_at : String → Dict Float → Float
  float_at k m = elim (lookup k m) [ none ↦ literal 0 0 | some x ↦ x ]

  abbrev no_breakdown : PlanBreakdown rt
  no_breakdown = record { accounts = 0; terminal_zero_count = 0; remaining = literal 0 0 }

  abbrev breakdown_at : String → Dict (PlanBreakdown rt) → PlanBreakdown rt
  breakdown_at k m = elim (lookup k m) [ none ↦ no_breakdown | some b ↦ b ]

  unfoldable pub count_success : Tally → AccountObservation rt → Tally
  count_success t obs =
      let s = t.snap in
      let b = breakdown_at obs.canonical_plan s.plans in
      record t {
        snap = record s {
          total = add s.total obs.weighted_remaining;
          total_by_window =
              insert obs.window (add (float_at obs.window s.total_by_window) obs.weighted_remaining)
                s.total_by_window;
          plans =
              insert obs.canonical_plan
                (record b {
                  accounts = b.accounts + 1;
                  remaining = add b.remaining obs.weighted_remaining;
                })
                s.plans;
        };
        successes = t.successes + 1;
      }

  count_kind : Tally → AccountObservation rt → Kind → Tally
  unfolding count_success
  count_kind t obs (unknown p) =
      let s = t.snap in
      record t { snap = record s { unknown_plan_counts = bump p s.unknown_plan_counts } }
  count_kind t obs (unresolved c) =
      let s = t.snap in
      record t {
        snap = record s {
          unresolved_code_counts = bump c s.unresolved_code_counts;
          partial = true;
        };
      }
  count_kind t obs (terminal c) =
      let s = t.snap in
      record t {
        snap = record s { terminal_error_counts = bump c s.terminal_error_counts };
        terminal_zeros = t.terminal_zeros + 1;
      }
  count_kind t obs success = count_success t obs
  count_kind t obs ignored = t

  -- The body of the loop.
  unfoldable pub tally_step : Tally → AccountObservation rt → Tally
  unfolding count_kind kind
  tally_step t obs = count_kind t obs (kind obs)

  unfoldable pub tally : Tally → List (AccountObservation rt) → Tally
  unfolding tally_step
  tally t [] = t
  tally t (obs ∷ rest) = tally (tally_step t obs) rest

  abbrev pub empty_tally : ℕ → Tally
  empty_tally now = record {
    snap = record {
      timestamp = now;
      total = literal 0 0;
      total_by_window = [];
      plans = [];
      terminal_error_counts = [];
      unresolved_code_counts = [];
      unknown_plan_counts = [];
      partial = false;
    };
    successes = 0;
    terminal_zeros = 0;
  }

  round_windows : Dict Float → Dict Float
  round_windows [] = []
  round_windows ((k, x) ∷ m) = (k, round_4 rt x) ∷ round_windows m

  round_plans : Dict (PlanBreakdown rt) → Dict (PlanBreakdown rt)
  round_plans [] = []
  round_plans ((k, b) ∷ m) = (k, record b { remaining = round_4 rt b.remaining }) ∷ round_plans m

  -- The two loops after the first, and the rounding of the total.
  unfoldable pub rounded : Snapshot rt → Snapshot rt
  unfolding round_windows round_plans
  rounded s = record s {
    total_by_window = round_windows s.total_by_window;
    plans = round_plans s.plans;
    total = round_4 rt s.total;
  }

  verdict : Tally → Option QuotaError
  verdict t =
      if is_nil t.snap.unknown_plan_counts
      then (if eqb t.successes 0 && eqb t.terminal_zeros 0 then some not_computable else none)
      else some (plan_changed t.snap.unknown_plan_counts)

  unfoldable pub aggregate_observations :
      List (AccountObservation rt) → ℕ → Snapshot rt × Option QuotaError
  unfolding tally rounded verdict
  aggregate_observations observations now =
      let t = tally (empty_tally now) observations in (rounded t.snap, verdict t)

  abbrev is_error {ℓ} : {E : Type ℓ} → Option E → Bool
  is_error none = false
  is_error (some e) = true

  -- The loop of `Aggregate`.
  unfoldable pub collect :
      List (AccountInput rt) → Rules rt → Result (Option WhamError) (List (AccountObservation rt))
  unfolding observe_account is_no_observation
  collect [] rules = ok []
  collect (input ∷ rest) rules =
      let more = collect rest rules in
      let (obs, e) = observe_account rt input rules in
      if is_error e && obs.unresolved_code == ""
      then err e
      else (more >>= λ l. ok (if is_no_observation rt obs then l else obs ∷ l))

  unfoldable pub aggregate :
      List (AccountInput rt)
      → Rules rt
      → ℕ
      → Result (Option WhamError) (Snapshot rt × Option QuotaError)
  unfolding collect aggregate_observations
  aggregate inputs rules now =
      collect inputs rules >>= λ observations. ok (aggregate_observations observations now)
