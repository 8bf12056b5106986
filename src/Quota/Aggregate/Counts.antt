-- ===== src/Quota/Aggregate/Counts.antt =====
-- What the snapshot of the pool says of the observations.
use cpa_quota_alert_plugin.Base.{
  ℕ, suc, ◌+◌, String, Bool, true, false, not, ◌&&◌, ◌||◌, none, some, List, [], ◌∷◌, ◌==◌, ◌≡◌,
  refl, ◌∙◌, arith, if◌then◌else◌, count, any, ap, ◌<◌,
}
use cpa_quota_alert_plugin.Base.Dict.{Dict, bump, count_at, count_at-bump, lookup}
use cpa_quota_alert_plugin.Runtime.{Runtime}
use cpa_quota_alert_plugin.Quota.Types.{AccountObservation, plan_changed, not_computable}
use cpa_quota_alert_plugin.Quota.Wham.{round_4}
use cpa_quota_alert_plugin.Quota.Aggregate.{
  Kind, unknown, unresolved, terminal, success, kind, Tally, count_success, count_kind, tally_step,
  tally, empty_tally, rounded, verdict, aggregate_observations, is_nil,
}

abbrev pub is_unknown : String → Kind → Bool
is_unknown p (unknown q) = q == p
is_unknown p _ = false

abbrev pub is_unresolved : String → Kind → Bool
is_unresolved c (unresolved d) = d == c
is_unresolved c _ = false

abbrev pub is_terminal : String → Kind → Bool
is_terminal c (terminal d) = d == c
is_terminal c _ = false

abbrev pub any_unknown : Kind → Bool
any_unknown (unknown _) = true
any_unknown _ = false

abbrev pub any_unresolved : Kind → Bool
any_unresolved (unresolved _) = true
any_unresolved _ = false

-- A success or a terminal error, which make the total computable.
abbrev pub is_computable : Kind → Bool
is_computable (terminal _) = true
is_computable success = true
is_computable _ = false

is_nil-bump : (k : String) (m : Dict ℕ) → is_nil (bump k m) ≡ false
unfolding bump
is_nil-bump k [] = refl
is_nil-bump k ((j, n) ∷ m) = ground arith

module _ (rt : Runtime) where
  -- The sums of the weighted remainders, added in the order of the observations.
  abbrev pub sum_success : rt.Float → List (AccountObservation rt) → rt.Float
  sum_success acc [] = acc
  sum_success acc (obs ∷ rest) = elim (kind rt obs) [
    | success ↦ sum_success (rt.add acc obs.weighted_remaining) rest
    | _ ↦ sum_success acc rest
  ]

  module _ (c : String) (t : Tally rt) (obs : AccountObservation rt) where
    unresolved-count_kind :
        (k : Kind)
        → count_at c (count_kind rt t obs k).snap.unresolved_code_counts ≡ (
            if is_unresolved c k
            then suc (count_at c t.snap.unresolved_code_counts)
            else count_at c t.snap.unresolved_code_counts)
    unfolding count_kind
    unresolved-count_kind (unresolved d) = count_at-bump d c t.snap.unresolved_code_counts
    unresolved-count_kind _ = refl

    unknown-count_kind :
        (k : Kind)
        → count_at c (count_kind rt t obs k).snap.unknown_plan_counts ≡ (
            if is_unknown c k
            then suc (count_at c t.snap.unknown_plan_counts)
            else count_at c t.snap.unknown_plan_counts)
    unfolding count_kind
    unknown-count_kind (unknown d) = count_at-bump d c t.snap.unknown_plan_counts
    unknown-count_kind _ = refl

    terminal-count_kind :
        (k : Kind)
        → count_at c (count_kind rt t obs k).snap.terminal_error_counts ≡ (
            if is_terminal c k
            then suc (count_at c t.snap.terminal_error_counts)
            else count_at c t.snap.terminal_error_counts)
    unfolding count_kind
    terminal-count_kind (terminal d) = count_at-bump d c t.snap.terminal_error_counts
    terminal-count_kind _ = refl

  module _ (t : Tally rt) (obs : AccountObservation rt) where
    nil-count_kind :
        (k : Kind)
        → is_nil (count_kind rt t obs k).snap.unknown_plan_counts
          ≡ (is_nil t.snap.unknown_plan_counts && not (any_unknown k))
    unfolding count_kind
    nil-count_kind (unknown d) = ground (arith, is_nil-bump d t.snap.unknown_plan_counts)
    nil-count_kind (unresolved d) = ground arith
    nil-count_kind _ = ground arith

    partial-count_kind :
        (k : Kind) → (count_kind rt t obs k).snap.partial ≡ (t.snap.partial || any_unresolved k)
    unfolding count_kind
    partial-count_kind (unresolved d) = ground arith
    partial-count_kind (unknown d) = ground arith
    partial-count_kind _ = ground arith

    computable-count_kind :
        (k : Kind)
        → (count_kind rt t obs k).successes + (count_kind rt t obs k).terminal_zeros
          ≡ t.successes + t.terminal_zeros + (if is_computable k then 1 else 0)
    unfolding count_kind
    computable-count_kind (terminal d) = omega arith
    computable-count_kind success = omega arith
    computable-count_kind _ = omega arith

  tally_counts :
      (c : String) (t : Tally rt) (l : List (AccountObservation rt))
      → (count_at c (tally rt t l).snap.unresolved_code_counts
          ≡ count_at c t.snap.unresolved_code_counts
            + count (λ (o : AccountObservation rt). is_unresolved c (kind rt o)) l)
        × (count_at c (tally rt t l).snap.unknown_plan_counts
            ≡ count_at c t.snap.unknown_plan_counts
              + count (λ (o : AccountObservation rt). is_unknown c (kind rt o)) l)
        × (count_at c (tally rt t l).snap.terminal_error_counts
            ≡ count_at c t.snap.terminal_error_counts
              + count (λ (o : AccountObservation rt). is_terminal c (kind rt o)) l)
  unfolding tally
  tally_counts c t [] = omega arith
  tally_counts c t (obs ∷ l) =
      let (a, b, d) = tally_counts c (tally_step rt t obs) l in
      unfold tally_step in
      (
        a ∙ rw (unresolved-count_kind c t obs (kind rt obs)) (ground arith),
        b ∙ rw (unknown-count_kind c t obs (kind rt obs)) (ground arith),
        d ∙ rw (terminal-count_kind c t obs (kind rt obs)) (ground arith),
      )

  tally_flags :
      (t : Tally rt) (l : List (AccountObservation rt))
      → (is_nil (tally rt t l).snap.unknown_plan_counts
          ≡ (is_nil t.snap.unknown_plan_counts && not (any (λ o. any_unknown (kind rt o)) l)))
        × ((tally rt t l).snap.partial
            ≡ (t.snap.partial || any (λ o. any_unresolved (kind rt o)) l))
        × ((tally rt t l).successes + (tally rt t l).terminal_zeros
            ≡ t.successes
              + t.terminal_zeros
              + count (λ (o : AccountObservation rt). is_computable (kind rt o)) l)
  unfolding tally
  tally_flags t [] = (ground arith, ground arith, omega arith)
  tally_flags t (obs ∷ l) =
      let (a, b, c) = tally_flags (tally_step rt t obs) l in
      unfold tally_step in
      (
        a ∙ rw (nil-count_kind t obs (kind rt obs)) (ground arith),
        b ∙ rw (partial-count_kind t obs (kind rt obs)) (ground arith),
        c ∙ rw (computable-count_kind t obs (kind rt obs)) (ground arith),
      )

  total-count_kind :
      (t : Tally rt) (obs : AccountObservation rt) (k : Kind)
      → (count_kind rt t obs k).snap.total
        ≡ (elim k [ success ↦ rt.add t.snap.total obs.weighted_remaining | _ ↦ t.snap.total ])
  unfolding count_kind count_success
  total-count_kind t obs success = refl
  total-count_kind t obs _ = refl

  total-tally :
      (t : Tally rt) (l : List (AccountObservation rt))
      → (tally rt t l).snap.total ≡ sum_success t.snap.total l
  unfolding tally
  total-tally t [] = refl
  total-tally t (obs ∷ l) =
      total-tally (tally_step rt t obs) l
      ∙ (unfold tally_step in rw (total-count_kind t obs (kind rt obs)) (by_kind (kind rt obs)))
    where
      by_kind :
          (k : Kind)
          → sum_success
              (elim k [ success ↦ rt.add t.snap.total obs.weighted_remaining | _ ↦ t.snap.total ])
              l
            ≡ elim k [
              | success ↦ sum_success (rt.add t.snap.total obs.weighted_remaining) l
              | _ ↦ sum_success t.snap.total l
            ]
      by_kind success = refl
      by_kind _ = refl

  -- The three maps of counters are histograms: each holds under a code or a plan how many observations
  -- the loop sorts there.
  pub aggregate_observations-counts :
      (l : List (AccountObservation rt)) (now : ℕ) (c : String)
      → let snap = (aggregate_observations rt l now).0 in
        (count_at c snap.unresolved_code_counts ≡ count (λ o. is_unresolved c (kind rt o)) l)
        × (count_at c snap.unknown_plan_counts ≡ count (λ o. is_unknown c (kind rt o)) l)
        × (count_at c snap.terminal_error_counts ≡ count (λ o. is_terminal c (kind rt o)) l)
  unfolding aggregate_observations rounded lookup
  aggregate_observations-counts l now c = omega (arith, tally_counts c (empty_tally rt now) l)

  -- The error is a plan change with the counts of the unknown plans exactly when an unknown plan was
  -- observed; otherwise it is "not computable" exactly when there was neither a success nor a terminal
  -- error, and there is none in every other case.
  pub aggregate_observations-error :
      (l : List (AccountObservation rt)) (now : ℕ)
      → let (snap, error) = aggregate_observations rt l now in
        error ≡ (
          if any (λ o. any_unknown (kind rt o)) l
          then some (plan_changed snap.unknown_plan_counts)
          else if any (λ o. is_computable (kind rt o)) l
          then none
          else some not_computable)
  unfolding aggregate_observations rounded verdict
  aggregate_observations-error l now =
      ground (arith, tally_flags (empty_tally rt now) l, count_zero l)
    where
      count_zero :
          (l : List (AccountObservation rt))
          → (if any (λ o. is_computable (kind rt o)) l
              then 0 < count (λ (o : AccountObservation rt). is_computable (kind rt o)) l
              else (count (λ (o : AccountObservation rt). is_computable (kind rt o)) l ≡ 0))
      count_zero [] = refl
      count_zero (o ∷ l) = ground (arith, count_zero l)

  -- The snapshot is partial exactly when an unresolved observation was counted, and its total is the
  -- rounded sum of the weighted remainders of the successes, added in their order from 0.
  pub aggregate_observations-total :
      (l : List (AccountObservation rt)) (now : ℕ)
      → let snap = (aggregate_observations rt l now).0 in
        (snap.partial ≡ any (λ o. any_unresolved (kind rt o)) l)
        × (snap.total ≡ round_4 rt (sum_success (rt.literal 0 0) l))
  unfolding aggregate_observations rounded
  aggregate_observations-total l now = (
    ground (arith, tally_flags (empty_tally rt now) l),
    ap (round_4 rt) (total-tally (empty_tally rt now) l),
  )
