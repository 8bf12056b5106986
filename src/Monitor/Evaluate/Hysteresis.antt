-- ===== src/Monitor/Evaluate/Hysteresis.antt =====
-- Which alerts the checks raise: low and recovery alternate.
use mathlib.Core.List.{append_assoc, append-nil}
use cpa_quota_alert_plugin.Base.{
  ℕ, increment, suc, ◌∙◌, ◌≤◌, ◌+◌, ◌≡◌, refl, Bool, true, false, Option, none, some, List, [], ◌∷◌,
  ◌++◌, ◌==◌, if◌then◌else◌, arith, String, length, length-append,
}
use cpa_quota_alert_plugin.Base.Dict.{Dict}
use cpa_quota_alert_plugin.Runtime.{Runtime, Fields}
use cpa_quota_alert_plugin.Quota.Types.{Snapshot, plan_changed, not_computable}
use cpa_quota_alert_plugin.Monitor.Types.{
  event_low, event_recovery, CheckError, of_quota, of_text, Event, State, Input, append_event,
  new_event,
}
use cpa_quota_alert_plugin.Monitor.Evaluate.{
  mark_data_failure, note_snapshot, evaluate_plan_changed, evaluate_total, evaluate_snapshot,
  evaluate_input, evaluate, with_defaults,
}

module _ (rt : Runtime) where
  -- Whether a low alert is open after the events, `none` where two low alerts stand with no recovery
  -- between them, or a recovery with no low alert before it.
  abbrev pub phase : Bool → List (Event rt) → Option Bool
  phase b [] = some b
  phase b (e ∷ es) =
      if e.kind == event_low
      then (if b then none else phase true es)
      else if e.kind == event_recovery
      then (if b then phase false es else none)
      else phase b es

  pub phase-append :
      (b c : Bool) (xs ys : List (Event rt)) → phase b xs ≡ some c → phase b (xs ++ ys) ≡ phase c ys
  phase-append b c [] ys h = ground arith
  phase-append b c (x ∷ xs) ys h =
      ground (arith, phase-append true c xs ys, phase-append false c xs ys)

  -- The second state has at most `n` more pending events, behind the old ones, and they lead from the
  -- one state's `low_active` to the other's.
  pub record Adds (n : ℕ) (s s' : State rt) : Type 0 where
    pub events : List (Event rt)
    pub pending : s'.pending_events ≡ s.pending_events ++ events
    pub alternates : phase s.low_active events ≡ some s'.low_active
    pub bounded : length events ≤ n

  Adds-same :
      {n : ℕ} {s s' : State rt}
      → s'.pending_events ≡ s.pending_events
      → s'.low_active ≡ s.low_active
      → Adds n s s'
  Adds-same {s} p l = record {
    events = [];
    pending = rw (p, append-nil);
    alternates = rw l;
    bounded = omega arith;
  }

  abbrev event : State rt → String → ℕ → List String → Fields rt.Float → Event rt
  event t kind now channels summary =
      new_event rt kind now (increment t.event_sequence) channels summary

  Adds-alert :
      {n : ℕ} {s : State rt} (t : State rt) (kind : String) (now : ℕ) (channels : List String)
      (summary : Fields rt.Float)
      → t.pending_events ≡ s.pending_events
      → (if kind == event_low
          then (if s.low_active then none else some true)
          else if kind == event_recovery
          then (if s.low_active then some false else none)
          else some s.low_active)
        ≡ some t.low_active
      → Adds (suc n) s (append_event rt t kind now channels summary)
  unfolding append_event new_event
  Adds-alert t kind now channels summary p l = record {
    events = event t kind now channels summary ∷ [];
    pending = rw p;
    alternates = l;
    bounded = omega arith;
  }

  Adds-trans : {m n : ℕ} {s t u : State rt} → Adds m s t → Adds n t u → Adds (m + n) s u
  Adds-trans {s} {t} a b = record {
    events = a.events ++ b.events;
    pending = b.pending ∙ (rw (a.pending) (append_assoc s.pending_events a.events b.events));
    alternates =
        phase-append s.low_active t.low_active a.events b.events a.alternates ∙ b.alternates;
    bounded = omega (arith, length-append a.events b.events, a.bounded, b.bounded);
  }

  weaken : {s t : State rt} → Adds 1 s t → Adds 2 s t
  weaken a = record {
    events = a.events;
    pending = a.pending;
    alternates = a.alternates;
    bounded = omega (arith, a.bounded);
  }

  Adds-if :
      {n : ℕ} {s : State rt} (b : Bool) {x y : State rt}
      → (b ≡ true → Adds n s x)
      → (b ≡ false → Adds n s y)
      → Adds n s (if b then x else y)
  Adds-if true f g = f refl
  Adds-if false f g = g refl

  Adds-opened :
      {s : State rt} (t : State rt) (now : ℕ) (channels : List String) (summary : Fields rt.Float)
      → t.pending_events ≡ s.pending_events
      → s.low_active ≡ false
      → t.low_active ≡ true
      → Adds 1 s (append_event rt t event_low now channels summary)
  Adds-opened t now channels summary p closed opened =
      Adds-alert t event_low now channels summary p (rw (closed, opened))

  Adds-closed :
      {s : State rt} (t : State rt) (now : ℕ) (channels : List String) (summary : Fields rt.Float)
      → t.pending_events ≡ s.pending_events
      → s.low_active ≡ true
      → t.low_active ≡ false
      → Adds 1 s (append_event rt t event_recovery now channels summary)
  Adds-closed t now channels summary p opened closed =
      Adds-alert t event_recovery now channels summary p (rw (closed, opened))

  ruleset adds_rules = (Adds-if, Adds-alert, Adds-same)

  mark_data_failure-Adds :
      (s : State rt) (code : String) (input : Input rt) (now : ℕ)
      → Adds 1 s (mark_data_failure rt s code input now)
  unfolding mark_data_failure
  mark_data_failure-Adds s code input now = search adds_rules

  evaluate_plan_changed-Adds :
      (s : State rt) (plans : Dict ℕ) (input : Input rt) (now : ℕ)
      → Adds 1 s (evaluate_plan_changed rt s plans input now)
  unfolding evaluate_plan_changed
  evaluate_plan_changed-Adds s plans input now = search adds_rules

  evaluate_total-Adds :
      (s : State rt) (total : rt.Float) (summary : Fields rt.Float) (input : Input rt) (now : ℕ)
      → Adds 1 s (evaluate_total rt s total summary input now)
  unfolding evaluate_total
  evaluate_total-Adds s total summary input now =
      search (Adds-opened, Adds-closed, adds_rules) depth 8

  note_snapshot-Adds :
      (s : State rt) (snap : Snapshot rt) (input : Input rt) (now : ℕ)
      → Adds 1 s (note_snapshot rt s snap input now)
  unfolding note_snapshot
  note_snapshot-Adds s snap input now = search (adds_rules, mark_data_failure-Adds)

  evaluate_total-Adds_unless :
      (b : Bool) (s : State rt) (total : rt.Float) (summary : Fields rt.Float) (input : Input rt)
      (now : ℕ)
      → Adds 1 s (if b then s else evaluate_total rt s total summary input now)
  evaluate_total-Adds_unless b s total summary input now =
      search (Adds-if, Adds-same, evaluate_total-Adds)

  evaluate_snapshot-Adds :
      (s : State rt) (snap : Snapshot rt) (input : Input rt) (now : ℕ)
      → Adds 2 s (evaluate_snapshot rt s snap input now)
  unfolding evaluate_snapshot
  evaluate_snapshot-Adds s snap input now =
      let noted = note_snapshot-Adds s snap input now in
      Adds-trans noted (evaluate_total-Adds_unless _ _ _ _ _ _)

  evaluate_input-Adds :
      (s : State rt) (e : Option CheckError) (snap : Option (Snapshot rt)) (input : Input rt)
      (now : ℕ)
      → Adds 2 s (evaluate_input rt s e snap input now)
  unfolding evaluate_input
  evaluate_input-Adds s (some (of_quota (plan_changed plans))) snap input now =
      weaken (evaluate_plan_changed-Adds s plans input now)
  evaluate_input-Adds s (some (of_quota not_computable)) snap input now =
      weaken (mark_data_failure-Adds s _ input now)
  evaluate_input-Adds s (some (of_text t)) snap input now =
      weaken (mark_data_failure-Adds s _ input now)
  evaluate_input-Adds s none none input now = Adds-same refl refl
  evaluate_input-Adds s none (some snap) input now = evaluate_snapshot-Adds s snap input now

  -- A check adds at most two events behind the pending ones, and among what it adds a low alert comes
  -- only while none is open and a recovery only while one is open; `low_active` tells which.
  pub evaluate-Adds :
      (s : State rt) (input : Input rt) (now : ℕ) → Adds 2 s (evaluate rt s input now)
  unfolding evaluate
  evaluate-Adds s input now =
      evaluate_input-Adds s input.error input.snapshot (with_defaults rt input) now
