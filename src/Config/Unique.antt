-- ===== src/Config/Unique.antt =====
-- No two plan rules share an alias.
use cpa_quota_alert_plugin.Base.{
  Result-cases, Option-cases, ℕ, suc, ◌≤◌, String, Bool, true, Option, none, some, List, [], ◌∷◌,
  ◌==◌, ◌≡◌, refl, ap, arith, eq_iff, if◌then◌else◌, ok, contains, count, inl, inr, ◌⊎◌,
}
use cpa_quota_alert_plugin.Base.Dict.{Dict, lookup, insert, lookup-insert}
use cpa_quota_alert_plugin.Runtime.{Runtime, Any, Items, nil, cons}
use cpa_quota_alert_plugin.Quota.Types.{PlanRule}
use cpa_quota_alert_plugin.Config.Values.{object_value}
use cpa_quota_alert_plugin.Config.{
  is_some, claim, make_rule, Accepted, add_rule, accept_rule, accept_rules, candidates, is_ignored,
  none_accepted, parse_rules,
}

-- Whether the owner is missing or that name.
abbrev is_free : String → Option String → Bool
is_free name none = true
is_free name (some previous) = previous == name

free-cases :
    (name : String) (owner : Option String)
    → is_free name owner ≡ true
    → (owner ≡ none) ⊎ (owner ≡ some name)
free-cases name none h = inl refl
free-cases name (some previous) h = inr (ap some ((eq_iff previous name).0 h))

module _ (rt : Runtime) where
  claim-lookup :
      (ignored : String → Bool) (name : String) (l : List String) (owners owners' : Dict String)
      (x : String)
      → claim rt ignored name l owners ≡ ok owners'
      → (lookup x owners' ≡ (if contains l x then some name else lookup x owners))
        × (contains l x ≡ true → is_free name (lookup x owners) ≡ true)
  unfolding claim
  claim-lookup ignored name [] owners owners' x h = ground arith
  claim-lookup ignored name (alias ∷ more) owners owners' x h = ground (
    arith,
    claim-lookup ignored name more (insert alias name owners) owners' x,
    lookup-insert alias x name owners,
    eq_iff alias x,
  )

  -- How many rules have the alias.
  abbrev pub holding : String → Dict (PlanRule rt) → ℕ
  holding x rules = count (λ (e : String × PlanRule rt). contains e.1.aliases x) rules

  holding-insert :
      (x name : String) (rule : PlanRule rt) (rules : Dict (PlanRule rt))
      → lookup name rules ≡ none
      → holding x (insert name rule rules)
        ≡ (if contains rule.aliases x then suc (holding x rules) else holding x rules)
  unfolding insert lookup
  holding-insert x name rule [] h = ground arith
  holding-insert x name rule ((k, r) ∷ rules) h = ground (arith, holding-insert x name rule rules)

  -- An alias that a rule has is owned, by a rule that is there.
  record IsOwned (accepted : Accepted rt) : Type 0 where
    single :
        (x : String)
        → holding x accepted.rules ≤ (if is_some (lookup x accepted.owners) then 1 else 0)
    present :
        (x name : String)
        → lookup x accepted.owners ≡ some name
        → is_some (lookup name accepted.rules) ≡ true

  add_rule-IsOwned :
      (ignored : String → Bool) (accepted accepted' : Accepted rt) (rule : PlanRule rt)
      → IsOwned accepted
      → add_rule rt ignored accepted rule ≡ ok accepted'
      → IsOwned accepted'
  unfolding add_rule
  add_rule-IsOwned ignored accepted accepted' rule i h =
      elim (Result-cases (claim rt ignored rule.name rule.aliases accepted.owners)) [
        | inl (e, bad) ↦ absurd (ground arith)
        | inr (owners, good) ↦
            let rules = insert rule.name rule accepted.rules in
            let fresh : lookup rule.name accepted.rules ≡ none = ground arith in
            let e : accepted' ≡ record { rules = rules; owners = owners } = ground arith in
            rw e (record {
              single = λ x. ground (
                arith,
                i.single x,
                i.present x rule.name,
                fresh,
                holding-insert x rule.name rule accepted.rules fresh,
                claim-lookup ignored rule.name rule.aliases accepted.owners owners x good,
                free-cases rule.name (lookup x accepted.owners),
              );
              present = λ x name o. ground (
                arith,
                i.present x name,
                lookup-insert rule.name name rule accepted.rules,
                claim-lookup ignored rule.name rule.aliases accepted.owners owners x good,
                eq_iff rule.name name,
              );
            })
      ]

  accept_rule-IsOwned :
      (ignored : String → Bool) (i : ℕ) (value : Any (rt.Float)) (accepted accepted' : Accepted rt)
      → IsOwned accepted
      → accept_rule rt ignored i value accepted ≡ ok accepted'
      → IsOwned accepted'
  unfolding accept_rule
  accept_rule-IsOwned ignored i value accepted accepted' o h =
      elim (Option-cases (object_value rt value)) [
        | inl bad ↦ absurd (ground arith)
        | inr (fields, found) ↦ elim (Result-cases (make_rule rt ignored i fields)) [
          | inl (e, bad) ↦ absurd (ground arith)
          | inr (rule, made) ↦ add_rule-IsOwned ignored accepted accepted' rule o (ground arith)
        ]
      ]

  accept_rules-IsOwned :
      (ignored : String → Bool) (i : ℕ) (l : Items (rt.Float)) (accepted accepted' : Accepted rt)
      → IsOwned accepted
      → accept_rules rt ignored i l accepted ≡ ok accepted'
      → IsOwned accepted'
  unfolding accept_rules
  accept_rules-IsOwned ignored i nil accepted accepted' o h =
      let e : accepted' ≡ accepted = ground arith in rw e o
  accept_rules-IsOwned ignored i (cons value l) accepted accepted' o h =
      elim (Result-cases (accept_rule rt ignored i value accepted)) [
        | inl (e, bad) ↦ absurd (ground arith)
        | inr (next, added) ↦
            accept_rules-IsOwned ignored (suc i) l next accepted'
              (accept_rule-IsOwned ignored i value accepted next o added) (ground arith)
      ]

  -- Of the plan rules that are accepted, at most one has any given alias.
  pub parse_rules-IsUnique :
      (set : List String) (raw : Any (rt.Float)) (accepted : Accepted rt) (alias : String)
      → parse_rules rt set raw ≡ ok accepted
      → holding alias accepted.rules ≤ 1
  unfolding parse_rules lookup
  parse_rules-IsUnique set raw accepted alias h =
      let start : IsOwned (none_accepted rt) = record {
        single = λ x. omega arith;
        present = λ x name o. absurd (ground arith);
      } in
      elim (Option-cases (candidates rt raw)) [
        | inl bad ↦ absurd (ground arith)
        | inr (l, found) ↦ ground (
          arith,
          (accept_rules-IsOwned (is_ignored rt set) 0 l (none_accepted rt) accepted start
                (ground arith)).single
              alias,
        )
      ]
