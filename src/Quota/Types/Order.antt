-- ===== src/Quota/Types/Order.antt =====
-- Go visits a map in any order. `findRule` does not depend on it where one rule answers to the plan.
use mathlib.Core.List.{Permᴰ}
use cpa_quota_alert_plugin.Base.{ℕ, ◌≤◌, String, ◌≡◌, refl, ◌∙◌, arith, count}
use cpa_quota_alert_plugin.Base.Dict.{Dict}
use cpa_quota_alert_plugin.Runtime.{Runtime}
use cpa_quota_alert_plugin.Quota.Types.{PlanRule, normalize, answers, first_rule, find_rule}

module _ (rt : Runtime) where
  -- How many rules answer to the alias.
  abbrev pub answering : String → Dict (PlanRule rt) → ℕ
  answering alias rules = count (λ (e : String × PlanRule rt). answers rt alias e.1) rules

  answering-perm :
      (alias : String) {rules rules' : Dict (PlanRule rt)}
      → Permᴰ rules rules'
      → answering alias rules ≡ answering alias rules'
  answering-perm alias Permᴰ.nil = refl
  answering-perm alias (Permᴰ.cons e p) = rw (e, answering-perm alias p)
  answering-perm alias (Permᴰ.swap e e') = rw (e, e') (ground arith)
  answering-perm alias (Permᴰ.trans p q) = answering-perm alias p ∙ answering-perm alias q

  first_rule-perm :
      (alias : String) {rules rules' : Dict (PlanRule rt)}
      → Permᴰ rules rules'
      → answering alias rules ≤ 1
      → first_rule rt alias rules ≡ first_rule rt alias rules'
  unfolding first_rule
  first_rule-perm alias Permᴰ.nil h = refl
  first_rule-perm alias (Permᴰ.cons {b = (k, rule)} e p) h =
      rw e (ground (arith, first_rule-perm alias p))
  first_rule-perm alias (Permᴰ.swap {a' = (k, rule)} {b' = (j, other)} e e') h =
      rw (e, e') (let h' = rw (e, e') at h in ground arith)
  first_rule-perm alias (Permᴰ.trans p q) h =
      first_rule-perm alias p h ∙ first_rule-perm alias q (rw (answering-perm alias p) at h)

  -- Where at most one rule answers to a plan, `findRule` returns the same rule whatever the order in
  -- which it visits the map.
  pub find_rule-perm :
      (plan : String) {rules rules' : Dict (PlanRule rt)}
      → Permᴰ rules rules'
      → answering (normalize rt plan) rules ≤ 1
      → find_rule rt plan rules ≡ find_rule rt plan rules'
  unfolding find_rule
  find_rule-perm plan p h = first_rule-perm (normalize rt plan) p h
