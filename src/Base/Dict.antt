-- ===== src/Base/Dict.antt =====
-- Go's maps keyed by texts, as association lists. A list fixes one of the orders in which Go's
-- `range` may visit the map.
use Prim.Native.Nat.{ℕ, suc, ◌+◌}
use Prim.Native.String.{String}
use mathlib.Core.Path.{◌≡◌, refl}
use mathlib.Core.Option.{Option, none, some}
use mathlib.Core.List.{List, [], ◌∷◌}
use native.Mathlib.Omega.{arith}
use text.Mathlib.Text.{◌==◌}
use text.Mathlib.TextEquality.{eq_iff}
use cpa_quota_alert_plugin.Base.Tests.{if◌then◌else◌}
use cpa_quota_alert_plugin.Base.Lists.{All}

abbrev pub Dict {ℓ} : Type ℓ → Type ℓ
Dict V = List (String × V)

module _ {ℓ} {V : Type ℓ} where
  unfoldable pub lookup : String → Dict V → Option V
  lookup key [] = none
  lookup key ((other, value) ∷ m) = if other == key then some value else lookup key m

  unfoldable pub insert : String → V → Dict V → Dict V
  insert key value [] = (key, value) ∷ []
  insert key value ((other, old) ∷ m) =
      let rest = insert key value m in
      if other == key then (other, value) ∷ m else (other, old) ∷ rest

  unfoldable pub erase : String → Dict V → Dict V
  erase k [] = []
  erase k ((j, w) ∷ m) = let rest = erase k m in if j == k then rest else (j, w) ∷ rest

  abbrev pub keys : Dict V → List String
  keys [] = []
  keys ((j, w) ∷ m) = j ∷ keys m

  pub lookup-insert :
      (key other : String) (value : V) (m : Dict V)
      → lookup other (insert key value m) ≡ (if key == other then some value else lookup other m)
  unfolding lookup insert
  lookup-insert key other value [] = refl
  lookup-insert key other value ((i, w) ∷ m) =
      let rest = lookup-insert key other value m in
      ground (arith, rest, eq_iff key other, eq_iff i key, eq_iff i other)

  pub lookup-erase :
      (k j : String) (m : Dict V) → lookup j (erase k m) ≡ (if k == j then none else lookup j m)
  unfolding lookup erase
  lookup-erase k j [] = ground arith
  lookup-erase k j ((i, w) ∷ m) =
      ground (arith, eq_iff k j, eq_iff i k, eq_iff i j, lookup-erase k j m)

  -- What holds of the values of a map holds after an insertion of such a value.
  pub All-insert {κ} :
      (P : V → Type κ) (k : String) (v : V) (m : Dict V)
      → All (λ e. P e.1) m
      → P v
      → All (λ e. P e.1) (insert k v m)
  unfolding insert
  All-insert P k v [] h p = (p, tt)
  All-insert P k v ((j, w) ∷ m) (q, h) p = ground (arith, All-insert P k v m h p)

-- `m[k]++` on a map of counters
unfoldable pub bump : String → Dict ℕ → Dict ℕ
bump k [] = (k, 1) ∷ []
bump k ((j, n) ∷ m) = if j == k then (j, n + 1) ∷ m else (j, n) ∷ bump k m

-- `m[k]`, 0 where the key is missing
abbrev pub count_at : String → Dict ℕ → ℕ
count_at k m = elim (lookup k m) [ none ↦ 0 | some n ↦ n ]

-- The sum of all counters.
unfoldable pub total_count : Dict ℕ → ℕ
total_count [] = 0
total_count ((j, n) ∷ m) = n + total_count m

pub count_at-bump :
    (k j : String) (m : Dict ℕ)
    → count_at j (bump k m) ≡ (if k == j then suc (count_at j m) else count_at j m)
unfolding bump lookup
count_at-bump k j [] = ground arith
count_at-bump k j ((i, n) ∷ m) =
    ground (arith, eq_iff k j, eq_iff i k, eq_iff i j, count_at-bump k j m)

pub total_count-bump : (k : String) (m : Dict ℕ) → total_count (bump k m) ≡ suc (total_count m)
unfolding bump total_count
total_count-bump k [] = ground arith
total_count-bump k ((j, n) ∷ m) = ground (arith, total_count-bump k m)
