-- ===== src/Secrets/Merge.antt =====
-- What an update leaves under each name.
use cpa_quota_alert_plugin.Base.{
  String, true, Option, none, some, List, [], ◌∷◌, ◌≡◌, refl, arith, eq_iff, if◌then◌else◌,
  contains, All,
}
use cpa_quota_alert_plugin.Base.Dict.{
  Dict, lookup, insert, erase, lookup-insert, lookup-erase, All-insert,
}
use cpa_quota_alert_plugin.Secrets.{is_valid_value, accepts_set, erase_all, insert_all}

-- No name stands twice in the list, as in a map.
abbrev pub IsMap : Dict String → Type 0
IsMap [] = Unit
IsMap ((name, value) ∷ more) = (lookup name more ≡ none) × IsMap more

abbrev pub or_old : Option String → Option String → Option String
or_old (some value) old = some value
or_old none old = old

pub lookup-insert_all :
    (name : String) (set values : Dict String)
    → IsMap set
    → lookup name (insert_all set values) ≡ or_old (lookup name set) (lookup name values)
unfolding insert_all lookup
lookup-insert_all name [] values h = refl
lookup-insert_all name ((k, v) ∷ more) values (fresh, h) = ground (
  arith,
  lookup-insert_all name more (insert k v values) h,
  lookup-insert k name v values,
  eq_iff k name,
)

pub lookup-erase_all :
    (name : String) (clear : List String) (values : Dict String)
    → lookup name (erase_all clear values)
      ≡ (if contains clear name then none else lookup name values)
unfolding erase_all
lookup-erase_all name [] values = refl
lookup-erase_all name (k ∷ more) values =
    ground (arith, lookup-erase_all name more (erase k values), lookup-erase k name values)

-- Every value is one that `Update` accepts.
abbrev pub AreValid : Dict String → Type 0
AreValid values = All (λ e. is_valid_value e.1 ≡ true) values

AreValid-erase : (k : String) (values : Dict String) → AreValid values → AreValid (erase k values)
unfolding erase
AreValid-erase k [] h = tt
AreValid-erase k ((j, v) ∷ more) (p, h) = ground (arith, p, AreValid-erase k more h)

pub erase_all-AreValid :
    (clear : List String) (values : Dict String)
    → AreValid values
    → AreValid (erase_all clear values)
unfolding erase_all
erase_all-AreValid [] values h = h
erase_all-AreValid (k ∷ more) values h =
    erase_all-AreValid more (erase k values) (AreValid-erase k values h)

pub insert_all-AreValid :
    (set values : Dict String)
    → accepts_set set ≡ true
    → AreValid values
    → AreValid (insert_all set values)
unfolding insert_all accepts_set
insert_all-AreValid [] values s h = h
insert_all-AreValid ((k, v) ∷ more) values s h =
    insert_all-AreValid more (insert k v values) (ground arith)
      (All-insert (λ x. is_valid_value x ≡ true) k v values h (ground arith))
