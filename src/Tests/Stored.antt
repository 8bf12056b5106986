-- ===== src/Tests/Stored.antt =====
-- The theorems on the stored notification values at concrete data.
use cpa_quota_alert_plugin.Base.{
  String, true, Option, none, some, [], ◌∷◌, ◌==◌, ◌≡◌, refl, arith, eq_iff, if◌then◌else◌, ok,
  contains, trim_space, contains_char,
}
use cpa_quota_alert_plugin.Base.Dict.{Dict, lookup, insert, erase}
use cpa_quota_alert_plugin.Secrets.{Library, Answers, erase_all, insert_all, load, update, stored}
use cpa_quota_alert_plugin.Secrets.Merge.{or_old, AreValid}
use cpa_quota_alert_plugin.Secrets.Update.{ReadsBack, stored-update, update-AreValid}

-- It writes maps with the one name "A", as the value under it.
abbrev encode : Dict String → Option String
encode [] = none
encode ((name, value) ∷ []) = if name == "A" then some value else none
encode (_ ∷ _ ∷ _) = none

abbrev library : Library
library = record { marshal = encode; unmarshal = λ text. some (("A", text) ∷ []); sort = λ l. l }

abbrev answers : Answers
answers = record {
  has_path = true;
  directory = some true;
  regular = true;
  readable = true;
  made = true;
  directory_made = some true;
  created = true;
  permitted = true;
  written = true;
  synced = true;
  closed = true;
  replaced = true;
}

reads_back : ReadsBack library answers
unfolding lookup
reads_back [] text h = cc
reads_back ((name, value) ∷ []) text h =
    (("A", text) ∷ [], refl, λ key. ground (arith, eq_iff name "A"))
reads_back (_ ∷ _ ∷ _) text h = cc

abbrev one_value : Dict String
one_value = ("A", "1") ∷ []

updated : update library answers one_value ("B" ∷ []) none ≡ ok "1"
unfolding update lookup erase insert trim_space contains_char
updated = refl

stored-update_example :
    stored library answers "A" (some "1")
    ≡ or_old
        (lookup "A" one_value)
        (if contains ("B" ∷ []) "A" then none else stored library answers "A" none)
stored-update_example =
    stored-update library answers answers one_value ("B" ∷ []) none "1" "A" reads_back (refl, refl)
      (refl, refl) (unfold lookup in refl, tt) updated

update-AreValid_example :
    AreValid (insert_all one_value (erase_all ("B" ∷ []) []))
    × (encode (insert_all one_value (erase_all ("B" ∷ []) [])) ≡ some "1")
update-AreValid_example =
    update-AreValid library answers one_value ("B" ∷ []) none "1" [] (unfold load in refl) tt
      updated
