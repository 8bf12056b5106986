-- ===== src/Secrets/Update.antt =====
-- `Update` and then `Lookup`, and the validity of what is stored.
use cpa_quota_alert_plugin.Base.{
  len, ltb, String, true, false, Option, none, some, List, ◌≡◌, sym, arith, if◌then◌else◌, ok,
  contains, Option-cases, inl, inr,
}
use cpa_quota_alert_plugin.Base.Dict.{Dict, lookup}
use cpa_quota_alert_plugin.Secrets.{
  max_file_bytes, Library, Answers, accepts_set, erase_all, insert_all, load_file, load, write_file,
  save, update_loaded, update, stored,
}
use cpa_quota_alert_plugin.Secrets.Merge.{
  IsMap, or_old, lookup-insert_all, lookup-erase_all, AreValid, erase_all-AreValid,
  insert_all-AreValid,
}

module _ (lib : Library) (a : Answers) where
  -- What a successful update has done.
  record Updated (set : Dict String) (clear : List String) (file : Option String) (text : String)
      : Type 0 where
    values : Dict String
    loaded : load lib a file ≡ some values
    accepted : accepts_set set ≡ true
    encoded : lib.marshal (insert_all set (erase_all clear values)) ≡ some text
    fits : ltb max_file_bytes (len text) ≡ false

  save-ok :
      (values : Dict String) (text : String)
      → save lib a values ≡ ok text
      → (lib.marshal values ≡ some text) × (ltb max_file_bytes (len text) ≡ false)
  unfolding save write_file
  save-ok values text h = ground arith

  update-Updated :
      (set : Dict String) (clear : List String) (file : Option String) (text : String)
      → update lib a set clear file ≡ ok text
      → Updated set clear file text
  unfolding update update_loaded
  update-Updated set clear file text h = elim (Option-cases (load lib a file)) [
    | inl bad ↦ absurd (ground arith)
    | inr (values, good) ↦
        let s : save lib a (insert_all set (erase_all clear values)) ≡ ok text = ground arith in
        let (encoded, fits) = save-ok (insert_all set (erase_all clear values)) text s in
        record {
          values = values;
          loaded = good;
          accepted = ground arith;
          encoded = encoded;
          fits = fits;
        }
  ]

  -- The decoder reads what the encoder writes: a map with the same value under each name.
  abbrev pub ReadsBack : Type 0
  ReadsBack =
      (m : Dict String) (text : String)
      → lib.marshal m ≡ some text
      → (m' : Dict String) × (lib.unmarshal text ≡ some m')
        × ((name : String) → lookup name m' ≡ lookup name m)

  -- A successful update with a map of values leaves a file in which a lookup finds under each name
  -- the value set, nothing under a name that was cleared, and the old value under every other; the
  -- decoder must read back what the encoder writes, and the file must be readable afterwards.
  pub stored-update :
      (after : Answers) (set : Dict String) (clear : List String) (file : Option String)
      (text : String) (name : String)
      → ReadsBack
      → (after.has_path ≡ true) × (after.directory ≡ some true)
      → (after.regular ≡ true) × (after.readable ≡ true)
      → IsMap set
      → update lib a set clear file ≡ ok text
      → stored lib after name (some text)
        ≡ or_old (lookup name set) (if contains clear name then none else stored lib a name file)
  unfolding stored load load_file
  stored-update after set clear file text name reads (path, directory) (regular, readable) distinct
        h =
      let u = update-Updated set clear file text h in
      let (m, decoded, same) = reads (insert_all set (erase_all clear u.values)) text u.encoded in
      let read : load lib after (some text) ≡ some m = ground (arith, decoded, u.fits) in
      let found : lookup name m ≡ lookup name (insert_all set (erase_all clear u.values)) =
        same name in
      ground (
        arith,
        read,
        found,
        u.loaded,
        lookup-insert_all name set (erase_all clear u.values) distinct,
        lookup-erase_all name clear u.values,
      )

  -- Where the values loaded are valid, those that a successful update encodes are valid too.
  pub update-AreValid :
      (set : Dict String) (clear : List String) (file : Option String) (text : String)
      (values : Dict String)
      → load lib a file ≡ some values
      → AreValid values
      → update lib a set clear file ≡ ok text
      → AreValid (insert_all set (erase_all clear values))
        × (lib.marshal (insert_all set (erase_all clear values)) ≡ some text)
  update-AreValid set clear file text values loaded valid h =
      let u = update-Updated set clear file text h in
      let same : u.values ≡ values = cc (u.loaded, loaded) in
      rw (sym same) (
        insert_all-AreValid set (erase_all clear u.values) u.accepted
            (erase_all-AreValid clear u.values (rw same valid)),
        u.encoded,
      )
