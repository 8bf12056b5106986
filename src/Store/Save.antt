-- ===== src/Store/Save.antt =====
-- `Save` and `writeAll` of internal/state/store.go over a file system whose calls may fail.
use cpa_quota_alert_plugin.Base.{
  ℕ, String, Bool, true, false, Option, none, some, List, [], ◌∷◌, ◌++◌, eqb, if◌then◌else◌, drop,
  take,
}
use cpa_quota_alert_plugin.Base.Dict.{Dict, lookup, insert, erase}

-- A file's bytes.
abbrev pub Content : Type 0
Content = List ℕ

abbrev pub Disk : Type 0
Disk = Dict Content

-- A call of `Write`: an error, or how many bytes it took.
pub data Written : Type 0 where
  failed : Written
  took : ℕ → Written

-- What the calls of the file system return in one `Save`. The writes are answered in turn, and a call
-- for which no answer is left fails.
pub record Faults : Type 0 where
  pub mkdir : Bool
  pub open_temporary : Bool
  pub chmod_open : Bool
  pub writes : List Written
  pub sync : Bool
  pub close : Bool
  pub chmod_closed : Bool
  pub rename : Bool
  pub remove : Bool

pub data SaveError : Type 0 where
  mkdir_failed marshal_failed open_failed chmod_failed write_failed sync_failed : SaveError
  close_failed rename_failed : SaveError

-- The disks that `Save` leaves behind, one for each change, the last first: a crash finds one of them.
abbrev pub Trail : Type 0
Trail = List Disk

abbrev pub current : Disk → Trail → Disk
current d [] = d
current d (d' ∷ _) = d'

-- `writeAll` on the temporary file, which holds `done`: one more disk for each call that takes bytes,
-- and whether all of them are there.
unfoldable pub write_all : String → Disk → List Written → Content → Content → Trail → Trail × Bool
write_all temporary d answers done [] trail = (trail, true)
write_all temporary d [] done (b ∷ bytes) trail = (trail, false)
write_all temporary d (failed ∷ answers) done (b ∷ bytes) trail = (trail, false)
write_all temporary d (took n ∷ answers) done (b ∷ bytes) trail =
    let done' = done ++ take n (b ∷ bytes) in
    let rest =
      write_all temporary d answers done' (drop n (b ∷ bytes))
        (insert temporary done' (current d trail) ∷ trail) in
    if eqb n 0 then (trail, false) else rest

-- `cleanup`: the removal of the temporary file may fail too.
unfoldable pub clean_up : Faults → String → Disk → Trail → Trail
clean_up f temporary d trail = if f.remove then erase temporary (current d trail) ∷ trail else trail

unfoldable pub rename_file : String → String → Disk → Disk
rename_file old new d = elim (lookup old d) [
  | none ↦ d
  | some content ↦ insert new content (erase old d)
]

module _ (f : Faults) (path temporary : String) where
  -- From the rename on. The last chmod and the sync of the directory change no content.
  unfoldable pub save_rename : Disk → Trail → Option SaveError × Trail
  unfolding rename_file clean_up
  save_rename d trail =
      if f.rename
      then (none, rename_file temporary path (current d trail) ∷ trail)
      else (some rename_failed, clean_up f temporary d trail)

  unfoldable pub save_close : Disk → Trail → Option SaveError × Trail
  unfolding save_rename
  save_close d trail =
      if f.sync
      then (if f.close
          then (if f.chmod_closed
              then save_rename d trail
              else (some chmod_failed, clean_up f temporary d trail))
          else (some close_failed, clean_up f temporary d trail))
      else (some sync_failed, clean_up f temporary d trail)

  unfoldable pub save_write : Content → Disk → Trail → Option SaveError × Trail
  unfolding save_close write_all
  save_write bytes d trail =
      let (trail', all) = write_all temporary d f.writes [] bytes trail in
      if all then save_close d trail' else (some write_failed, clean_up f temporary d trail')

  -- The temporary file is opened with `O_EXCL`, so the call fails too where the disk has it.
  unfoldable pub save_open : Content → Disk → Option Content → Option SaveError × Trail
  unfolding save_write
  save_open bytes d (some _) = (some open_failed, [])
  save_open bytes d none =
      if f.open_temporary
      then (let trail = insert temporary [] d ∷ [] in
          if f.chmod_open
          then save_write (bytes ++ 10 ∷ []) d trail
          else (some chmod_failed, clean_up f temporary d trail))
      else (some open_failed, [])

  unfoldable pub save_marshalled : Option Content → Disk → Option SaveError × Trail
  unfolding save_open
  save_marshalled none d = (some marshal_failed, [])
  save_marshalled (some bytes) d = save_open bytes d (lookup temporary d)

  -- `json.MarshalIndent` gives the bytes, or fails.
  unfoldable pub save : Option Content → Disk → Option SaveError × Trail
  unfolding save_marshalled
  save marshalled d = if f.mkdir then save_marshalled marshalled d else (some mkdir_failed, [])
