-- ===== src/Store/Success.antt =====
-- A save succeeds where no call of the file system fails.
use cpa_quota_alert_plugin.Base.{
  ℕ, zero, suc, ◌≤◌, ◌<◌, String, true, false, none, some, List, [], ◌∷◌, ◌++◌, ◌==◌, ◌≡◌, refl,
  arith, length, length-append, drop, take, All,
}
use cpa_quota_alert_plugin.Base.Dict.{lookup, insert}
use cpa_quota_alert_plugin.Store.Save.{
  Content, Disk, Written, failed, took, Faults, write_all, Trail, current, save_rename, save_close,
  save_write, save_open, save_marshalled, save,
}
use cpa_quota_alert_plugin.Store.Atomic.{save-Atomic}

-- The call of `Write` takes at least one byte.
abbrev pub IsProgress : Written → Type 0
IsProgress failed = true ≡ false
IsProgress (took n) = 0 < n

length-drop_le : (n : ℕ) (bytes : Content) → length (drop n bytes) ≤ length bytes
length-drop_le zero bytes = omega arith
length-drop_le (suc n) [] = omega arith
length-drop_le (suc n) (b ∷ bytes) = omega (arith, length-drop_le n bytes)

length-drop : (n b : ℕ) (bytes : Content) → 0 < n → length (drop n (b ∷ bytes)) ≤ length bytes
length-drop zero b bytes h = absurd (omega arith)
length-drop (suc n) b bytes h = length-drop_le n bytes

write_all-enough :
    (temporary : String) (d : Disk) (answers : List Written) (done bytes : Content) (trail : Trail)
    → All IsProgress answers
    → length bytes ≤ length answers
    → (write_all temporary d answers done bytes trail).1 ≡ true
unfolding write_all
write_all-enough temporary d [] done [] trail p h = refl
write_all-enough temporary d [] done (b ∷ bytes) trail p h = absurd (omega arith)
write_all-enough temporary d (w ∷ answers) done [] trail p h = refl
write_all-enough temporary d (failed ∷ answers) done (b ∷ bytes) trail (p, q) h = cc
write_all-enough temporary d (took n ∷ answers) done (b ∷ bytes) trail (p, q) h =
    let short = length-drop n b bytes p in
    let done' = done ++ take n (b ∷ bytes) in
    ground (
      arith,
      write_all-enough temporary d answers done' (drop n (b ∷ bytes))
          (insert temporary done' (current d trail) ∷ trail) q (omega (arith, short)),
    )

-- No call of the file system fails, and each write takes at least one byte.
pub record IsSound (f : Faults) : Type 0 where
  pub directory : f.mkdir ≡ true
  pub opened : (f.open_temporary ≡ true) × (f.chmod_open ≡ true)
  pub flushed : (f.sync ≡ true) × (f.close ≡ true) × (f.chmod_closed ≡ true)
  pub renamed : f.rename ≡ true
  pub writes : All IsProgress f.writes

module _ (f : Faults) (path temporary : String) (apart : (path == temporary) ≡ false)
    (start : Disk) where
  save_write-none :
      (bytes : Content) (d : Disk) (trail : Trail)
      → IsSound f
      → length bytes ≤ length f.writes
      → (save_write f path temporary bytes d trail).0 ≡ none
  unfolding save_write save_close save_rename
  save_write-none bytes d trail s h =
      ground (
        arith,
        s.flushed,
        s.renamed,
        write_all-enough temporary d f.writes [] bytes trail s.writes h,
      )

  save-none :
      (bytes : Content)
      → IsSound f
      → lookup temporary start ≡ none
      → length bytes < length f.writes
      → (save f path temporary (some bytes) start).0 ≡ none
  unfolding save save_marshalled save_open
  save-none bytes s free h =
      let size = length-append bytes (10 ∷ []) in
      ground (
        arith,
        s.directory,
        s.opened,
        free,
        save_write-none (bytes ++ 10 ∷ []) start (insert temporary [] start ∷ []) s
            (omega (arith, size)),
      )

  -- Where the two paths differ, no call of the file system fails, the temporary name is free and
  -- the writes take at least one byte each and are as many as the bytes and the final newline, a
  -- save returns no error, and the state file then holds them.
  pub save-success :
      (bytes : Content)
      → IsSound f
      → lookup temporary start ≡ none
      → length bytes < length f.writes
      → let (error, trail) = save f path temporary (some bytes) start in
        (error ≡ none) × (lookup path (current start trail) ≡ some (bytes ++ 10 ∷ []))
  save-success bytes s free h =
      let done = save-none bytes s free h in
      (done, ((save-Atomic f path temporary apart start bytes).success done).0)
