-- ===== src/Store/Atomic.antt =====
-- A save is atomic: at every moment the state file is the old one or the complete new one.
use mathlib.Core.Path.{subst}
use mathlib.Core.List.{append_assoc, append-nil}
use cpa_quota_alert_plugin.Base.{
  String, Bool, true, false, Option, none, some, List, [], ◌∷◌, ◌++◌, ◌==◌, ◌≡◌, ◌≢◌, refl, sym,
  ◌∙◌, ap, ◌⊎◌, inl, inr, arith, eq_iff, if◌then◌else◌, All, Bool-cases, take-append-drop, take,
  drop, eqb,
}
use cpa_quota_alert_plugin.Base.Dict.{lookup, insert, erase, lookup-insert, lookup-erase}
use cpa_quota_alert_plugin.Store.Save.{
  Content, Disk, Written, failed, took, Faults, SaveError, Trail, current, clean_up, rename_file,
  write_all, save_rename, save_close, save_write, save_open, save_marshalled, save, write_failed,
}

module _ (f : Faults) (path temporary : String) (apart : (path == temporary) ≡ false)
    (start : Disk) where
  -- What a save may leave behind.
  pub record Atomic (new : Content) (r : Option SaveError × Trail) : Type 0 where
    pub history : All (λ d. (lookup path d ≡ lookup path start) ⊎ (lookup path d ≡ some new)) r.1
    pub success :
        r.0 ≡ none
        → (lookup path (current start r.1) ≡ some new)
          × (lookup temporary (current start r.1) ≡ none)
    pub failure : r.0 ≢ none → lookup path (current start r.1) ≡ lookup path start

  -- Before the rename: no disk of the trail has another state file than the old one.
  record Working (content : Content) (trail : Trail) : Type 0 where
    untouched : All (λ d. lookup path d ≡ lookup path start) trail
    now : lookup path (current start trail) ≡ lookup path start
    temp : lookup temporary (current start trail) ≡ some content

  old-or-new :
      (new : Content) (trail : Trail)
      → All (λ d. lookup path d ≡ lookup path start) trail
      → All (λ d. (lookup path d ≡ lookup path start) ⊎ (lookup path d ≡ some new)) trail
  old-or-new new [] h = tt
  old-or-new new (d ∷ trail) (p, h) = (inl p, old-or-new new trail h)

  lookup-insert_temporary :
      (content : Content) (d : Disk) → lookup path (insert temporary content d) ≡ lookup path d
  lookup-insert_temporary content d =
      rw lookup-insert (ground (arith, eq_iff temporary path, eq_iff path temporary))

  lookup-erase_temporary : (d : Disk) → lookup path (erase temporary d) ≡ lookup path d
  lookup-erase_temporary d =
      rw lookup-erase (ground (arith, eq_iff temporary path, eq_iff path temporary))

  Working-write :
      {content : Content} (content' : Content) {trail : Trail}
      → Working content trail
      → Working content' (insert temporary content' (current start trail) ∷ trail)
  Working-write content' {trail} w =
      let e = lookup-insert_temporary content' (current start trail) ∙ w.now in
      record {
        untouched = (e, w.untouched);
        now = e;
        temp = rw lookup-insert (ground (arith, eq_iff temporary temporary));
      }

  clean_up-Atomic :
      {content : Content} (new : Content) (e : SaveError) (trail : Trail)
      → Working content trail
      → Atomic new (some e, clean_up f temporary start trail)
  unfolding clean_up
  clean_up-Atomic new e trail w =
      let gone = lookup-erase_temporary (current start trail) ∙ w.now in
      elim (Bool-cases f.remove) [
        | inl removed ↦ rw removed (record {
          history = (inl gone, old-or-new new trail w.untouched);
          success = λ h. cc;
          failure = λ _. gone;
        })
        | inr kept ↦ rw kept (record {
          history = old-or-new new trail w.untouched;
          success = λ h. cc;
          failure = λ _. w.now;
        })
      ]

  Atomic-if :
      (b : Bool) {new : Content} {r r' : Option SaveError × Trail}
      → (b ≡ true → Atomic new r)
      → (b ≡ false → Atomic new r')
      → Atomic new (if b then r else r')
  Atomic-if true h h' = h refl
  Atomic-if false h h' = h' refl

  rename_file-done :
      (new : Content) (d : Disk)
      → lookup temporary d ≡ some new
      → (lookup path (rename_file temporary path d) ≡ some new)
        × (lookup temporary (rename_file temporary path d) ≡ none)
  unfolding rename_file
  rename_file-done new d h =
      rw (h, rename_file)
        (
          rw lookup-insert (ground (arith, eq_iff path path)),
          rw (lookup-insert, lookup-erase)
              (ground (arith, eq_iff path temporary, eq_iff temporary temporary)),
        )

  rename-Atomic :
      (new : Content) (trail : Trail)
      → Working new trail
      → Atomic new (none, rename_file temporary path (current start trail) ∷ trail)
  rename-Atomic new trail w =
      let (there, gone) = rename_file-done new (current start trail) w.temp in
      record {
        history = (inr there, old-or-new new trail w.untouched);
        success = λ _. (there, gone);
        failure = λ h. absurd (h refl);
      }

  ruleset atomic_rules = (Atomic-if, clean_up-Atomic, rename-Atomic)

  save_close-Atomic :
      (new : Content) (trail : Trail)
      → Working new trail
      → Atomic new (save_close f path temporary start trail)
  unfolding save_close save_rename
  save_close-Atomic new trail w = search atomic_rules depth 8

  -- The loop over `Write` touches the temporary file alone, and when it reports success, every byte is
  -- there, in order, whatever the sizes of the single writes.
  write_all-Working :
      (answers : List Written) (done bytes : Content) (trail : Trail)
      → Working done trail
      → (content : Content) × Working content (write_all temporary start answers done bytes trail).0
        × ((write_all temporary start answers done bytes trail).1 ≡ true → content ≡ done ++ bytes)
  unfolding write_all
  write_all-Working [] done [] trail w = (done, w, λ _. sym (append-nil done))
  write_all-Working (failed ∷ answers) done [] trail w = (done, w, λ _. sym (append-nil done))
  write_all-Working (took n ∷ answers) done [] trail w = (done, w, λ _. sym (append-nil done))
  write_all-Working [] done (b ∷ bytes) trail w = (done, w, λ h. cc)
  write_all-Working (failed ∷ answers) done (b ∷ bytes) trail w = (done, w, λ h. cc)
  write_all-Working (took n ∷ answers) done (b ∷ bytes) trail w =
      let done' = done ++ take n (b ∷ bytes) in
      let (content, w', complete) =
        write_all-Working answers done' (drop n (b ∷ bytes)) _ (Working-write done' w) in
      elim (Bool-cases (eqb n 0)) [
        | inl none_taken ↦ rw none_taken (done, w, λ h. cc)
        | inr some_taken ↦ rw some_taken (
          content,
          w',
          λ h.
              complete h
              ∙ append_assoc done (take n (b ∷ bytes)) (drop n (b ∷ bytes))
              ∙ ap (λ xs. done ++ xs) (take-append-drop n (b ∷ bytes)),
        )
      ]

  save_write-Atomic :
      (new : Content) (trail : Trail)
      → Working [] trail
      → Atomic new (save_write f path temporary new start trail)
  unfolding save_write
  save_write-Atomic new trail w =
      let (trail', all) = write_all temporary start f.writes [] new trail in
      let (content, w', complete) = write_all-Working f.writes [] new trail w in
      elim (Bool-cases (write_all temporary start f.writes [] new trail).1) [
        | inl written ↦
            rw written
              (save_close-Atomic new _ (subst (λ c. Working c trail') (complete written) w'))
        | inr broken ↦ rw broken (clean_up-Atomic new write_failed _ w')
      ]

  -- A new file is empty, and leaves the state file alone.
  Working-open : Working [] (insert temporary [] start ∷ [])
  Working-open =
      let e = lookup-insert_temporary [] start in
      record {
        untouched = (e, tt);
        now = e;
        temp = rw lookup-insert (ground (arith, eq_iff temporary temporary));
      }

  Atomic-none : (new : Content) (e : SaveError) → Atomic new (some e, [])
  Atomic-none new e = record { history = tt; success = λ h. cc; failure = λ _. refl }

  save_open-Atomic :
      (bytes : Content) (taken : Option Content)
      → Atomic (bytes ++ 10 ∷ []) (save_open f path temporary bytes start taken)
  unfolding save_open
  save_open-Atomic bytes (some _) = Atomic-none _ _
  save_open-Atomic bytes none =
      let w = Working-open in
      search (Atomic-if, Atomic-none, save_write-Atomic, clean_up-Atomic, w) depth 7

  -- Where the paths of the state file and of the temporary file differ, and however the calls of
  -- the file system fail, every disk that a save passes through holds the old state file or the
  -- complete new one, with its final newline; a save that succeeds leaves the new one and no
  -- temporary file, and a save that fails leaves the old one.
  pub save-Atomic :
      (bytes : Content) → Atomic (bytes ++ 10 ∷ []) (save f path temporary (some bytes) start)
  unfolding save save_marshalled
  save-Atomic bytes = Atomic-if f.mkdir (λ _. save_open-Atomic bytes _) (λ _. Atomic-none _ _)
