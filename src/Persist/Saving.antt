-- ===== src/Persist/Saving.antt =====
-- Saving (src/persist.rs): whatever fails, the snapshot is the old one or the new one.
use hfmcbot.Prelude.{
  ℕ, ◌≡◌, ◌≢◌, ◌⊎◌, ◌∙◌, inl, inr, refl, ap, arith, true, not, ◌&&◌, if_ind, ◌++◌, some,
}
use hfmcbot.Prelude.Map.{lookup}
use hfmcbot.Prelude.Map.Laws.{lookup-insert_self, lookup-insert_ne}
use hfmcbot.Prelude.Text.{Text, bytes}
use hfmcbot.Borsh.{is_utf8}
use hfmcbot.Persist.{EngineState, check_version, state_version}
use hfmcbot.Persist.Files.{
  Files, IoResult, done, failed, Faults, Format, tmp_path, is_written, write_and_rename, save_state,
  known, checked, load_from, load_state,
}

-- What JSON's writer and reader do to a snapshot: its text with the line end is UTF-8 and reads back.
pub record IsFormat {D T : Type 0} (format : Format D T) (snap : EngineState D T) : Type 0 where
  pub reads_back : format.state_of (format.state_text snap ++ bytes "\n") ≡ some snap
  pub is_text : is_utf8 (format.state_text snap ++ bytes "\n") ≡ true

module _ {D T : Type 0} (format : Format D T) where
  -- What a load finds after a save: the snapshot that was saved, or what it found before; and where
  -- the save is done, the snapshot.
  pub record IsAtomic (path : Text) (snap : EngineState D T) (before : Files)
      (r : Files × IoResult (Unit {0})) : Type 0 where
    pub old_or_new :
        (load_state format path r.0 ≡ done snap)
        ⊎ (load_state format path r.0 ≡ load_state format path before)
    pub new_if_done : r.1 ≡ done tt → load_state format path r.0 ≡ done snap

  load_from-saved :
      (snap : EngineState D T) (is_format : IsFormat format snap)
      → snap.version ≡ state_version
      → load_from format (some (format.state_text snap ++ bytes "\n")) ≡ done snap
  unfolding load_from checked known check_version
  load_from-saved snap is_format current = ground (arith, is_format.is_text, is_format.reads_back)

  -- the two ends of a write: the file is as it was, or it has the snapshot
  kept-IsAtomic :
      (path : Text) (snap : EngineState D T) (before after : Files)
      → lookup path after ≡ lookup path before
      → IsAtomic path snap before (after, failed)
  unfolding load_state
  kept-IsAtomic path snap before after same = record {
    old_or_new = inr (ap (load_from format) same);
    new_if_done = λ h. ground arith;
  }

  saved-IsAtomic :
      (path : Text) (snap : EngineState D T) (is_format : IsFormat format snap)
      (before after : Files)
      → snap.version ≡ state_version
      → lookup path after ≡ some (format.state_text snap ++ bytes "\n")
      → IsAtomic path snap before (after, done tt)
  unfolding load_state
  saved-IsAtomic path snap is_format before after current same =
      let loaded = ap (load_from format) same ∙ load_from-saved snap is_format current in
      record { old_or_new = inl loaded; new_if_done = λ h. loaded }

  write_and_rename-IsAtomic :
      (path tmp : Text) (snap : EngineState D T) (is_format : IsFormat format snap)
      (faults : Faults) (files : Files)
      → snap.version ≡ state_version
      → path ≢ tmp
      → IsAtomic path snap files
          (write_and_rename path tmp (format.state_text snap ++ bytes "\n") faults files)
  unfolding write_and_rename
  write_and_rename-IsAtomic path tmp snap is_format faults files current apart =
      if_ind (IsAtomic path snap files)
        (is_written faults.written && faults.flushed && faults.renamed)
        (saved-IsAtomic path snap is_format files _ current
          (lookup-insert_self path (format.state_text snap ++ bytes "\n") _))
        (kept-IsAtomic path snap files _ (lookup-insert_ne tmp path _ files apart))

  -- Whatever call fails or crashes, and however many bytes were written, a load after the save of a
  -- snapshot of the current version finds that snapshot or what a load found before, and where the
  -- save reports success, the snapshot; the temporary file must have another path.
  pub save_state-IsAtomic :
      (path : Text) (pid : ℕ) (snap : EngineState D T) (is_format : IsFormat format snap)
      (faults : Faults) (files : Files)
      → snap.version ≡ state_version
      → path ≢ tmp_path path pid
      → IsAtomic path snap files (save_state format path pid snap faults files)
  unfolding save_state
  save_state-IsAtomic path pid snap is_format faults files current apart =
      if_ind (IsAtomic path snap files) (not faults.dir_made)
        (kept-IsAtomic path snap files files refl)
        (if_ind (IsAtomic path snap files) (not faults.opened)
          (kept-IsAtomic path snap files files refl)
          (write_and_rename-IsAtomic path (tmp_path path pid) snap is_format faults files current
            apart))
