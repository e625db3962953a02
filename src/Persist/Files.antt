-- ===== src/Persist/Files.antt =====
-- Files (src/persist.rs): the audit log and the snapshot on a file system whose calls may fail, or
-- end in a crash of the process, at any point.
use hfmcbot.Prelude.{
  ℕ, Bool, true, false, not, ◌&&◌, List, [], ◌∷◌, ◌++◌, Option, none, some, take, ◌==◌,
  if◌then◌else◌,
}
use hfmcbot.Prelude.Map.{HashMap, lookup, insert, remove}
use hfmcbot.Prelude.Text.{Text, bytes, show_u64}
use hfmcbot.Borsh.{is_utf8}
use hfmcbot.Persist.{EngineState, AuditRecord, check_version}

-- the files by their path, each with its bytes
abbrev pub Files : Type 0
Files = HashMap (List ℕ)

-- `std::io::Result` of a call, without the error
pub data IoResult (A : Type 0) : Type 0 where
  done : A → IoResult A
  failed : IoResult A

-- What the calls of a write do: whether each succeeds, and how many bytes `write_all` wrote where it
-- does not. A crash in a call is one that fails.
pub record Faults : Type 0 where
  pub dir_made : Bool
  pub opened : Bool
  pub written : Option ℕ
  pub flushed : Bool
  pub renamed : Bool

-- the bytes that reach the file
unfoldable pub reached : Option ℕ → List ℕ → List ℕ
reached none buf = buf
reached (some n) buf = take n buf

unfoldable pub is_written : Option ℕ → Bool
is_written none = true
is_written (some n) = false

-- an open for appending makes a file that is not there
unfoldable pub contents : Option (List ℕ) → List ℕ
contents none = []
contents (some old) = old

-- serde_json on the records and the snapshot
pub record Format (D T : Type 0) : Type 0 where
  pub record_text : AuditRecord D T → Text
  pub state_text : EngineState D T → Text
  pub state_of : Text → Option (EngineState D T)

-- no dot and no slash (46 and 47)
is_plain : Text → Bool
is_plain [] = true
is_plain (c ∷ s) = not (c == 46) && not (c == 47) && is_plain s

-- the path without the extension of its file name; a dot that a name starts with is none
stem_from : Bool → Text → Text
unfolding is_plain
stem_from at_start [] = []
stem_from at_start (c ∷ s) =
    let rest = stem_from (c == 47) s in
    if c == 46 && not at_start && is_plain s then [] else c ∷ rest

-- `with_extension` of "tmp." and the number of the process
unfoldable pub tmp_path : Text → ℕ → Text
unfolding stem_from show_u64
tmp_path path pid = stem_from true path ++ bytes ".tmp." ++ show_u64 pid

-- the temporary file, once it is created, and the rename
unfoldable pub write_and_rename : Text → Text → List ℕ → Faults → Files → Files × IoResult Unit
unfolding reached is_written
write_and_rename path tmp buf faults files =
    let filled = insert tmp (reached faults.written buf) files in
    if is_written faults.written && faults.flushed && faults.renamed
    then (insert path buf (remove tmp filled), done tt)
    else (filled, failed)

module _ {D T : Type 0} (format : Format D T) where
  -- `AuditLog::append` to the file that `open` has opened
  unfoldable pub append : Text → AuditRecord D T → Faults → Files → Files × IoResult Unit
  unfolding reached is_written contents
  append path r faults files =
      let old = contents (lookup path files) in
      let line = format.record_text r ++ bytes "\n" in
      (
        insert path (old ++ reached faults.written line) files,
        if is_written faults.written && faults.flushed then done tt else failed,
      )

  unfoldable pub save_state : Text → ℕ → EngineState D T → Faults → Files → Files × IoResult Unit
  unfolding write_and_rename tmp_path
  save_state path pid snap faults files =
      let buf = format.state_text snap ++ bytes "\n" in
      if not faults.dir_made
      then (files, failed)
      else if not faults.opened
      then (files, failed)
      else write_and_rename path (tmp_path path pid) buf faults files

  -- the document that was read, and its version
  unfoldable pub known : Option (EngineState D T) → IoResult (EngineState D T)
  known none = failed
  known (some snap) = done snap

  unfoldable pub checked : Option (EngineState D T) → IoResult (EngineState D T)
  unfolding known check_version
  checked none = failed
  checked (some snap) = known (check_version snap)

  -- what is read of a file, or of none
  unfoldable pub load_from : Option (List ℕ) → IoResult (EngineState D T)
  unfolding checked is_utf8
  load_from none = failed
  load_from (some text) = if is_utf8 text then checked (format.state_of text) else failed

  unfoldable pub load_state : Text → Files → IoResult (EngineState D T)
  unfolding load_from
  load_state path files = load_from (lookup path files)
