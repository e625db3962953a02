-- ===== src/Tests/FileTests.antt =====
-- Examples of the theorems on the files.
use hfmcbot.Prelude.{ℕ, ◌≡◌, ◌<◌, refl, ap, arith, true, [], ◌∷◌, some, length}
use hfmcbot.Prelude.Int.{ℤ}
use hfmcbot.Prelude.Text.{bytes}
use hfmcbot.Borsh.{is_utf8}
use hfmcbot.Engine.Book.{state}
use hfmcbot.Engine.State.{new}
use hfmcbot.Persist.{EngineState}
use hfmcbot.Persist.Files.{Faults, Files, Format, tmp_path, save_state}
use hfmcbot.Persist.Saving.{IsAtomic, save_state-IsAtomic}
use hfmcbot.Platform.Sample.{whole_dollars, unix_seconds}
use hfmcbot.Tests.{paper_config, one_lot, one_lot_executor}

abbrev snap : EngineState ℤ ℕ
snap = state (new paper_config one_lot [] 1000)

-- a format that knows one snapshot
abbrev one_text : Format ℤ ℕ
one_text = record {
  record_text = λ r. bytes "record";
  state_text = λ s. bytes "snapshot";
  state_of = λ text. some snap;
}

-- the disk is full after five bytes
abbrev full_disk : Faults
full_disk = record {
  dir_made = true;
  opened = true;
  written = some 5;
  flushed = true;
  renamed = true;
}

abbrev old_files : Files
old_files = (bytes "data/state.json", bytes "old") ∷ []

fewer : (m n : ℕ) → m < n → m ≡ n → ⊥
fewer m n h same = omega arith

save_state-IsAtomic_example :
    IsAtomic one_text
      (bytes "data/state.json")
      snap
      old_files
      (save_state one_text (bytes "data/state.json") 7 snap full_disk old_files)
unfolding is_utf8 tmp_path state
save_state-IsAtomic_example =
    save_state-IsAtomic one_text (bytes "data/state.json") 7 snap
      (record { reads_back = refl; is_text = refl }) full_disk old_files refl
      (λ same. fewer 15 16 (omega arith) (ap length same))
