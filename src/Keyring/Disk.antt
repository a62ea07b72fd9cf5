-- ===== src/Keyring/Disk.antt =====
-- The file system as save and Open of internal/keyring/keyring.go use it: files by path. Each system
-- call has an argument for its failure. Directories are not modelled, except that making one can
-- fail.
use manualbox.Prelude.{ℕ, Bool, Option, none, some, ◌++◌, Result, ok, err, if◌then◌else◌}
use manualbox.Prelude.Text.{Text, text, text_eq}
use manualbox.Prelude.Lists.{take}
use manualbox.Keyring.{KeyFile, KeyringError, failure, not_found, Crypto}

pub record Entry : Type 0 where
  pub content : Text
  pub mode : ℕ

abbrev pub Disk : Type 0
Disk = Text → Option Entry

abbrev pub set_entry : Text → Option Entry → Disk → Disk
set_entry p e d q = if text_eq q p then e else d q

-- What the environment does in one call of save.
pub record SaveCall : Type 0 where
  pub temp_name : Text
  pub mkdir_fault : Option Text
  pub create_fault : Option Text
  pub write_fault : Option (ℕ × Text)
  pub sync_fault : Option Text
  pub close_fault : Option Text
  pub chmod_fault : Option Text
  pub rename_fault : Option Text
  pub remove_fails : Bool

-- The deferred removal of the temporary file.
unfoldable pub discard : SaveCall → Disk → Disk
discard c d = if c.remove_fails then d else set_entry c.temp_name none d

-- From Rename on; the deferred removal then finds no file.
unfoldable pub commit : SaveCall → Text → Entry → Disk → Disk × Option KeyringError
unfolding discard
commit c path e d = elim c.rename_fault [
  | some m ↦ (discard c d, some (failure m))
  | none ↦ (set_entry path (some e) (set_entry c.temp_name none d), none)
]

-- From Sync on, with the data in the temporary file.
unfoldable pub finish_save : SaveCall → Text → Text → Disk → Disk × Option KeyringError
unfolding commit discard
finish_save c path bytes d = elim c.sync_fault [
  | some m ↦ (discard c d, some (failure m))
  | none ↦ elim c.close_fault [
    | some m ↦ (discard c d, some (failure m))
    | none ↦ elim c.chmod_fault [
      | some m ↦ (discard c d, some (failure m))
      | none ↦
          let e : Entry = record { content = bytes; mode = 384 } in
          commit c path e (set_entry c.temp_name (some e) d)
    ]
  ]
]

-- From CreateTemp on, which makes the file with mode 0600; a write that fails leaves a part.
unfoldable pub write_temp : SaveCall → Text → Text → Disk → Disk × Option KeyringError
unfolding finish_save discard
write_temp c path bytes d = elim c.write_fault [
  | some (n, m) ↦
      let part : Entry = record { content = take n bytes; mode = 384 } in
      (discard c (set_entry c.temp_name (some part) d), some (failure m))
  | none ↦
      let whole : Entry = record { content = bytes; mode = 384 } in
      finish_save c path bytes (set_entry c.temp_name (some whole) d)
]

-- save; json.MarshalIndent has no error for a File.
unfoldable pub save : Crypto → SaveCall → Text → KeyFile → Disk → Disk × Option KeyringError
unfolding write_temp
save cr c path f d = elim c.mkdir_fault [
  | some m ↦ (d, some (failure m))
  | none ↦ elim c.create_fault [
    | some m ↦ (d, some (failure m))
    | none ↦ write_temp c path (cr.marshal f ++ text "\n") d
  ]
]

-- os.ReadFile in Open
unfoldable pub read_file : Option Text → Text → Disk → Result KeyringError Text
read_file (some m) path d = err (failure m)
read_file none path d = elim (d path) [ none ↦ err (not_found path) | some e ↦ ok e.content ]
