-- ===== src/Keyring/Saving.antt =====
-- save of internal/keyring/keyring.go: what is at the keyring's path after a save, whatever system
-- call fails.
use manualbox.Prelude.{◌≡◌, false, Option, none, some, ◌++◌, arith}
use manualbox.Prelude.Text.{Text, text, text_eq, text_eq_refl, text_eq_iff}
use manualbox.Keyring.{KeyFile, KeyringError, Crypto}
use manualbox.Keyring.Disk.{Entry, Disk, SaveCall, discard, commit, finish_save, write_temp, save}

-- The file that save writes: the JSON text and a newline, readable by the owner alone.
abbrev pub written : Crypto → KeyFile → Entry
written cr f = record { content = cr.marshal f ++ text "\n"; mode = 384 }

-- The path's entry after a save that returns an error, and after one that does not.
abbrev pub IsAtomic : Disk → Text → Entry → Disk × Option KeyringError → Type 0
IsAtomic d path e (d', none) = d' path ≡ some e
IsAtomic d path e (d', some x) = d' path ≡ d path

module _ (cr : Crypto) (c : SaveCall) (path : Text) (d : Disk) where
  -- A save leaves the old entry at the path when it returns an error, and the whole new file when it
  -- returns none, for a temporary file with another name than the path.
  pub save-IsAtomic :
      (f : KeyFile)
      → text_eq path c.temp_name ≡ false
      → IsAtomic d path (written cr f) (save cr c path f d)
  unfolding save write_temp finish_save commit discard
  save-IsAtomic f h = ground (arith, text_eq_refl path)

  -- A save whose temporary file is new and is removed when the save fails changes no other path than
  -- the keyring's.
  pub save_elsewhere :
      (f : KeyFile) (q : Text)
      → d c.temp_name ≡ none
      → c.remove_fails ≡ false
      → text_eq q path ≡ false
      → (save cr c path f d).0 q ≡ d q
  unfolding save write_temp finish_save commit discard
  save_elsewhere f q h r e = ground (arith, (text_eq_iff q c.temp_name).0)
