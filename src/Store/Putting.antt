-- ===== src/Store/Putting.antt =====
-- Put of internal/store/store.go. A copy that fails part of the way leaves what was written in the
-- temporary file. `meanwhile` is what other processes do to the file system during the call, from
-- the test for the blob to the rename.
use manualbox.Prelude.{
  ℕ, Bool, true, false, ◌&&◌, not, Option, none, some, ◌++◌, Result, ok, err, if◌then◌else◌,
}
use manualbox.Prelude.Text.{Text, text}
use manualbox.Prelude.Lists.{length, take}
use manualbox.Store.{
  Sha256, digest_of, StoreError, system, Ref, path_for, File, Fs, put_file, temp_entry,
}

pub record PutCall : Type 0 where
  pub random : Text
  pub create_fault : Option Text
  pub copy_fault : Option (ℕ × Text)
  pub sync_fault : Option Text
  pub close_fault : Option Text
  pub stat_fails : Bool
  pub mkdir_fault : Option Text
  pub meanwhile : Fs → Fs
  pub rename_fault : Option Text
  pub stat_again_fails : Bool
  pub chmod_fault : Option Text
  pub remove_fails : Bool

-- The name that os.CreateTemp makes of the pattern.
abbrev pub temp_path : Text → PutCall → Text
temp_path root c = temp_entry root (text "upload-" ++ c.random)

-- The deferred removal of the temporary file.
unfoldable pub discard : Text → PutCall → Fs → Fs
discard root c fs = if c.remove_fails then fs else put_file (temp_path root c) none fs

abbrev pub is_there : Option File → Bool
is_there none = false
is_there (some f) = true

-- os.Rename, which fails if there is no file to rename.
unfoldable pub rename : Option Text → Text → Text → Fs → Result StoreError Fs
rename (some m) p q fs = err (system m)
rename none p q fs = elim (fs p) [
  | none ↦ err (system (text "no such file or directory"))
  | some f ↦ ok (put_file q (some f) (put_file p none fs))
]

-- os.Chmod(final, 0o400)
abbrev pub protect : Option File → Option File
protect none = none
protect (some f) = some (record f { read_only = true })

unfoldable pub after_rename : PutCall → Ref → Text → Fs → Fs × Result StoreError Ref
after_rename c ref final fs = elim c.chmod_fault [
  | some m ↦ (fs, err (system m))
  | none ↦ (put_file final (protect (fs final)) fs, ok ref)
]

-- From the rename on.
unfoldable pub place : Text → PutCall → Ref → Text → Fs → Fs × Result StoreError Ref
unfolding after_rename
place root c ref final fs = elim (rename c.rename_fault (temp_path root c) final fs) [
  | ok fs' ↦ after_rename c ref final fs'
  | err e ↦
      if is_there (fs final) && not c.stat_again_fails
      then (discard root c fs, ok ref)
      else (discard root c fs, err e)
]

-- From the call of pathFor on.
unfoldable pub install : Text → PutCall → Ref → Fs → Fs × Result StoreError Ref
unfolding place
install root c ref fs = elim (path_for root ref.sha256) [
  | err e ↦ (discard root c fs, err e)
  | ok final ↦
      if is_there (fs final) && not c.stat_fails
      then (discard root c fs, ok ref)
      else elim c.mkdir_fault [
        | some m ↦ (discard root c fs, err (system m))
        | none ↦ place root c ref final (c.meanwhile fs)
      ]
]

-- From the end of the copy on: Sync, Close and the rest.
unfoldable pub seal : Sha256 → Text → PutCall → Text → Fs → Fs × Result StoreError Ref
unfolding install
seal h root c bytes fs = elim c.sync_fault [
  | some m ↦ (discard root c fs, err (system m))
  | none ↦ elim c.close_fault [
    | some m ↦ (discard root c fs, err (system m))
    | none ↦ install root c (record { sha256 = digest_of h bytes; size = length bytes }) fs
  ]
]

abbrev pub upload : Text → PutCall → Text → Fs → Fs
upload root c bytes fs =
    put_file (temp_path root c) (some (record { content = bytes; read_only = false })) fs

-- Put of the bytes that the reader gives.
unfoldable pub put : Sha256 → Text → PutCall → Text → Fs → Fs × Result StoreError Ref
unfolding seal
put h root c bytes fs = elim c.create_fault [
  | some m ↦ (fs, err (system m))
  | none ↦ elim c.copy_fault [
    | some (n, m) ↦ (discard root c (upload root c (take n bytes) fs), err (system m))
    | none ↦ seal h root c bytes (upload root c bytes fs)
  ]
]
