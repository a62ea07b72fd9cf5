-- ===== src/Keyring/Recovery.antt =====
-- Histories of the operations of internal/keyring/keyring.go on a keyring, and what Open and Verify
-- do after them.
use manualbox.Prelude.{
  ◌≡◌, ◌≢◌, refl, sym, ap, ◌∙◌, true, false, Option, none, some, List, [], ◌∷◌, ◌++◌, Result, ok,
  arith, ◌==◌,
}
use mathlib.Core.List.{Memᴰ}
use manualbox.Prelude.Text.{Text, text, text_eq, text_eq_iff}
use manualbox.Prelude.Lists.{length}
use manualbox.Keyring.{KeyringError, Keyring, Secrets, Crypto}
use manualbox.Keyring.Disk.{Disk, read_file}
use manualbox.Keyring.Opening.{is_version_one, first_key, unlock, open_keyring, verify}
use manualbox.Keyring.Changing.{CreateCall, create}
use manualbox.Keyring.Saving.{written}
use manualbox.Keyring.Locks.{secrets_with, Lock, Implements-length, OnlyOpens, first_key-Implements}
use manualbox.Keyring.Growing.{IsLocked}
use manualbox.Keyring.Creation.{HasNonces, locks_of, create-IsCreated}
use manualbox.Keyring.Refinement.{Command, run_command, Change}

-- What a command returned: nil or an error.
abbrev pub Returned : Type 0
Returned = Option KeyringError

-- The keyring and the disk after commands in a row, none of which is left out for an error of an
-- earlier one, and what they returned.
unfoldable pub run : Crypto → List Command → Keyring → Disk → (Keyring × Disk) × List Returned
run c [] k d = ((k, d), [])
run c (m ∷ ms) k d =
    let ((k', d'), e) = run_command c m k d in let (end, es) = run c ms k' d' in (end, e ∷ es)

-- Commands, what they returned, and the locks in memory and those on disk before and after them: a
-- command that returned no error brings the disk to the memory, and one that returned an error
-- leaves the disk.
pub data Trace
    : List Command → List Returned → List Lock → List Lock → List Lock → List Lock → Type 0 where
  done : {ls ds : List Lock} → Trace [] [] ls ds ls ds
  fails :
      {m : Command} {ms : List Command} {e : KeyringError} {es : List Returned}
      {ls ls' ds xs ys : List Lock}
      → Change m (some e) ls ls'
      → Trace ms es ls' ds xs ys
      → Trace (m ∷ ms) (some e ∷ es) ls ds xs ys
  saves :
      {m : Command} {ms : List Command} {es : List Returned} {ls ls' ds xs ys : List Lock}
      → Change m none ls ls'
      → Trace ms es ls' ls' xs ys
      → Trace (m ∷ ms) (none ∷ es) ls ds xs ys

module _ (c : Crypto) (dk path : Text) where
  -- The file at the path is that of a keyring with these locks, and there is one.
  abbrev pub IsStored : List Lock → Disk → Type 0
  IsStored ds d =
      (k : Keyring) × IsLocked c dk path ds k × (d path ≡ some (written c k.file)) × (length ds ≢ 0)

  -- What a history leaves.
  abbrev pub IsRecoverable :
      List Command → List Lock → List Lock → (Keyring × Disk) × List Returned → Type 0
  IsRecoverable ms ls ds ((k, d), es) =
      (ls' : List Lock) × (ds' : List Lock) × Trace ms es ls ds ls' ds'
      × IsLocked c dk path ls' k
      × IsStored ds' d

  unlock-IsLocked :
      (ds : List Lock) (k : Keyring) (s : Secrets)
      → IsLocked c dk path ds k
      → length ds ≢ 0
      → first_key c s k.file.wraps ≡ some dk
      → unlock c path s k.file ≡ ok k
  unfolding unlock
  unlock-IsLocked ds k s h n found =
      let some_wrap : (length k.file.wraps == 0) ≡ false =
        ground (arith, Implements-length c dk ds k.file.wraps h.wraps) in
      let key : ◌≡◌ {A = Result KeyringError Keyring}
          (ok (record { data_key = dk; file = k.file; path = path }))
          (ok (record { data_key = k.data_key; file = k.file; path = path })) =
        ap (λ (x : Text). ok (record { data_key = x; file = k.file; path = path }))
          (sym h.same_key) in
      let whole : ◌≡◌ {A = Result KeyringError Keyring}
          (ok (record { data_key = k.data_key; file = k.file; path = path })) (ok k) =
        ap (λ (x : Text). ok (record { data_key = k.data_key; file = k.file; path = x }))
          (sym h.same_path) in
      rw (ap is_version_one h.version, unlock) (rw some_wrap (rw found (key ∙ whole)))

  open-stored :
      (ds : List Lock) (k : Keyring) (d : Disk) (l : Lock) (other : Text)
      → IsLocked c dk path ds k
      → length ds ≢ 0
      → d path ≡ some (written c k.file)
      → c.is_utf8 k.file ≡ true
      → Memᴰ l ds
      → OnlyOpens c dk (secrets_with l.way other) k.file.wraps
      → open_keyring c none path (secrets_with l.way other) d ≡ ok k
  unfolding open_keyring read_file
  open-stored ds k d l other h n there plain m o =
      let s = secrets_with l.way other in
      let read : read_file none path d ≡ ok (c.marshal k.file ++ text "\n") =
        rw (there, read_file) refl in
      let found = first_key-Implements c dk ds k.file.wraps l other h.wraps m o in
      rw (read, open_keyring)
        (rw (c.unmarshal-marshal k.file plain) (unlock-IsLocked ds k s h n found))

  verify-stored :
      (ds : List Lock) (k k' : Keyring) (d : Disk) (s : Secrets)
      → IsLocked c dk path ds k
      → k'.data_key ≡ dk
      → k'.path ≡ path
      → open_keyring c none path s d ≡ ok k
      → verify c none s k' d ≡ none
  unfolding verify
  verify-stored ds k k' d s h key p e =
      let found : open_keyring c none k'.path s d ≡ ok k =
        ap (λ (x : Text). open_keyring c none x s d) p ∙ e in
      let same : text_eq k.data_key k'.data_key ≡ true =
        (text_eq_iff k.data_key k'.data_key).1 (h.same_key ∙ sym key) in
      rw (found, verify) (rw same refl)

  -- From the file of a keyring with locks, one at least, Open makes that keyring of any secrets that
  -- hold the secret of one of its locks, and Verify accepts those secrets for every keyring with the
  -- same path and data key. The strings of the file are valid UTF-8, and no wrap of it opens under
  -- the secrets with another key.
  pub unlock-stored :
      (ds : List Lock) (k k' : Keyring) (d : Disk) (l : Lock) (other : Text)
      → IsLocked c dk path ds k
      → length ds ≢ 0
      → d path ≡ some (written c k.file)
      → c.is_utf8 k.file ≡ true
      → Memᴰ l ds
      → OnlyOpens c dk (secrets_with l.way other) k.file.wraps
      → k'.data_key ≡ dk
      → k'.path ≡ path
      → (open_keyring c none path (secrets_with l.way other) d ≡ ok k)
        × (verify c none (secrets_with l.way other) k' d ≡ none)
  unlock-stored ds k k' d l other h n there plain m o key p =
      let e = open-stored ds k d l other h n there plain m o in
      (e, verify-stored ds k k' d (secrets_with l.way other) h key p e)

module _ (c : Crypto) (call : CreateCall) (path : Text) (s : Secrets) (labels : Text → Text)
    (d d' : Disk) (k : Keyring) (v : HasNonces call)
    (t : text_eq path call.save_call.temp_name ≡ false)
    (e : create c call path s labels d ≡ (d', ok k)) where
  -- After a Create that returns a keyring, Open makes the same keyring of any secrets that hold the
  -- passphrase or the operational key of Create that is not empty. The random bytes fill the nonces,
  -- the temporary file has another name, the strings of the file are valid UTF-8, and no wrap of it
  -- opens under the secrets with another key.
  pub open-create :
      (l : Lock) (other : Text)
      → Memᴰ l (locks_of call s)
      → c.is_utf8 k.file ≡ true
      → OnlyOpens c k.data_key (secrets_with l.way other) k.file.wraps
      → open_keyring c none path (secrets_with l.way other) d' ≡ ok k
  open-create l other m plain o =
      let i = create-IsCreated c call path s labels d d' k v t e in
      open-stored c k.data_key path (locks_of call s) k d' l other i.locked i.some_lock i.on_disk
        plain m o
