-- ===== src/Keyring/Refinement.antt =====
-- AddPassphrase, AddOperationalKey and RemoveWrap of internal/keyring/keyring.go as changes of a list
-- of locks.
use manualbox.Prelude.{◌≡◌, ◌≢◌, false, Option, some, List, [], ◌∷◌, ◌++◌}
use manualbox.Prelude.Text.{Text, text_eq}
use manualbox.Prelude.Lists.{length}
use manualbox.Keyring.{KeyringError, Keyring, Crypto}
use manualbox.Keyring.Disk.{Disk, SaveCall}
use manualbox.Keyring.Changing.{WrapCall, Changed, add_passphrase, add_operational_key, remove_wrap}
use manualbox.Keyring.Saving.{written, IsAtomic}
use manualbox.Keyring.Locks.{by_passphrase, by_operational, Lock, remove_lock}
use manualbox.Keyring.Growing.{HasNonce, lock_for, IsLocked}

-- A call of an operation that changes a keyring.
pub data Command : Type 0 where
  adds_passphrase adds_operational : WrapCall → SaveCall → Text → Text → Command
  removes : SaveCall → Text → Command

abbrev pub save_of : Command → SaveCall
save_of (adds_passphrase w s p label) = s
save_of (adds_operational w s key label) = s
save_of (removes s id) = s

unfoldable pub run_command : Crypto → Command → Keyring → Disk → Changed
run_command c (adds_passphrase w s p label) k d = add_passphrase c w s p label k d
run_command c (adds_operational w s key label) k d = add_operational_key c w s key label k d
run_command c (removes s id) k d = remove_wrap c s id k d

-- What a command that returns an error or none may do to the locks: add its own lock, or remove the
-- lock of its id while another is left, or, with an error, nothing.
pub data Change : Command → Option KeyringError → List Lock → List Lock → Type 0 where
  stays : {m : Command} {e : KeyringError} {ls : List Lock} → Change m (some e) ls ls
  locks_passphrase :
      {w : WrapCall} {s : SaveCall} {p label : Text} {e : Option KeyringError} {ls : List Lock}
      → Change (adds_passphrase w s p label) e ls (ls ++ lock_for w (by_passphrase p) ∷ [])
  locks_operational :
      {w : WrapCall} {s : SaveCall} {key label : Text} {e : Option KeyringError} {ls : List Lock}
      → Change (adds_operational w s key label) e ls (ls ++ lock_for w (by_operational key) ∷ [])
  unlocks :
      {s : SaveCall} {id : Text} {e : Option KeyringError} {ls : List Lock}
      → length (remove_lock id ls) ≢ 0
      → Change (removes s id) e ls (remove_lock id ls)

-- The random bytes of a command fill its nonce, and its temporary file is not the keyring.
abbrev pub IsFair : Text → Command → Type 0
IsFair path (adds_passphrase w s p label) = HasNonce w × (text_eq path s.temp_name ≡ false)
IsFair path (adds_operational w s key label) = HasNonce w × (text_eq path s.temp_name ≡ false)
IsFair path (removes s id) = text_eq path s.temp_name ≡ false

module _ (c : Crypto) (dk path : Text) where
  -- The result of a command on a keyring with locks: a change of the locks that the keyring in memory
  -- implements, and a file that is the new one if no error is returned and the old one otherwise.
  abbrev pub Refines : Command → List Lock → Disk → Changed → Type 0
  Refines m ls d ((k, d'), e) =
      (ls' : List Lock) × Change m e ls ls'
      × IsLocked c dk path ls' k
      × (length ls' ≢ 0)
      × IsAtomic d path (written c k.file) (d', e)
