-- ===== src/Tests/Keyrings.antt =====
-- A keyring with a passphrase and an operational key, on concrete libraries.
use manualbox.Prelude.{◌≡◌, refl, sym, ap, false, none, some, List, [], ◌∷◌, ◌++◌, ok, inr}
use mathlib.Core.List.{Memᴰ}
use manualbox.Prelude.Int.{pos}
use manualbox.Prelude.Text.{Text, text, text_eq}
use manualbox.Prelude.Lists.{length}
use manualbox.Store.{hex_digit, hex_encode}
use manualbox.Keyring.{
  Wrap, Keyring, Secrets, new_id, passphrase_kek, operational_kek, derived_kek, wrap_key,
  open_sealed, unwrap,
}
use manualbox.Keyring.Disk.{Disk, SaveCall, commit, finish_save, write_temp, save}
use manualbox.Keyring.Opening.{kek_for, open_wrap, open_keyring, verify}
use manualbox.Keyring.Changing.{
  WrapCall, add_passphrase_wrap, add_operational_wrap, CreateCall, passphrase_first,
  operational_next, first_wraps, settled, create,
}
use manualbox.Keyring.Sealing.{encrypt}
use manualbox.Keyring.Locks.{by_operational, secrets_with, Lock, OnlyOpens}
use manualbox.Keyring.Growing.{HasNonce, lock_for}
use manualbox.Keyring.Creation.{HasNonces, locks_of, IsCreated, create-IsCreated}
use manualbox.Keyring.Refinement.{Command, adds_passphrase, removes}
use manualbox.Keyring.Recovery.{open-create, unlock-stored}
use manualbox.Keyring.Saving.{written, IsAtomic, save-IsAtomic}
use manualbox.Keyring.Totality.{IsDrawn, IsCalm, IsUsable}
use manualbox.Tests.Codecs.{fit, boxes}

abbrev twelve : Text
twelve = text "twelve bytes"

abbrev key_path : Text
key_path = text "/d/keyring.json"

abbrev bare_save : SaveCall
bare_save = record {
  temp_name = text "/d/.keyring-1";
  mkdir_fault = none;
  create_fault = none;
  write_fault = none;
  sync_fault = none;
  close_fault = none;
  chmod_fault = none;
  rename_fault = none;
  remove_fails = false;
}

abbrev draw : WrapCall
draw = record {
  salt = some (text "s");
  nonce = some twelve;
  id_bytes = some (1 ∷ []);
  now = text "2026";
}

abbrev create_call : CreateCall
create_call = record {
  data_key = some (text "0123456789abcdef0123456789abcdef");
  passphrase_call = draw;
  operational_call = draw;
  save_call = bare_save;
}

abbrev both : Secrets
both = record { passphrase = text "open"; operational_key = text "operational-key-1" }

abbrev labels : Text → Text
labels kind = text "l"

abbrev empty_disk : Disk
empty_disk p = none

abbrev key_text : Text
key_text = text "0123456789abcdef0123456789abcdef"

abbrev first_wrap : Wrap
first_wrap = record {
  id = text "wrap_01";
  kind = text "passphrase";
  label = text "l";
  created_at = text "2026";
  salt = text "s";
  kdf_memory = 262144;
  kdf_time = 4;
  kdf_threads = 4;
  ciphertext = twelve ++ (fit 32 (text "open") ++ key_text);
}

abbrev second_wrap : Wrap
second_wrap = record {
  id = text "wrap_01";
  kind = text "operational";
  label = text "l";
  created_at = text "2026";
  salt = [];
  kdf_memory = 0;
  kdf_time = 0;
  kdf_threads = 0;
  ciphertext = twelve ++ (fit 32 (text "operational-key-1") ++ key_text);
}

abbrev two_locks : Keyring
two_locks = record {
  data_key = key_text;
  file = record { version = pos 1; wraps = first_wrap ∷ second_wrap ∷ [] };
  path = key_path;
}

abbrev saved_disk : Disk
saved_disk = (create boxes create_call key_path both labels empty_disk).0

has_nonce : HasNonce draw
has_nonce n e = let q : twelve ≡ n = cc in sym (ap length q)

has_nonces : HasNonces create_call
has_nonces = (has_nonce, has_nonce)

beside : text_eq key_path bare_save.temp_name ≡ false
unfolding text_eq
beside = refl

created_two : create boxes create_call key_path both labels empty_disk ≡ (saved_disk, ok two_locks)
unfolding create first_wraps passphrase_first operational_next add_passphrase_wrap
    add_operational_wrap settled save write_temp finish_save commit wrap_key operational_kek
    derived_kek new_id hex_encode hex_digit text_eq
created_two = refl

-- The operational key opens the keyring beside a wrong passphrase.
abbrev key_lock : Lock
key_lock = lock_for draw (by_operational (text "operational-key-1"))

abbrev mixed : Secrets
mixed = secrets_with key_lock.way (text "wrong")

-- Neither wrap opens with another key than the data key.
only_key : OnlyOpens boxes key_text mixed (first_wrap ∷ second_wrap ∷ [])
unfolding open_wrap kek_for passphrase_kek operational_kek derived_kek unwrap open_sealed text_eq
only_key = ((λ k e. cc), ((λ k e. cc), tt))

open-create_example : open_keyring boxes none key_path mixed saved_disk ≡ ok two_locks
unfolding text_eq
open-create_example =
    open-create boxes create_call key_path both labels empty_disk saved_disk two_locks has_nonces
      beside created_two key_lock (text "wrong") (Memᴰ.tail (Memᴰ.head refl)) refl only_key

-- A second passphrase, whose file cannot be renamed, and the removal of the first.
abbrev commands : List Command
commands =
    adds_passphrase draw (record bare_save { rename_fault = some (text "EIO") }) (text "more")
      (text "m")
    ∷ removes bare_save (text "wrap_01")
    ∷ []

two_locks_locked : IsCreated boxes create_call key_path both two_locks saved_disk
two_locks_locked =
    create-IsCreated boxes create_call key_path both labels empty_disk saved_disk two_locks
      has_nonces beside created_two

unlock-stored_example :
    (open_keyring boxes none key_path mixed saved_disk ≡ ok two_locks)
    × (verify boxes none mixed two_locks saved_disk ≡ none)
unfolding text_eq
unlock-stored_example =
    unlock-stored boxes key_text key_path (locks_of create_call both) two_locks two_locks saved_disk
      key_lock (text "wrong") two_locks_locked.locked two_locks_locked.some_lock
      two_locks_locked.on_disk refl (Memᴰ.tail (Memᴰ.head refl)) only_key refl refl

abbrev removal : Command
removal = removes bare_save (text "wrap_01")

save-IsAtomic_example :
    IsAtomic saved_disk key_path
      (written boxes two_locks.file)
      (save boxes bare_save key_path two_locks.file saved_disk)
save-IsAtomic_example = save-IsAtomic boxes bare_save key_path saved_disk two_locks.file beside

encrypted_serial :
    encrypt boxes (some twelve) (text "SN-1") two_locks ≡ ok (twelve ++ (key_text ++ text "SN-1"))
unfolding encrypt
encrypted_serial = refl

draw-IsDrawn : IsDrawn draw
draw-IsDrawn = record { salt = text "s"; nonce = twelve; salt_drawn = refl; nonce_drawn = refl }

bare_save-IsCalm : IsCalm bare_save
bare_save-IsCalm = record {
  mkdir = refl;
  create = refl;
  write = refl;
  sync = refl;
  close = refl;
  chmod = refl;
  rename = refl;
}

both_IsUsable : IsUsable boxes both.operational_key
unfolding operational_kek derived_kek
both_IsUsable = inr (fit 32 (text "operational-key-1"), refl)
