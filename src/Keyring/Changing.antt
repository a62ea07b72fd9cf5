-- ===== src/Keyring/Changing.antt =====
-- The operations of internal/keyring/keyring.go that make or change a keyring: Create,
-- AddPassphrase, AddOperationalKey and RemoveWrap. A change to the memory stays when the file cannot
-- be written.
use manualbox.Prelude.{
  ℕ, zero, suc, ◌&&◌, Option, none, some, List, [], ◌∷◌, ◌++◌, Result, ok, err, if◌then◌else◌, ◌==◌,
}
use manualbox.Prelude.Int.{pos}
use manualbox.Prelude.Text.{Text, text, text_eq}
use manualbox.Prelude.Lists.{length}
use manualbox.Keyring.{
  Wrap, KeyFile, KeyringError, last_wrap, no_wrap, failure, Keyring, Secrets, is_empty, Crypto,
  kind_passphrase, kind_operational, kdf_memory, kdf_time, kdf_threads, data_key_size,
  operational_kek, wrap_key, new_id,
}
use manualbox.Keyring.Disk.{Disk, SaveCall, save}

-- The random bytes of one new wrap, where rand.Read returns some, and the time.
pub record WrapCall : Type 0 where
  pub salt : Option Text
  pub nonce : Option Text
  pub id_bytes : Option Text
  pub now : Text

abbrev pub with_wraps : List Wrap → Keyring → Keyring
with_wraps ws k = record k { file = record k.file { wraps = ws } }

-- append(k.file.Wraps, w)
abbrev pub add_wrap : Wrap → Keyring → Keyring
add_wrap w k = with_wraps (k.file.wraps ++ w ∷ []) k

abbrev pub passphrase_wrap : Crypto → WrapCall → Text → Text → Text → Wrap
passphrase_wrap c call salt label sealed = record {
  id = new_id call.id_bytes;
  kind = kind_passphrase;
  label = label;
  created_at = call.now;
  salt = c.encode_std salt;
  kdf_memory = kdf_memory;
  kdf_time = kdf_time;
  kdf_threads = kdf_threads;
  ciphertext = sealed;
}

-- addPassphraseWrap
unfoldable pub add_passphrase_wrap :
    Crypto → WrapCall → Text → Text → Keyring → Result KeyringError Keyring
add_passphrase_wrap c call passphrase label k = elim call.salt [
  | none ↦ err (failure (text "keyring: generate salt"))
  | some salt ↦
      let kek = c.id_key passphrase salt kdf_time kdf_memory kdf_threads data_key_size in
      elim (wrap_key c kek call.nonce k.data_key) [
        | err e ↦ err e
        | ok sealed ↦ ok (add_wrap (passphrase_wrap c call salt label sealed) k)
      ]
]

abbrev pub operational_wrap : WrapCall → Text → Text → Wrap
operational_wrap call label sealed = record {
  id = new_id call.id_bytes;
  kind = kind_operational;
  label = label;
  created_at = call.now;
  salt = [];
  kdf_memory = 0;
  kdf_time = 0;
  kdf_threads = 0;
  ciphertext = sealed;
}

-- addOperationalWrap
unfoldable pub add_operational_wrap :
    Crypto → WrapCall → Text → Text → Keyring → Result KeyringError Keyring
add_operational_wrap c call key label k = elim (operational_kek c key) [
  | err e ↦ err e
  | ok kek ↦ elim (wrap_key c kek call.nonce k.data_key) [
    | err e ↦ err e
    | ok sealed ↦ ok (add_wrap (operational_wrap call label sealed) k)
  ]
]

-- A keyring and the disk after a call, with the error that the call returns.
abbrev pub Changed : Type 0
Changed = (Keyring × Disk) × Option KeyringError

-- The call of save at the end of each change.
unfoldable pub saved : Crypto → SaveCall → Keyring → Disk → Changed
saved c call k d = let (d', e) = save c call k.path k.file d in ((k, d'), e)

unfoldable pub saved_if : Crypto → SaveCall → Keyring → Result KeyringError Keyring → Disk → Changed
unfolding saved
saved_if c call k (err e) d = ((k, d), some e)
saved_if c call k (ok k') d = saved c call k' d

-- AddPassphrase
unfoldable pub add_passphrase :
    Crypto → WrapCall → SaveCall → Text → Text → Keyring → Disk → Changed
unfolding saved_if
add_passphrase c call save_call passphrase label k d =
    if is_empty passphrase
    then ((k, d), some (failure (text "keyring: passphrase must not be empty")))
    else saved_if c save_call k (add_passphrase_wrap c call passphrase label k) d

-- AddOperationalKey
unfoldable pub add_operational_key :
    Crypto → WrapCall → SaveCall → Text → Text → Keyring → Disk → Changed
unfolding saved_if
add_operational_key c call save_call key label k d =
    if is_empty key
    then ((k, d), some (failure (text "keyring: operational key must not be empty")))
    else saved_if c save_call k (add_operational_wrap c call key label k) d

-- slices.IndexFunc for an id, `none` for -1
unfoldable pub index_of : Text → List Wrap → Option ℕ
index_of id [] = none
index_of id (w ∷ ws) =
    let rest = index_of id ws in
    if text_eq w.id id then some 0 else elim rest [ none ↦ none | some i ↦ some (suc i) ]

-- slices.Delete of one element
unfoldable pub delete_at {ℓ} : {A : Type ℓ} → ℕ → List A → List A
delete_at i [] = []
delete_at zero (x ∷ xs) = xs
delete_at (suc i) (x ∷ xs) = x ∷ delete_at i xs

-- RemoveWrap
unfoldable pub remove_wrap : Crypto → SaveCall → Text → Keyring → Disk → Changed
unfolding saved index_of delete_at
remove_wrap c call id k d = elim (index_of id k.file.wraps) [
  | none ↦ ((k, d), some (no_wrap id))
  | some i ↦
      if length k.file.wraps == 1
      then ((k, d), some last_wrap)
      else saved c call (with_wraps (delete_at i k.file.wraps) k) d
]

-- What the environment does in one call of Create.
pub record CreateCall : Type 0 where
  pub data_key : Option Text
  pub passphrase_call : WrapCall
  pub operational_call : WrapCall
  pub save_call : SaveCall

-- The two wraps of Create, each only for a secret that is there. `labels` is a map with the empty
-- label for a missing key.
unfoldable pub passphrase_first :
    Crypto → WrapCall → Text → (Text → Text) → Keyring → Result KeyringError Keyring
passphrase_first c call passphrase labels k =
    if is_empty passphrase
    then ok k
    else add_passphrase_wrap c call passphrase (labels kind_passphrase) k

unfoldable pub operational_next :
    Crypto → WrapCall → Text → (Text → Text) → Keyring → Result KeyringError Keyring
operational_next c call key labels k =
    if is_empty key then ok k else add_operational_wrap c call key (labels kind_operational) k

unfoldable pub first_wraps :
    Crypto → CreateCall → Secrets → (Text → Text) → Keyring → Result KeyringError Keyring
unfolding passphrase_first operational_next
first_wraps c call s labels k =
    elim (passphrase_first c call.passphrase_call s.passphrase labels k) [
      | err e ↦ err e
      | ok k' ↦ operational_next c call.operational_call s.operational_key labels k'
    ]

-- The result of save, as Create returns it: the keyring is returned only when it is on disk.
unfoldable pub settled : Keyring → Disk × Option KeyringError → Disk × Result KeyringError Keyring
settled k (d, none) = (d, ok k)
settled k (d, some e) = (d, err e)

-- Create
unfoldable pub create :
    Crypto → CreateCall → Text → Secrets → (Text → Text) → Disk → Disk × Result KeyringError Keyring
unfolding first_wraps settled
create c call path s labels d =
    if is_empty s.passphrase && is_empty s.operational_key
    then (d, err (failure (text "keyring: a passphrase or an operational key is required")))
    else elim call.data_key [
      | none ↦ (d, err (failure (text "keyring: generate data key")))
      | some dk ↦
          let f : KeyFile = record { version = pos 1; wraps = [] } in
          let k : Keyring = record { data_key = dk; file = f; path = path } in
          elim (first_wraps c call s labels k) [
            | err e ↦ (d, err e)
            | ok k' ↦ settled k' (save c call.save_call k'.path k'.file d)
          ]
    ]
