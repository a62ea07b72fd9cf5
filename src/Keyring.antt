-- ===== src/Keyring.antt =====
-- internal/keyring/keyring.go: the data key and its wraps. The primitives (crypto/aes and
-- crypto/cipher, crypto/hkdf, crypto/hmac, argon2, encoding/base64, encoding/json) are parameters;
-- random bytes and the clock are arguments of each call.
pub mod Disk
pub mod Wrapping
pub mod Opening
pub mod Changing
pub mod Locks
pub mod Saving
pub mod Growing
pub mod Creation
pub mod Totality
pub mod Refinement
pub mod Recovery
pub mod Sealing
use manualbox.Prelude.{
  ℕ, ◌*◌, ◌≡◌, Bool, true, false, not, ◌&&◌, ◌||◌, Option, none, some, List, [], ◌∷◌, ◌++◌, map,
  Result, ok, err, if◌then◌else◌, ltb, ◌==◌,
}
use manualbox.Prelude.Int.{ℤ, pos, negsuc}
use manualbox.Prelude.Text.{Text, text, text_eq}
use manualbox.Prelude.Lists.{length, take, drop}
use manualbox.Store.{hex_encode, join}

-- Sizes, in bytes, and the cost of the key derivation.
abbrev pub data_key_size : ℕ
data_key_size = 32

abbrev pub salt_size : ℕ
salt_size = 16

abbrev pub nonce_size : ℕ
nonce_size = 12

abbrev pub kdf_memory : ℕ
kdf_memory = 256 * 1024

abbrev pub kdf_time : ℕ
kdf_time = 4

abbrev pub kdf_threads : ℕ
kdf_threads = 4

-- Kinds of wraps
abbrev pub kind_passphrase : Text
kind_passphrase = text "passphrase"

abbrev pub kind_operational : Text
kind_operational = text "operational"

-- Wrap
pub record Wrap : Type 0 where
  pub id : Text
  pub kind : Text
  pub label : Text
  pub created_at : Text
  pub salt : Text
  pub kdf_memory : ℕ
  pub kdf_time : ℕ
  pub kdf_threads : ℕ
  pub ciphertext : Text

-- File
pub record KeyFile : Type 0 where
  pub version : ℤ
  pub wraps : List Wrap

-- The errors. `failure` is a message that no caller tells from another.
pub data KeyringError : Type 0 where
  locked wrong_secret last_wrap : KeyringError
  not_found no_wrap : Text → KeyringError
  failure : Text → KeyringError

-- Keyring
pub record Keyring : Type 0 where
  pub data_key : Text
  pub file : KeyFile
  pub path : Text

-- Secrets
pub record Secrets : Type 0 where
  pub passphrase : Text
  pub operational_key : Text

abbrev pub is_empty : Text → Bool
is_empty t = text_eq t []

-- Path
abbrev pub keyring_path : Text → Text
keyring_path data_dir = join data_dir (text "keyring.json")

-- The libraries. A key of 32 bytes is good for AES; what was sealed opens under the same key and
-- nonce; a text that was encoded decodes; JSON gives back a file whose strings are valid UTF-8.
pub record Crypto : Type 0 where
  -- aes.NewCipher and cipher.NewGCM take the key
  pub is_aes_key : Text → Bool
  pub is_aes_key_of_size : (k : Text) → length k ≡ data_key_size → is_aes_key k ≡ true
  -- Seal and Open of the AEAD: key, nonce, text
  pub seal : Text → Text → Text → Text
  pub unseal : Text → Text → Text → Option Text
  pub unseal-seal :
      (k n p : Text)
      → is_aes_key k ≡ true
      → length n ≡ nonce_size
      → unseal k n (seal k n p) ≡ some p
  -- hkdf.Key: secret, purpose, size
  pub hkdf : Text → Text → ℕ → Result Text Text
  pub hkdf_size : (s info k : Text) (n : ℕ) → hkdf s info n ≡ ok k → length k ≡ n
  -- argon2.IDKey: passphrase, salt, time, memory, threads, size
  pub id_key : Text → Text → ℕ → ℕ → ℕ → ℕ → Text
  pub id_key_size : (p s : Text) (t m h n : ℕ) → length (id_key p s t m h n) ≡ n
  -- HMAC with SHA-256: key, message
  pub hmac : Text → Text → Text
  -- base64.RawStdEncoding
  pub encode_std : Text → Text
  pub decode_raw_std : Text → Option Text
  pub decode-encode_std : (b : Text) → decode_raw_std (encode_std b) ≡ some b
  -- base64.RawURLEncoding and base64.StdEncoding
  pub encode_url : Text → Text
  pub decode_raw_url : Text → Option Text
  pub decode-encode_url : (b : Text) → decode_raw_url (encode_url b) ≡ some b
  pub decode_std : Text → Option Text
  -- json.MarshalIndent and json.Unmarshal of a File; trailing white space is skipped
  pub is_utf8 : KeyFile → Bool
  pub marshal : KeyFile → Text
  pub unmarshal : Text → Option KeyFile
  pub unmarshal-marshal :
      (f : KeyFile) → is_utf8 f ≡ true → unmarshal (marshal f ++ text "\n") ≡ some f

-- newID
unfoldable pub new_id : Option Text → Text
new_id none = text "wrap"
new_id (some raw) = text "wrap_" ++ hex_encode raw

-- NewOperationalKey
unfoldable pub new_operational_key : Crypto → Option Text → Result KeyringError Text
new_operational_key c none = err (failure (text "keyring: generate operational key"))
new_operational_key c (some raw) = ok (c.encode_url raw)

-- Has
unfoldable pub has_wrap : Text → List Wrap → Bool
has_wrap kind [] = false
has_wrap kind (w ∷ ws) = text_eq w.kind kind || has_wrap kind ws

abbrev pub has : Text → Keyring → Bool
has kind k = has_wrap kind k.file.wraps

-- Wraps
abbrev pub redacted : Wrap → Wrap
redacted w = record w { ciphertext = []; salt = [] }

abbrev pub wraps_of : Keyring → List Wrap
wraps_of k = map redacted k.file.wraps

-- passphraseKEK
unfoldable pub passphrase_kek : Crypto → Text → Wrap → Result KeyringError Text
passphrase_kek c passphrase w = elim (c.decode_raw_std w.salt) [
  | none ↦ err (failure (text "keyring: decode salt"))
  | some salt ↦
      if w.kdf_memory == 0 || (w.kdf_time == 0 || w.kdf_threads == 0)
      then err (failure (text "keyring: wrap is missing its KDF parameters"))
      else ok (c.id_key passphrase salt w.kdf_time w.kdf_memory w.kdf_threads data_key_size)
]

abbrev pub operational_purpose : Text
operational_purpose = text "manualbox/operational-kek/v1"

-- The part of operationalKEK after the decoding.
unfoldable pub derived_kek : Crypto → Text → Result KeyringError Text
derived_kek c raw =
    if ltb (length raw) 16
    then err (failure (text "keyring: operational key is too short"))
    else elim (c.hkdf raw operational_purpose data_key_size) [
      | err m ↦ err (failure m)
      | ok kek ↦ ok kek
    ]

-- operationalKEK
unfoldable pub operational_kek : Crypto → Text → Result KeyringError Text
unfolding derived_kek
operational_kek c key = elim (c.decode_raw_url key) [
  | some raw ↦ derived_kek c raw
  | none ↦ elim (c.decode_std key) [
    | none ↦ err (failure (text "keyring: operational key is not valid base64"))
    | some raw ↦ derived_kek c raw
  ]
]

-- wrapKey, given the nonce that rand.Read makes, if it does
unfoldable pub wrap_key : Crypto → Text → Option Text → Text → Result KeyringError Text
wrap_key c kek nonce data_key =
    if c.is_aes_key kek
    then elim nonce [
      | none ↦ err (failure (text "keyring: generate wrap nonce"))
      | some n ↦ ok (c.encode_std (n ++ c.seal kek n data_key))
    ]
    else err (failure (text "keyring: init wrap cipher"))

-- The nonce at the front of a sealed text, and the opening of the rest.
unfoldable pub open_sealed : Crypto → Text → Text → Result KeyringError Text
open_sealed c key sealed =
    if ltb (length sealed) nonce_size
    then err (failure (text "keyring: ciphertext is too short"))
    else elim (c.unseal key (take nonce_size sealed) (drop nonce_size sealed)) [
      | none ↦ err (failure (text "keyring: decrypt"))
      | some p ↦ ok p
    ]

-- unwrap
unfoldable pub unwrap : Crypto → Text → Wrap → Result KeyringError Text
unfolding open_sealed
unwrap c kek w = elim (c.decode_raw_std w.ciphertext) [
  | none ↦ err (failure (text "illegal base64 data"))
  | some sealed ↦
      if c.is_aes_key kek
      then open_sealed c kek sealed
      else err (failure (text "crypto/aes: invalid key size"))
]
