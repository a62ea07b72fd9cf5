-- ===== src/Keyring/Sealing.antt =====
-- Encrypt, Decrypt and Index of internal/keyring/keyring.go.
use manualbox.Prelude.{Option, none, some, ◌++◌, Result, ok, err, if◌then◌else◌}
use manualbox.Prelude.Text.{Text, text}
use manualbox.Store.{hex_encode}
use manualbox.Keyring.{KeyringError, failure, Keyring, Crypto, open_sealed}

-- Encrypt, given the nonce that rand.Read makes, if it does
unfoldable pub encrypt : Crypto → Option Text → Text → Keyring → Result KeyringError Text
encrypt c nonce plaintext k =
    if c.is_aes_key k.data_key
    then elim nonce [
      | none ↦ err (failure (text "keyring: generate nonce"))
      | some n ↦ ok (n ++ c.seal k.data_key n plaintext)
    ]
    else err (failure (text "keyring: init cipher"))

-- Decrypt
unfoldable pub decrypt : Crypto → Text → Keyring → Result KeyringError Text
unfolding open_sealed
decrypt c sealed k =
    if c.is_aes_key k.data_key
    then open_sealed c k.data_key sealed
    else err (failure (text "keyring: init cipher"))

-- subkey
unfoldable pub subkey : Crypto → Text → Keyring → Result KeyringError Text
subkey c purpose k = elim (c.hkdf k.data_key purpose 32) [
  | err m ↦ err (failure m)
  | ok key ↦ ok key
]

-- Index
unfoldable pub index : Crypto → Text → Keyring → Result KeyringError Text
unfolding subkey
index c value k = elim (subkey c (text "manualbox/index/v1") k) [
  | err e ↦ err e
  | ok key ↦ ok (hex_encode (c.hmac key value))
]
