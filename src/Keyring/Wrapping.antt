-- ===== src/Keyring/Wrapping.antt =====
-- wrapKey and unwrap, Encrypt and Decrypt of internal/keyring/keyring.go: a sealed text opens under
-- its key, and a new wrap opens under its secret.
use manualbox.Prelude.{
  ◌<◌, ◌≡◌, refl, sym, ap, ◌∙◌, true, false, some, ◌++◌, ok, err, Bool-cases, inl, inr, ltb, arith,
}
use manualbox.Prelude.Text.{Text, text, text_eq}
use manualbox.Prelude.Lists.{length, take, drop, take-append, drop-append, length-append}
use manualbox.Keyring.{
  Wrap, KeyringError, failure, Keyring, is_empty, Crypto, data_key_size, nonce_size, kdf_memory,
  kdf_time, kdf_threads, passphrase_kek, operational_kek, wrap_key, open_sealed, unwrap,
}
use manualbox.Keyring.Opening.{kek_for, open_wrap}
use manualbox.Keyring.Changing.{WrapCall, passphrase_wrap, operational_wrap}
use manualbox.Keyring.Sealing.{encrypt, decrypt}

module _ (c : Crypto) where
  -- What is behind a nonce of the right size is opened with it.
  pub open_sealed-seal :
      (key n p : Text)
      → c.is_aes_key key ≡ true
      → length n ≡ nonce_size
      → open_sealed c key (n ++ c.seal key n p) ≡ ok p
  unfolding open_sealed
  open_sealed-seal key n p h e =
      let sealed = c.seal key n p in
      let long : ltb (length (n ++ sealed)) nonce_size ≡ false =
        ground (arith, length-append n sealed) in
      let front : take nonce_size (n ++ sealed) ≡ n = rw (sym e) (take-append n sealed) in
      let back : drop nonce_size (n ++ sealed) ≡ sealed = rw (sym e) (drop-append n sealed) in
      rw (long, front, back, c.unseal-seal key n p h e)

  wrap_key-inv :
      (kek n dk sealed : Text)
      → wrap_key c kek (some n) dk ≡ ok sealed
      → (c.is_aes_key kek ≡ true) × (sealed ≡ c.encode_std (n ++ c.seal kek n dk))
  unfolding wrap_key
  wrap_key-inv kek n dk sealed h = ground arith

  pub unwrap-wrap_key :
      (kek n dk sealed : Text) (w : Wrap)
      → length n ≡ nonce_size
      → wrap_key c kek (some n) dk ≡ ok sealed
      → w.ciphertext ≡ sealed
      → unwrap c kek w ≡ ok dk
  unfolding unwrap
  unwrap-wrap_key kek n dk sealed w e h k =
      let (good, made) = wrap_key-inv kek n dk sealed h in
      let read : c.decode_raw_std w.ciphertext ≡ some (n ++ c.seal kek n dk) =
        ap c.decode_raw_std (k ∙ made) ∙ c.decode-encode_std (n ++ c.seal kek n dk) in
      rw (read, unwrap) (rw good (open_sealed-seal kek n dk good e))

  -- A wrap of a passphrase opens under that passphrase, whatever operational key comes with it.
  pub open_wrap-passphrase_wrap :
      (call : WrapCall) (salt n p label dk sealed o : Text)
      → length n ≡ nonce_size
      → is_empty p ≡ false
      → wrap_key c (c.id_key p salt kdf_time kdf_memory kdf_threads data_key_size) (some n) dk
        ≡ ok sealed
      → open_wrap c
          (record { passphrase = p; operational_key = o })
          (passphrase_wrap c call salt label sealed)
        ≡ some dk
  unfolding open_wrap kek_for passphrase_kek text_eq
  open_wrap-passphrase_wrap call salt n p label dk sealed o e h k =
      let w = passphrase_wrap c call salt label sealed in
      let kek = c.id_key p salt kdf_time kdf_memory kdf_threads data_key_size in
      let key : kek_for c (record { passphrase = p; operational_key = o }) w ≡ some kek =
        rw (h, kek_for) (rw (c.decode-encode_std salt, passphrase_kek) refl) in
      rw (key, open_wrap) (rw (unwrap-wrap_key kek n dk sealed w e k refl) refl)

  -- A wrap of an operational key opens under that key, whatever passphrase comes with it.
  pub open_wrap-operational_wrap :
      (call : WrapCall) (kek n key label dk sealed p : Text)
      → length n ≡ nonce_size
      → is_empty key ≡ false
      → operational_kek c key ≡ ok kek
      → wrap_key c kek (some n) dk ≡ ok sealed
      → open_wrap c
          (record { passphrase = p; operational_key = key })
          (operational_wrap call label sealed)
        ≡ some dk
  unfolding open_wrap kek_for text_eq
  open_wrap-operational_wrap call kek n key label dk sealed p e h d k =
      let w = operational_wrap call label sealed in
      let found : kek_for c (record { passphrase = p; operational_key = key }) w ≡ some kek =
        rw (h, kek_for) (rw d refl) in
      rw (found, open_wrap) (rw (unwrap-wrap_key kek n dk sealed w e k refl) refl)

  -- What Encrypt returns for a nonce of 12 bytes, Decrypt turns back into the plaintext.
  pub decrypt-encrypt :
      (k : Keyring) (n plaintext sealed : Text)
      → length n ≡ nonce_size
      → encrypt c (some n) plaintext k ≡ ok sealed
      → decrypt c sealed k ≡ ok plaintext
  unfolding decrypt
  decrypt-encrypt k n plaintext sealed e h =
      let (good, made) : (c.is_aes_key k.data_key ≡ true)
          × (sealed ≡ n ++ c.seal k.data_key n plaintext) =
        unfold encrypt in ground arith in
      rw made (rw (good, decrypt) (open_sealed-seal k.data_key n plaintext good e))

  -- A text shorter than a nonce is refused, not sliced.
  pub decrypt-short :
      (k : Keyring) (sealed : Text)
      → length sealed < nonce_size
      → (e : KeyringError) × (decrypt c sealed k ≡ err e)
  unfolding decrypt open_sealed
  decrypt-short k sealed h = elim (Bool-cases (c.is_aes_key k.data_key)) [
    | inl e ↦ (failure (text "keyring: ciphertext is too short"), ground arith)
    | inr e ↦ (failure (text "keyring: init cipher"), ground arith)
  ]
