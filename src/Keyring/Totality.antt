-- ===== src/Keyring/Totality.antt =====
-- Create of internal/keyring/keyring.go returns a keyring when nothing fails.
use manualbox.Prelude.{
  ◌≡◌, refl, sym, ap, ◌∙◌, true, false, ◌&&◌, Option, none, some, [], ◌++◌, Bool-cases,
  Option-cases, err-ok, ◌⊎◌, inl, inr, ok, err, arith,
}
use manualbox.Prelude.Int.{pos}
use manualbox.Prelude.Text.{Text, text}
use manualbox.Prelude.Lists.{length}
use manualbox.Keyring.{
  KeyFile, KeyringError, Keyring, Secrets, is_empty, Crypto, data_key_size, kdf_memory, kdf_time,
  kdf_threads, operational_kek, derived_kek, failure, operational_purpose, wrap_key,
  kind_passphrase, kind_operational,
}
use manualbox.Keyring.Disk.{Disk, SaveCall, commit, finish_save, write_temp, save}
use manualbox.Keyring.Changing.{
  WrapCall, add_wrap, passphrase_wrap, operational_wrap, add_passphrase_wrap, add_operational_wrap,
  CreateCall, passphrase_first, operational_next, first_wraps, settled, create,
}

-- rand.Read returns the bytes of a wrap.
pub record IsDrawn (call : WrapCall) : Type 0 where
  pub salt : Text
  pub nonce : Text
  pub salt_drawn : call.salt ≡ some salt
  pub nonce_drawn : call.nonce ≡ some nonce

-- No system call of a save fails.
pub record IsCalm (c : SaveCall) : Type 0 where
  pub mkdir : c.mkdir_fault ≡ none
  pub create : c.create_fault ≡ none
  pub write : c.write_fault ≡ none
  pub sync : c.sync_fault ≡ none
  pub close : c.close_fault ≡ none
  pub chmod : c.chmod_fault ≡ none
  pub rename : c.rename_fault ≡ none

pub save-IsCalm :
    (cr : Crypto) (c : SaveCall) (path : Text) (f : KeyFile) (d : Disk)
    → IsCalm c
    → (save cr c path f d).1 ≡ none
unfolding save write_temp finish_save commit
save-IsCalm cr c path f d h =
    ground (arith, h.mkdir, h.create, h.write, h.sync, h.close, h.chmod, h.rename)

settled-none : (k : Keyring) (r : Disk × Option KeyringError) → r.1 ≡ none → (settled k r).1 ≡ ok k
unfolding settled
settled-none k (d, none) e = refl
settled-none k (d, some x) e = cc

module _ (c : Crypto) where
  -- A key of 32 bytes wraps any data key.
  wrap_key_total :
      (kek n dk : Text)
      → length kek ≡ data_key_size
      → (sealed : Text) × (wrap_key c kek (some n) dk ≡ ok sealed)
  unfolding wrap_key
  wrap_key_total kek n dk e =
      (c.encode_std (n ++ c.seal kek n dk), rw (c.is_aes_key_of_size kek e) refl)

  derived_kek_size : (raw kek : Text) → derived_kek c raw ≡ ok kek → length kek ≡ data_key_size
  derived_kek_size raw kek e =
      let derived : c.hkdf raw operational_purpose data_key_size ≡ ok kek =
        unfold derived_kek in ground arith in
      c.hkdf_size raw operational_purpose kek data_key_size derived

  operational_kek_size :
      (key kek : Text) → operational_kek c key ≡ ok kek → length kek ≡ data_key_size
  unfolding operational_kek
  operational_kek_size key kek e = elim (Option-cases (c.decode_raw_url key)) [
    | inr (raw, q) ↦
        let made : operational_kek c key ≡ derived_kek c raw = rw (q, operational_kek) refl in
        derived_kek_size raw kek (sym made ∙ e)
    | inl q ↦ elim (Option-cases (c.decode_std key)) [
      | inl r ↦
          let made : operational_kek c key
              ≡ err (failure (text "keyring: operational key is not valid base64")) =
            rw (q, operational_kek) (rw r refl) in
          err-ok made e
      | inr (raw, r) ↦
          let made : operational_kek c key ≡ derived_kek c raw =
            rw (q, operational_kek) (rw r refl) in
          derived_kek_size raw kek (sym made ∙ e)
    ]
  ]

  add_passphrase_wrap_total :
      (call : WrapCall) (p label : Text) (k : Keyring)
      → IsDrawn call
      → (k' : Keyring) × (add_passphrase_wrap c call p label k ≡ ok k')
  unfolding add_passphrase_wrap
  add_passphrase_wrap_total call p label k h =
      let kek = c.id_key p h.salt kdf_time kdf_memory kdf_threads data_key_size in
      let (sealed, e) =
        wrap_key_total kek h.nonce k.data_key
          (c.id_key_size p h.salt kdf_time kdf_memory kdf_threads data_key_size) in
      let made : wrap_key c kek call.nonce k.data_key ≡ ok sealed =
        ap (λ x. wrap_key c kek x k.data_key) h.nonce_drawn ∙ e in
      (
        add_wrap (passphrase_wrap c call h.salt label sealed) k,
        rw (h.salt_drawn, add_passphrase_wrap) (rw made refl),
      )

  add_operational_wrap_total :
      (call : WrapCall) (key kek label : Text) (k : Keyring)
      → IsDrawn call
      → operational_kek c key ≡ ok kek
      → (k' : Keyring) × (add_operational_wrap c call key label k ≡ ok k')
  unfolding add_operational_wrap
  add_operational_wrap_total call key kek label k h q =
      let (sealed, e) = wrap_key_total kek h.nonce k.data_key (operational_kek_size key kek q) in
      let made : wrap_key c kek call.nonce k.data_key ≡ ok sealed =
        ap (λ x. wrap_key c kek x k.data_key) h.nonce_drawn ∙ e in
      (add_wrap (operational_wrap call label sealed) k, rw (q, add_operational_wrap) (rw made refl))

  -- A secret that Create takes: none, or an operational key that operationalKEK takes.
  abbrev pub IsUsable : Text → Type 0
  IsUsable key = (is_empty key ≡ true) ⊎ ((kek : Text) × (operational_kek c key ≡ ok kek))

  passphrase_first_total :
      (call : WrapCall) (p : Text) (labels : Text → Text) (k : Keyring)
      → IsDrawn call
      → (k' : Keyring) × (passphrase_first c call p labels k ≡ ok k')
  unfolding passphrase_first
  passphrase_first_total call p labels k h = elim (Bool-cases (is_empty p)) [
    | inl q ↦ (k, rw q refl)
    | inr q ↦
        let (k', e) = add_passphrase_wrap_total call p (labels kind_passphrase) k h in (k', rw q e)
  ]

  operational_next_total :
      (call : WrapCall) (key : Text) (labels : Text → Text) (k : Keyring)
      → IsDrawn call
      → IsUsable key
      → (k' : Keyring) × (operational_next c call key labels k ≡ ok k')
  unfolding operational_next
  operational_next_total call key labels k h u = elim (Bool-cases (is_empty key)) [
    | inl q ↦ (k, rw q refl)
    | inr q ↦ elim u [
      | inl q' ↦ let bad : true ≡ false = sym q' ∙ q in cc
      | inr (kek, e) ↦
          let (k', e') = add_operational_wrap_total call key kek (labels kind_operational) k h e in
          (k', rw q e')
    ]
  ]

  -- Create returns a keyring when one of the secrets is not empty, the operational key is empty or
  -- one that operationalKEK takes, the random bytes are drawn and no system call of the save fails.
  pub create_total :
      (call : CreateCall) (path dk : Text) (s : Secrets) (labels : Text → Text) (d : Disk)
      → is_empty s.passphrase && is_empty s.operational_key ≡ false
      → IsUsable s.operational_key
      → call.data_key ≡ some dk
      → IsDrawn call.passphrase_call
      → IsDrawn call.operational_call
      → IsCalm call.save_call
      → (k : Keyring) × ((create c call path s labels d).1 ≡ ok k)
  unfolding create
  create_total call path dk s labels d some_secret u drawn h1 h2 calm =
      let k0 : Keyring = record {
        data_key = dk;
        file = record { version = pos 1; wraps = [] };
        path = path;
      } in
      let (k1, e1) = passphrase_first_total call.passphrase_call s.passphrase labels k0 h1 in
      let (k2, e2) =
        operational_next_total call.operational_call s.operational_key labels k1 h2 u in
      let made : first_wraps c call s labels k0 ≡ ok k2 =
        unfold first_wraps in rw (e1, first_wraps) e2 in
      (
        k2,
        rw (some_secret, create)
            (rw drawn (
              rw made (
                settled-none k2 (save c call.save_call k2.path k2.file d)
                  (save-IsCalm c call.save_call k2.path k2.file d calm)))),
      )
