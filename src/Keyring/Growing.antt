-- ===== src/Keyring/Growing.antt =====
-- The new wraps of addPassphraseWrap and addOperationalWrap of internal/keyring/keyring.go as locks.
use manualbox.Prelude.{
  ◌≡◌, refl, sym, ap, ◌∙◌, false, some, List, [], ◌∷◌, ◌++◌, Option-cases, Result-cases, inl, inr,
  ok, err, ok-injective, err-ok, arith,
}
use mathlib.Core.Path.{subst}
use manualbox.Prelude.Int.{pos}
use manualbox.Prelude.Text.{Text}
use manualbox.Prelude.Lists.{length}
use manualbox.Keyring.{
  Wrap, Keyring, is_empty, Crypto, data_key_size, nonce_size, kdf_memory, kdf_time, kdf_threads,
  operational_kek, wrap_key, new_id,
}
use manualbox.Keyring.Changing.{
  WrapCall, add_wrap, passphrase_wrap, operational_wrap, add_passphrase_wrap, add_operational_wrap,
}
use manualbox.Keyring.Wrapping.{open_wrap-passphrase_wrap, open_wrap-operational_wrap}
use manualbox.Keyring.Locks.{
  Way, by_passphrase, by_operational, Lock, Opens, Implements, Implements-append,
}

-- The random bytes that rand.Read makes for a nonce fill it.
abbrev pub HasNonce : WrapCall → Type 0
HasNonce call = (n : Text) → call.nonce ≡ some n → length n ≡ nonce_size

abbrev pub lock_for : WrapCall → Way → Lock
lock_for call way = record { id = new_id call.id_bytes; way = way }

-- A keyring with one more wrap, which opens under a secret.
abbrev pub IsExtended : Crypto → Lock → Keyring → Keyring → Type 0
IsExtended c l k k' = (w : Wrap) × (k' ≡ add_wrap w k) × Opens c k.data_key l w

-- A keyring in memory that implements locks for a data key.
pub record IsLocked (c : Crypto) (dk path : Text) (ls : List Lock) (k : Keyring) : Type 0 where
  pub same_key : k.data_key ≡ dk
  pub same_path : k.path ≡ path
  pub version : k.file.version ≡ pos 1
  pub wraps : Implements c dk ls k.file.wraps

pub IsExtended-IsLocked :
    (c : Crypto) (dk path : Text) (ls : List Lock) (l : Lock) (k k' : Keyring)
    → IsLocked c dk path ls k
    → IsExtended c l k k'
    → IsLocked c dk path (ls ++ l ∷ []) k'
IsExtended-IsLocked c dk path ls l k k' v (w, e, o) =
    let o' : Opens c dk l w = subst (λ (x : Text). Opens c x l w) v.same_key o in
    let grown : IsLocked c dk path (ls ++ l ∷ []) (add_wrap w k) = record {
      same_key = v.same_key;
      same_path = v.same_path;
      version = v.version;
      wraps = Implements-append c dk ls k.file.wraps l w v.wraps o';
    } in
    subst (λ (x : Keyring). IsLocked c dk path (ls ++ l ∷ []) x) (sym e) grown

module _ (c : Crypto) (call : WrapCall) where
  wrap_key-nonce :
      (kek dk sealed : Text)
      → wrap_key c kek call.nonce dk ≡ ok sealed
      → (n : Text) × (call.nonce ≡ some n) × (wrap_key c kek (some n) dk ≡ ok sealed)
  wrap_key-nonce kek dk sealed h = elim (Option-cases call.nonce) [
    | inl e ↦ unfold wrap_key in ground arith
    | inr (n, e) ↦ (n, e, ap (λ x. wrap_key c kek x dk) (sym e) ∙ h)
  ]

  pub add_passphrase_wrap-IsExtended :
      (p label : Text) (k k' : Keyring)
      → HasNonce call
      → is_empty p ≡ false
      → add_passphrase_wrap c call p label k ≡ ok k'
      → IsExtended c (lock_for call (by_passphrase p)) k k'
  unfolding add_passphrase_wrap
  add_passphrase_wrap-IsExtended p label k k' v h e = elim (Option-cases call.salt) [
    | inl s ↦ ground arith
    | inr (salt, s) ↦
        let kek = c.id_key p salt kdf_time kdf_memory kdf_threads data_key_size in
        elim (Result-cases (wrap_key c kek call.nonce k.data_key)) [
          | inl (x, q) ↦
              let made : add_passphrase_wrap c call p label k ≡ err x =
                rw (s, add_passphrase_wrap) (rw q refl) in
              err-ok made e
          | inr (sealed, q) ↦
              let (n, m, q') = wrap_key-nonce kek k.data_key sealed q in
              let w = passphrase_wrap c call salt label sealed in
              let made : add_passphrase_wrap c call p label k ≡ ok (add_wrap w k) =
                rw (s, add_passphrase_wrap) (rw q refl) in
              (
                w,
                sym (ok-injective (sym made ∙ e)),
                (
                  refl,
                  λ o.
                      open_wrap-passphrase_wrap c call salt n p label k.data_key sealed o (v n m) h
                        q',
                ),
              )
        ]
  ]

  pub add_operational_wrap-IsExtended :
      (key label : Text) (k k' : Keyring)
      → HasNonce call
      → is_empty key ≡ false
      → add_operational_wrap c call key label k ≡ ok k'
      → IsExtended c (lock_for call (by_operational key)) k k'
  unfolding add_operational_wrap
  add_operational_wrap-IsExtended key label k k' v h e =
      elim (Result-cases (operational_kek c key)) [
        | inl (x, s) ↦
            let made : add_operational_wrap c call key label k ≡ err x =
              rw (s, add_operational_wrap) refl in
            err-ok made e
        | inr (kek, s) ↦ elim (Result-cases (wrap_key c kek call.nonce k.data_key)) [
          | inl (x, q) ↦
              let made : add_operational_wrap c call key label k ≡ err x =
                rw (s, add_operational_wrap) (rw q refl) in
              err-ok made e
          | inr (sealed, q) ↦
              let (n, m, q') = wrap_key-nonce kek k.data_key sealed q in
              let w = operational_wrap call label sealed in
              let made : add_operational_wrap c call key label k ≡ ok (add_wrap w k) =
                rw (s, add_operational_wrap) (rw q refl) in
              (
                w,
                sym (ok-injective (sym made ∙ e)),
                (
                  refl,
                  λ o.
                      open_wrap-operational_wrap c call kek n key label k.data_key sealed o (v n m)
                        h s q',
                ),
              )
        ]
      ]
