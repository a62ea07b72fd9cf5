-- ===== src/Keyring/Creation.antt =====
-- Create of internal/keyring/keyring.go: the locks of a keyring that it returns, and its file.
use manualbox.Prelude.{
  ◌≡◌, ◌≢◌, refl, sym, ap, ◌∙◌, false, ◌&&◌, Option, none, some, List, [], ◌∷◌, ◌++◌, Option-cases,
  Bool-cases, Result-cases, inl, inr, if◌then◌else◌, Result, ok, err, ok-injective, err-ok, arith,
}
use mathlib.Core.List.{append-nil}
use mathlib.Core.Path.{subst}
use manualbox.Prelude.Int.{pos}
use manualbox.Prelude.Text.{Text, text, text_eq}
use manualbox.Prelude.Lists.{length}
use manualbox.Keyring.{
  KeyringError, failure, Keyring, Secrets, is_empty, Crypto, kind_passphrase, kind_operational,
}
use manualbox.Keyring.Disk.{Entry, Disk, save}
use manualbox.Keyring.Changing.{
  WrapCall, add_passphrase_wrap, add_operational_wrap, CreateCall, passphrase_first,
  operational_next, first_wraps, settled, create,
}
use manualbox.Keyring.Saving.{written, save-IsAtomic, IsAtomic}
use manualbox.Keyring.Locks.{by_passphrase, by_operational, Lock}
use manualbox.Keyring.Growing.{
  HasNonce, lock_for, IsLocked, IsExtended-IsLocked, add_passphrase_wrap-IsExtended,
  add_operational_wrap-IsExtended,
}

-- The locks that Create makes.
abbrev pub passphrase_locks : WrapCall → Text → List Lock
passphrase_locks call p = if is_empty p then [] else lock_for call (by_passphrase p) ∷ []

abbrev pub operational_locks : WrapCall → Text → List Lock
operational_locks call key = if is_empty key then [] else lock_for call (by_operational key) ∷ []

abbrev pub locks_of : CreateCall → Secrets → List Lock
locks_of call s =
    passphrase_locks call.passphrase_call s.passphrase
    ++ operational_locks call.operational_call s.operational_key

abbrev pub HasNonces : CreateCall → Type 0
HasNonces call = HasNonce call.passphrase_call × HasNonce call.operational_call

module _ (c : Crypto) (dk path : Text) (labels : Text → Text) where
  passphrase_first-IsLocked :
      (call : WrapCall) (p : Text) (k k' : Keyring)
      → HasNonce call
      → IsLocked c dk path [] k
      → passphrase_first c call p labels k ≡ ok k'
      → IsLocked c dk path (passphrase_locks call p) k'
  unfolding passphrase_first
  passphrase_first-IsLocked call p k k' v h e = elim (Bool-cases (is_empty p)) [
    | inl q ↦
        let made : passphrase_first c call p labels k ≡ ok k = rw q refl in
        rw q (subst (λ (x : Keyring). IsLocked c dk path [] x) (ok-injective (sym made ∙ e)) h)
    | inr q ↦
        let made : passphrase_first c call p labels k
            ≡ add_passphrase_wrap c call p (labels kind_passphrase) k =
          rw q refl in
        rw q (
          IsExtended-IsLocked c dk path [] (lock_for call (by_passphrase p)) k k' h (
            add_passphrase_wrap-IsExtended c call p (labels kind_passphrase) k k' v q
              (sym made ∙ e)))
  ]

  operational_next-IsLocked :
      (call : WrapCall) (key : Text) (ls : List Lock) (k k' : Keyring)
      → HasNonce call
      → IsLocked c dk path ls k
      → operational_next c call key labels k ≡ ok k'
      → IsLocked c dk path (ls ++ operational_locks call key) k'
  unfolding operational_next
  operational_next-IsLocked call key ls k k' v h e = elim (Bool-cases (is_empty key)) [
    | inl q ↦
        let made : operational_next c call key labels k ≡ ok k = rw q refl in
        rw (q, append-nil ls)
          (subst (λ (x : Keyring). IsLocked c dk path ls x) (ok-injective (sym made ∙ e)) h)
    | inr q ↦
        let made : operational_next c call key labels k
            ≡ add_operational_wrap c call key (labels kind_operational) k =
          rw q refl in
        rw q (
          IsExtended-IsLocked c dk path ls (lock_for call (by_operational key)) k k' h (
            add_operational_wrap-IsExtended c call key (labels kind_operational) k k' v q
              (sym made ∙ e)))
  ]

  first_wraps-IsLocked :
      (call : CreateCall) (s : Secrets) (k k' : Keyring)
      → HasNonces call
      → IsLocked c dk path [] k
      → first_wraps c call s labels k ≡ ok k'
      → IsLocked c dk path (locks_of call s) k'
  unfolding first_wraps
  first_wraps-IsLocked call s k k' v h e =
      elim (Result-cases (passphrase_first c call.passphrase_call s.passphrase labels k)) [
        | inl (x, q) ↦
            let made : first_wraps c call s labels k ≡ err x = rw (q, first_wraps) refl in
            err-ok made e
        | inr (k1, q) ↦
            let made : first_wraps c call s labels k
                ≡ operational_next c call.operational_call s.operational_key labels k1 =
              rw (q, first_wraps) refl in
            operational_next-IsLocked call.operational_call s.operational_key
              (passphrase_locks call.passphrase_call s.passphrase) k1 k' v.1
              (passphrase_first-IsLocked call.passphrase_call s.passphrase k k1 v.0 h q)
              (sym made ∙ e)
      ]

-- What a successful Create leaves: a data key behind the locks of the secrets, in memory and on disk.
pub record IsCreated (c : Crypto) (call : CreateCall) (path : Text) (s : Secrets) (k : Keyring)
    (d : Disk) : Type 0 where
  pub drawn : call.data_key ≡ some k.data_key
  pub locked : IsLocked c k.data_key path (locks_of call s) k
  pub on_disk : d path ≡ some (written c k.file)
  pub some_lock : length (locks_of call s) ≢ 0

module _ (c : Crypto) (call : CreateCall) (path : Text) (s : Secrets) (labels : Text → Text) where
  -- The other ways out of Create return no keyring.
  no_keyring :
      {C : Type 0} (d d' : Disk) (e : KeyringError) (k : Keyring)
      → ◌≡◌ {A = Disk × Result KeyringError Keyring} (d, err e) (d', ok k)
      → C
  no_keyring d d' e k h = err-ok refl (ap (λ (r : Disk × Result KeyringError Keyring). r.1) h)

  settled-on_disk :
      (k k' : Keyring) (d d' : Disk) (r : Disk × Option KeyringError) (e : Entry)
      → IsAtomic d path e r
      → settled k r ≡ (d', ok k')
      → (k ≡ k') × (d' path ≡ some e)
  unfolding settled
  settled-on_disk k k' d d' (d1, none) e a h = (
    ok-injective (ap (λ (r : Disk × Result KeyringError Keyring). r.1) h),
    ap (λ (r : Disk × Result KeyringError Keyring). r.0 path) (sym h) ∙ a,
  )
  settled-on_disk k k' d d' (d1, some x) e a h = no_keyring d1 d' x k' h

  new_keyring : Text → Keyring
  new_keyring dk = record {
    data_key = dk;
    file = record { version = pos 1; wraps = [] };
    path = path;
  }

  some_lock :
      is_empty s.passphrase && is_empty s.operational_key ≡ false → length (locks_of call s) ≢ 0
  some_lock q = λ e. ground arith

  IsCreated-of :
      (dk : Text) (k1 k : Keyring) (d : Disk)
      → call.data_key ≡ some dk
      → IsLocked c dk path (locks_of call s) k1
      → k1 ≡ k
      → d path ≡ some (written c k1.file)
      → is_empty s.passphrase && is_empty s.operational_key ≡ false
      → IsCreated c call path s k d
  IsCreated-of dk k1 k d r l same there q =
      let l' = subst (λ (x : Text). IsLocked c x path (locks_of call s) k1) (sym l.same_key) l in
      let made : IsCreated c call path s k1 d = record {
        drawn = r ∙ ap some (sym l.same_key);
        locked = l';
        on_disk = there;
        some_lock = some_lock q;
      } in
      subst (λ (x : Keyring). IsCreated c call path s x d) same made

  -- A call of Create that returns a keyring has drawn its data key, has a wrap for each secret that
  -- is not empty, at least one, and has written the file; for nonces of 12 bytes and a temporary file
  -- beside the keyring.
  pub create-IsCreated :
      (d d' : Disk) (k : Keyring)
      → HasNonces call
      → text_eq path call.save_call.temp_name ≡ false
      → create c call path s labels d ≡ (d', ok k)
      → IsCreated c call path s k d'
  unfolding create new_keyring
  create-IsCreated d d' k v t e =
      elim (Bool-cases (is_empty s.passphrase && is_empty s.operational_key)) [
        | inl q ↦
            no_keyring d d'
              (failure (text "keyring: a passphrase or an operational key is required")) k
              (sym (rw (q, create) refl) ∙ e)
        | inr q ↦ elim (Option-cases call.data_key) [
          | inl r ↦
              no_keyring d d' (failure (text "keyring: generate data key")) k
                (sym (rw (q, create) (rw r refl)) ∙ e)
          | inr (dk, r) ↦ elim (Result-cases (first_wraps c call s labels (new_keyring dk))) [
            | inl (x, f) ↦ no_keyring d d' x k (sym (rw (q, create) (rw r (rw f refl))) ∙ e)
            | inr (k1, f) ↦
                let l =
                  first_wraps-IsLocked c dk path labels call s (new_keyring dk) k1 v
                    (record { same_key = refl; same_path = refl; version = refl; wraps = tt }) f in
                let made : create c call path s labels d
                    ≡ settled k1 (save c call.save_call k1.path k1.file d) =
                  rw (q, create) (rw r (rw f refl)) in
                let made' =
                  ap (λ (p : Text). settled k1 (save c call.save_call p k1.file d)) l.same_path in
                let (same, there) =
                  settled-on_disk k1 k d d' (save c call.save_call path k1.file d)
                    (written c k1.file) (save-IsAtomic c call.save_call path d k1.file t)
                    (sym made' ∙ (sym made ∙ e)) in
                IsCreated-of dk k1 k d' r l same there q
          ]
        ]
      ]
