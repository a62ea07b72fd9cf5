-- ===== src/Keyring/Opening.antt =====
-- Open and Verify of internal/keyring/keyring.go.
use manualbox.Prelude.{
  Bool, false, Option, none, some, List, [], ◌∷◌, Result, ok, err, if◌then◌else◌, ◌==◌,
}
use manualbox.Prelude.Int.{ℤ, pos, negsuc}
use manualbox.Prelude.Text.{Text, text, text_eq}
use manualbox.Prelude.Lists.{length}
use manualbox.Keyring.{
  Wrap, KeyFile, KeyringError, locked, wrong_secret, last_wrap, not_found, no_wrap, failure,
  Keyring, Secrets, is_empty, Crypto, kind_passphrase, kind_operational, passphrase_kek,
  operational_kek, unwrap,
}
use manualbox.Keyring.Disk.{Disk, read_file}

-- The value of a call whose error is passed over by `continue`.
abbrev pub value_of : Result KeyringError Text → Option Text
value_of (ok k) = some k
value_of (err e) = none

-- The switch on the kind of a wrap: the key that encrypts it, or `none` for the next wrap.
unfoldable pub kek_for : Crypto → Secrets → Wrap → Option Text
kek_for c s w =
    if text_eq w.kind kind_passphrase
    then (if is_empty s.passphrase then none else value_of (passphrase_kek c s.passphrase w))
    else if text_eq w.kind kind_operational
    then (if is_empty s.operational_key
        then none
        else value_of (operational_kek c s.operational_key))
    else none

-- One turn of the loop of Open.
unfoldable pub open_wrap : Crypto → Secrets → Wrap → Option Text
open_wrap c s w = elim (kek_for c s w) [ none ↦ none | some kek ↦ value_of (unwrap c kek w) ]

-- The loop of Open.
unfoldable pub first_key : Crypto → Secrets → List Wrap → Option Text
first_key c s [] = none
first_key c s (w ∷ ws) = elim (open_wrap c s w) [ some dk ↦ some dk | none ↦ first_key c s ws ]

abbrev pub is_version_one : ℤ → Bool
is_version_one (pos n) = n == 1
is_version_one (negsuc n) = false

-- Open, from the parsed file on.
unfoldable pub unlock : Crypto → Text → Secrets → KeyFile → Result KeyringError Keyring
unfolding first_key
unlock c path s f =
    if is_version_one f.version
    then if length f.wraps == 0
      then err (failure (text "keyring: no wraps"))
      else elim (first_key c s f.wraps) [
        | none ↦ err locked
        | some dk ↦ ok (record { data_key = dk; file = f; path = path })
      ]
    else err (failure (text "keyring: unsupported keyring version"))

-- Open
unfoldable pub open_keyring :
    Crypto → Option Text → Text → Secrets → Disk → Result KeyringError Keyring
unfolding unlock
open_keyring c fault path s d = elim (read_file fault path d) [
  | err e ↦ err e
  | ok bytes ↦ elim (c.unmarshal bytes) [
    | none ↦ err (failure (text "keyring: parse"))
    | some f ↦ unlock c path s f
  ]
]

-- The errors of Open as Verify returns them.
unfoldable pub as_verify_error : KeyringError → KeyringError
as_verify_error locked = wrong_secret
as_verify_error wrong_secret = wrong_secret
as_verify_error last_wrap = last_wrap
as_verify_error (not_found p) = not_found p
as_verify_error (no_wrap i) = no_wrap i
as_verify_error (failure m) = failure m

-- Verify
unfoldable pub verify : Crypto → Option Text → Secrets → Keyring → Disk → Option KeyringError
unfolding open_keyring as_verify_error
verify c fault s k d = elim (open_keyring c fault k.path s d) [
  | err e ↦ some (as_verify_error e)
  | ok other ↦ if text_eq other.data_key k.data_key then none else some wrong_secret
]
