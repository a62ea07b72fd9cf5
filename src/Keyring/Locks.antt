-- ===== src/Keyring/Locks.antt =====
-- The abstract view of a keyring: one data key behind a list of locks, each with the secret that
-- opens it. Salts, nonces, key derivation and labels are forgotten.
use manualbox.Prelude.{
  ℕ, zero, suc, ◌≡◌, refl, sym, ap, ◌∙◌, true, false, none, some, List, [], ◌∷◌, ◌++◌, Option-cases,
  inl, inr, if◌then◌else◌, arith,
}
use mathlib.Core.List.{Memᴰ}
use manualbox.Prelude.Text.{Text, text_eq}
use manualbox.Prelude.Lists.{length}
use manualbox.Keyring.{Wrap, Secrets, Crypto}
use manualbox.Keyring.Opening.{open_wrap, first_key}
use manualbox.Keyring.Changing.{index_of, delete_at}

pub data Way : Type 0 where
  by_passphrase by_operational : Text → Way

-- The secret of a way, with any secret of the other kind beside it.
abbrev pub secrets_with : Way → Text → Secrets
secrets_with (by_passphrase p) other = record { passphrase = p; operational_key = other }
secrets_with (by_operational k) other = record { passphrase = other; operational_key = k }

pub record Lock : Type 0 where
  pub id : Text
  pub way : Way

-- A wrap that implements a lock for a data key.
abbrev pub Opens : Crypto → Text → Lock → Wrap → Type 0
Opens c dk l w =
    (w.id ≡ l.id) × ((other : Text) → open_wrap c (secrets_with l.way other) w ≡ some dk)

-- Each wrap implements the lock at its place.
abbrev pub Implements : Crypto → Text → List Lock → List Wrap → Type 0
Implements c dk [] [] = Unit
Implements c dk [] (w ∷ ws) = ⊥
Implements c dk (l ∷ ls) [] = ⊥
Implements c dk (l ∷ ls) (w ∷ ws) = Opens c dk l w × Implements c dk ls ws

-- The locks without the first of an id.
unfoldable pub remove_lock : Text → List Lock → List Lock
remove_lock id [] = []
remove_lock id (l ∷ ls) = if text_eq l.id id then ls else l ∷ remove_lock id ls

module _ (c : Crypto) (dk : Text) where
  pub Implements-length :
      (ls : List Lock) (ws : List Wrap) → Implements c dk ls ws → length ls ≡ length ws
  Implements-length [] [] h = refl
  Implements-length [] (w ∷ ws) h = elim h [ ]
  Implements-length (l ∷ ls) [] h = elim h [ ]
  Implements-length (l ∷ ls) (w ∷ ws) h = ap suc (Implements-length ls ws h.1)

  pub Implements-append :
      (ls : List Lock) (ws : List Wrap) (l : Lock) (w : Wrap)
      → Implements c dk ls ws
      → Opens c dk l w
      → Implements c dk (ls ++ l ∷ []) (ws ++ w ∷ [])
  Implements-append [] [] l w h k = (k, tt)
  Implements-append [] (y ∷ ws) l w h k = elim h [ ]
  Implements-append (x ∷ ls) [] l w h k = elim h [ ]
  Implements-append (x ∷ ls) (y ∷ ws) l w h k = (h.0, Implements-append ls ws l w h.1 k)

  index_of-zero :
      (id : Text) (w : Wrap) (ws : List Wrap)
      → index_of id (w ∷ ws) ≡ some 0
      → text_eq w.id id ≡ true
  unfolding index_of
  index_of-zero id w ws e = ground arith

  index_of-suc :
      (id : Text) (w : Wrap) (ws : List Wrap) (i : ℕ)
      → index_of id (w ∷ ws) ≡ some (suc i)
      → (text_eq w.id id ≡ false) × (index_of id ws ≡ some i)
  unfolding index_of
  index_of-suc id w ws i e = ground arith

  -- Deletion at the index of an id removes the lock of that id.
  pub Implements-delete_at :
      (id : Text) (ls : List Lock) (ws : List Wrap) (i : ℕ)
      → Implements c dk ls ws
      → index_of id ws ≡ some i
      → Implements c dk (remove_lock id ls) (delete_at i ws)
  unfolding delete_at remove_lock
  Implements-delete_at id [] [] i h e = unfold index_of in cc
  Implements-delete_at id [] (w ∷ ws) i h e = elim h [ ]
  Implements-delete_at id (l ∷ ls) [] i h e = elim h [ ]
  Implements-delete_at id (l ∷ ls) (w ∷ ws) zero h e =
      let same : text_eq l.id id ≡ true =
        ap (λ x. text_eq x id) (sym h.0.0) ∙ index_of-zero id w ws e in
      rw same h.1
  Implements-delete_at id (l ∷ ls) (w ∷ ws) (suc i) h e =
      let (other, rest) = index_of-suc id w ws i e in
      let other' : text_eq l.id id ≡ false = ap (λ x. text_eq x id) (sym h.0.0) ∙ other in
      rw other' (h.0, Implements-delete_at id ls ws i h.1 rest)

  pub length-delete_at :
      (id : Text) (ws : List Wrap) (i : ℕ)
      → index_of id ws ≡ some i
      → length ws ≡ suc (length (delete_at i ws))
  unfolding delete_at
  length-delete_at id [] i e = unfold index_of in cc
  length-delete_at id (w ∷ ws) zero e = refl
  length-delete_at id (w ∷ ws) (suc i) e =
      ap suc (length-delete_at id ws i (index_of-suc id w ws i e).1)

  -- No wrap of a list opens under a secret with another key than `dk`.
  abbrev pub OnlyOpens : Secrets → List Wrap → Type 0
  OnlyOpens s [] = Unit
  OnlyOpens s (w ∷ ws) = ((k : Text) → open_wrap c s w ≡ some k → k ≡ dk) × OnlyOpens s ws

  -- A secret that opens one wrap, and no wrap with another key, gives the data key.
  pub first_key-Implements :
      (ls : List Lock) (ws : List Wrap) (l : Lock) (other : Text)
      → Implements c dk ls ws
      → Memᴰ l ls
      → OnlyOpens (secrets_with l.way other) ws
      → first_key c (secrets_with l.way other) ws ≡ some dk
  unfolding first_key
  first_key-Implements [] ws l other h m o = elim m [ ]
  first_key-Implements (l' ∷ ls) [] l other h m o = elim h [ ]
  first_key-Implements (l' ∷ ls) (w ∷ ws) l other h m o =
      elim (Option-cases (open_wrap c (secrets_with l.way other) w)) [
        | inr (k, e) ↦ rw (e, first_key) (ap some (o.0 k e))
        | inl e ↦
            rw (e, first_key)
              (elim m [
                | Memᴰ.head q ↦
                    let other : open_wrap c (secrets_with l.way other) w ≡ some dk =
                      ap (λ (x : Lock). open_wrap c (secrets_with x.way other) w) q ∙ h.0.1 other in
                    let bad : none ≡ some dk = sym e ∙ other in cc
                | Memᴰ.tail m' ↦ first_key-Implements ls ws l other h.1 m' o.1
              ])
      ]
