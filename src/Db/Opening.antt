-- ===== src/Db/Opening.antt =====
-- Open and Close of internal/db/db.go: no pool is left open.
use mathlib.Core.Path.{subst}
use manualbox.Prelude.{
  ℕ, sym, ◌+◌, ◌<◌, ◌≡◌, refl, ap, ◌∙◌, false, not, Option, none, some, List, [], ◌∷◌, ok, err,
  Result, if◌then◌else◌, ◌==◌, ◌⊎◌, inl, inr, Bool-cases, Option-cases, arith,
}
use manualbox.Prelude.Text.{Text, text_eq}
use manualbox.Prelude.Lists.{All, keep}
use manualbox.Db.{
  Pools, SqlPool, Db, Options, OpenCall, OpenError, path_required, open_failed, is_memory,
  open_pool, close_pool, max_readers_of, reader_opened, open_reader, writer_opened, open_db,
  close_db,
}

-- Handles are given out in order.
abbrev pub IsFresh : Pools → Type 0
IsFresh ps = All (λ h. h < ps.next) ps.live

keep_others : (n : ℕ) (hs : List ℕ) → All (λ h. h < n) hs → keep (λ h. not (h == n)) hs ≡ hs
unfolding keep
keep_others n [] a = refl
keep_others n (h ∷ hs) a = ground (arith, keep_others n hs a.1)

keep_others_later :
    (n : ℕ) (hs : List ℕ) → All (λ h. h < n) hs → keep (λ h. not (h == n + 1)) hs ≡ hs
unfolding keep
keep_others_later n [] a = refl
keep_others_later n (h ∷ hs) a = ground (arith, keep_others_later n hs a.1)

module _ (n : ℕ) (hs : List ℕ) (a : All (λ h. h < n) hs) where
  drop_first : keep (λ h. not (h == n)) (n ∷ hs) ≡ hs
  unfolding keep
  drop_first = ground (arith, keep_others n hs a)

  drop_reader : keep (λ h. not (h == n + 1)) ((n + 1) ∷ n ∷ hs) ≡ n ∷ hs
  unfolding keep
  drop_reader = ground (arith, keep_others_later n hs a)

  drop_writer : keep (λ h. not (h == n)) ((n + 1) ∷ n ∷ hs) ≡ (n + 1) ∷ hs
  unfolding keep
  drop_writer = ground (arith, keep_others n hs a)

  drop_last : keep (λ h. not (h == n + 1)) ((n + 1) ∷ hs) ≡ hs
  unfolding keep
  drop_last = ground (arith, keep_others_later n hs a)

-- A pool for Open that left none open, or a database whose Close leaves none open.
abbrev Settled : Options → OpenCall → List ℕ → Pools × Result OpenError Db → Type 0
Settled o c hs (ps, err e) = ps.live ≡ hs
Settled o c hs (ps, ok d) =
    (d.write.max_open ≡ 1)
    × (ps.live
        ≡ (if is_memory o.path then d.write.handle ∷ hs else d.read.handle ∷ d.write.handle ∷ hs))
    × ((close_db d ps).live ≡ hs)

close_shared :
    (d : Db) (ps : Pools) → d.read.handle ≡ d.write.handle → close_db d ps ≡ close_pool d.write ps
unfolding close_db
close_shared d ps same = ground (arith, same)

module _ (o : Options) (c : OpenCall) (n : ℕ) (hs : List ℕ) (a : All (λ h. h < n) hs) where
  abbrev writer : SqlPool
  writer = record { handle = n; max_open = 1 }

  abbrev one_open : Pools
  one_open = record { next = n + 1; live = n ∷ hs }

  abbrev one_closed : Pools
  one_closed = record { next = n + 1; live = keep (λ h. not (h == n)) (n ∷ hs) }

  reader_opened-Settled :
      (fault : Option Text)
      → is_memory o.path ≡ false
      → Settled o c hs (reader_opened o c writer (open_pool fault (max_readers_of o c) one_open))
  unfolding reader_opened open_pool close_pool close_db
  reader_opened-Settled (some m) e = drop_first n hs a
  reader_opened-Settled none e = elim (Option-cases c.read_ping_fault) [
    | inr (m, g) ↦
        let left : List ℕ =
          keep (λ h. not (h == n + 1)) (keep (λ h. not (h == n)) ((n + 1) ∷ n ∷ hs)) in
        let closed : reader_opened o c writer (open_pool none (max_readers_of o c) one_open)
            ≡ (record { next = n + 1 + 1; live = left }, err (open_failed m)) =
          rw (g, reader_opened) refl in
        subst (Settled o c hs) (sym closed) (rw (drop_writer n hs a) (drop_last n hs a))
    | inl g ↦
        let apart : (n + 1 == n) ≡ false = ground arith in
        let reader : SqlPool = record { handle = n + 1; max_open = max_readers_of o c } in
        let d : Db = record { write = writer; read = reader; path = o.path } in
        let both : Pools = record { next = n + 1 + 1; live = (n + 1) ∷ n ∷ hs } in
        let opened : reader_opened o c writer (both, ok reader) ≡ (both, ok d) =
          rw (g, reader_opened) refl in
        subst (Settled o c hs) (sym opened)
          (refl, rw e refl, rw apart (rw (drop_reader n hs a) (drop_first n hs a)))
  ]

  open_reader-Settled : Settled o c hs (open_reader o c writer one_open)
  unfolding open_reader
  open_reader-Settled = elim (Bool-cases (is_memory o.path)) [
    | inl e ↦
        let d : Db = record { write = writer; read = writer; path = o.path } in
        rw (e, open_reader)
          (
            refl,
            rw e refl,
            ap (λ (ps : Pools). ps.live) (close_shared d one_open refl)
                ∙ unfold close_pool in drop_first n hs a,
          )
    | inr e ↦ rw (e, open_reader) (reader_opened-Settled c.read_fault e)
  ]

  writer_opened-Settled :
      (fault : Option Text)
      → Settled o c hs (writer_opened o c (open_pool fault 1 (record { next = n; live = hs })))
  unfolding writer_opened open_pool close_pool
  writer_opened-Settled (some m) = refl
  writer_opened-Settled none = elim (Option-cases c.write_ping_fault) [
    | inr (m, g) ↦
        let closed : writer_opened o c (one_open, ok writer) ≡ (one_closed, err (open_failed m)) =
          rw (g, writer_opened) refl in
        subst (Settled o c hs) (sym closed) (drop_first n hs a)
    | inl g ↦ elim (Option-cases c.migrate_fault) [
      | inr (m, f) ↦
          let closed : writer_opened o c (one_open, ok writer) ≡ (one_closed, err (open_failed m)) =
            rw (g, writer_opened) (rw (f, writer_opened) refl) in
          subst (Settled o c hs) (sym closed) (drop_first n hs a)
      | inl f ↦
          let on : writer_opened o c (one_open, ok writer) ≡ open_reader o c writer one_open =
            rw (g, writer_opened) (rw (f, writer_opened) refl) in
          subst (Settled o c hs) (sym on) open_reader-Settled
    ]
  ]

Settled-cases :
    (o : Options) (c : OpenCall) (hs : List ℕ) (x : Pools × Result OpenError Db)
    → Settled o c hs x
    → ((ps : Pools) × (e : OpenError) × (x ≡ (ps, err e)) × (ps.live ≡ hs))
      ⊎ ((ps : Pools) × (d : Db) × (x ≡ (ps, ok d))
          × (d.write.max_open ≡ 1)
          × (ps.live ≡ (
              if is_memory o.path
              then d.write.handle ∷ hs
              else d.read.handle ∷ d.write.handle ∷ hs))
          × ((close_db d ps).live ≡ hs))
Settled-cases o c hs (ps, err e) h = inl (ps, e, refl, h)
Settled-cases o c hs (ps, ok d) h = inr (ps, d, refl, h.0, h.1, h.2)

-- Handles being given out in order: whichever of its calls fails, Open leaves no pool open that was
-- not open before, or returns a database with one connection for writing, over one pool for a
-- database in memory and two for a file, all of which Close closes.
pub open_db_outcome :
    (o : Options) (c : OpenCall) (ps : Pools)
    → IsFresh ps
    → ((ps' : Pools) × (e : OpenError) × (open_db o c ps ≡ (ps', err e)) × (ps'.live ≡ ps.live))
      ⊎ ((ps' : Pools) × (d : Db) × (open_db o c ps ≡ (ps', ok d))
          × (d.write.max_open ≡ 1)
          × (ps'.live ≡ (
              if is_memory o.path
              then d.write.handle ∷ ps.live
              else d.read.handle ∷ d.write.handle ∷ ps.live))
          × ((close_db d ps').live ≡ ps.live))
unfolding open_db
open_db_outcome o c ps fresh = elim (Bool-cases (text_eq o.path [])) [
  | inl e ↦ inl (ps, path_required, rw e refl, refl)
  | inr e ↦ rw e (
      Settled-cases o c ps.live (writer_opened o c (open_pool c.write_fault 1 ps))
        (writer_opened-Settled o c ps.next ps.live fresh c.write_fault))
]
