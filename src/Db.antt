-- ===== src/Db.antt =====
-- internal/db/db.go: the two pools of connections and the transaction of a write. sql.Open, the ping
-- and goose are library calls: each fails with a message, or not. Pools are handles in a store.
pub mod Opening
pub mod Transactions
use manualbox.Prelude.{
  ℕ, ◌+◌, ◌*◌, Bool, true, false, not, Option, none, some, List, [], ◌∷◌, ◌++◌, Result, ok, err,
  if◌then◌else◌, ◌==◌, max,
}
use manualbox.Prelude.Int.{ℤ, pos, negsuc}
use manualbox.Prelude.Text.{Text, text, text_eq}
use manualbox.Prelude.Lists.{keep}
use manualbox.Clock.{second}
use manualbox.Jobs.Worker.{positive_or}

-- The pools that are open; `next` is the handle that the next one gets.
pub record Pools : Type 0 where
  pub next : ℕ
  pub live : List ℕ

-- A *sql.DB, with SetMaxOpenConns
pub record SqlPool : Type 0 where
  pub handle : ℕ
  pub max_open : ℕ

-- DB
pub record Db : Type 0 where
  pub write : SqlPool
  pub read : SqlPool
  pub path : Text

-- Options
pub record Options : Type 0 where
  pub path : Text
  pub max_readers : ℤ
  pub busy_timeout : ℤ

-- The calls of one Open that can fail, in their order, and runtime.NumCPU.
pub record OpenCall : Type 0 where
  pub cpus : ℕ
  pub write_fault : Option Text
  pub write_ping_fault : Option Text
  pub migrate_fault : Option Text
  pub read_fault : Option Text
  pub read_ping_fault : Option Text

pub data OpenError : Type 0 where
  path_required : OpenError
  open_failed : Text → OpenError

abbrev pub is_memory : Text → Bool
is_memory path = text_eq path (text ":memory:")

-- The query that openPool puts behind the path, before it is encoded; `milliseconds` is the busy timeout in decimal.
unfoldable pub pool_query : Bool → Bool → Text → List (Text × Text)
pool_query memory writer milliseconds =
    (if memory then [] else (text "_pragma", text "journal_mode(WAL)") ∷ [])
    ++ ((text "_pragma", text "busy_timeout(" ++ (milliseconds ++ text ")"))
        ∷ (text "_pragma", text "foreign_keys(1)")
        ∷ (text "_pragma", text "synchronous(NORMAL)")
        ∷ (if writer then (text "_txlock", text "immediate") ∷ [] else []))

-- sql.Open in openPool
unfoldable pub open_pool : Option Text → ℕ → Pools → Pools × Result Text SqlPool
open_pool (some m) limit ps = (ps, err m)
open_pool none limit ps = (
  record { next = ps.next + 1; live = ps.next ∷ ps.live },
  ok (record { handle = ps.next; max_open = limit }),
)

-- (*sql.DB).Close; the pool is closed also where it returns an error.
unfoldable pub close_pool : SqlPool → Pools → Pools
close_pool p ps = record ps { live = keep (λ h. not (h == p.handle)) ps.live }

abbrev pub max_readers_of : Options → OpenCall → ℕ
max_readers_of o c = positive_or (max 4 c.cpus) o.max_readers

-- Open, from the result of opening the read pool on
unfoldable pub reader_opened :
    Options → OpenCall → SqlPool → Pools × Result Text SqlPool → Pools × Result OpenError Db
unfolding close_pool
reader_opened o c w (ps, err m) = (close_pool w ps, err (open_failed m))
reader_opened o c w (ps, ok r) = elim c.read_ping_fault [
  | some m ↦ (close_pool r (close_pool w ps), err (open_failed m))
  | none ↦ (ps, ok (record { write = w; read = r; path = o.path }))
]

-- Open, from the migrations on
unfoldable pub open_reader : Options → OpenCall → SqlPool → Pools → Pools × Result OpenError Db
unfolding open_pool reader_opened
open_reader o c w ps =
    if is_memory o.path
    then (ps, ok (record { write = w; read = w; path = o.path }))
    else reader_opened o c w (open_pool c.read_fault (max_readers_of o c) ps)

-- Open, from the result of opening the write pool on
unfoldable pub writer_opened :
    Options → OpenCall → Pools × Result Text SqlPool → Pools × Result OpenError Db
unfolding open_reader close_pool
writer_opened o c (ps, err m) = (ps, err (open_failed m))
writer_opened o c (ps, ok w) = elim c.write_ping_fault [
  | some m ↦ (close_pool w ps, err (open_failed m))
  | none ↦ elim c.migrate_fault [
    | some m ↦ (close_pool w ps, err (open_failed m))
    | none ↦ open_reader o c w ps
  ]
]

-- Open
unfoldable pub open_db : Options → OpenCall → Pools → Pools × Result OpenError Db
unfolding open_pool writer_opened
open_db o c ps =
    if text_eq o.path []
    then (ps, err path_required)
    else writer_opened o c (open_pool c.write_fault 1 ps)

-- Close: a pool that is shared is closed once.
unfoldable pub close_db : Db → Pools → Pools
unfolding close_pool
close_db d ps =
    close_pool d.write (if d.read.handle == d.write.handle then ps else close_pool d.read ps)

-- Tx: `none` is a panic of the body, after which the transaction is rolled back too.
unfoldable pub tx :
    {S E : Type 0}
    → (Text → E)
    → Option Text
    → Option Text
    → (S → Option (S × Option E))
    → S
    → S × Option (Option E)
tx wrap (some m) commit_fault body s = (s, some (some (wrap m)))
tx wrap none commit_fault body s = elim (body s) [
  | none ↦ (s, none)
  | some (s', some e) ↦ (s, some (some e))
  | some (s', none) ↦ elim commit_fault [
    | some m ↦ (s, some (some (wrap m)))
    | none ↦ (s', some none)
  ]
]
