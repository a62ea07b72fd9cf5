-- ===== src/Lib.antt =====
-- manualbox: a model of the parts of the server that keep its data, and theorems about them.
--
-- The program is a web server over one SQLite database. Work that takes time runs as jobs: a
-- request adds a row to the table jobs (internal/jobs/queue.go), the workers of a pool claim rows,
-- run the handler of the job's kind and record the outcome (internal/jobs/worker.go), and each
-- change is published to the subscribers of the activity view (internal/jobs/broker.go). The
-- statements on the table are generated code (internal/db/gen/jobs.sql.go). Uploaded files are
-- blobs in a directory, under the SHA-256 of their bytes (internal/store/store.go), and rows have
-- identifiers of a kind and a ULID (internal/id/id.go). A request comes with the token of a session,
-- of which the database holds the hash (internal/auth/auth.go), and a session starts with a login by
-- password (internal/auth/password.go). The key of the most sensitive fields is kept in a file,
-- wrapped by a passphrase and by a key for unattended starts (internal/keyring/keyring.go). The
-- configuration is read and checked once at the start (internal/config/config.go), and the HTTP layer
-- (internal/api) puts these parts behind routes.
--
-- Which file models which part:
--   Prelude, Prelude/*   shared tests, lists, integers, and texts as lists of bytes
--   Clock                internal/db/time.go: Millis, Time, MillisPtr, TimePtr
--   Id                   internal/id/id.go; Id/Parsing: Parse against New
--   Jobs/Progress        the float64 fractions, the clamp of Progress, the CHECK of the column
--   Jobs/Model           internal/jobs/jobs.go, Event of broker.go, Job of internal/db/gen/models.go
--   Jobs/Table           the table, its unique indexes, EnqueueJob and ClaimNextJob; below it Order
--                        (the order of claims), Indexes, Lookups and Appends (lemmas)
--   Jobs/Statements      the other statements that write, Jobs/Reads those that read; below it
--                        Listing, the proofs about ORDER BY and LIMIT
--   Jobs/Invariant       the invariant of the table, and histories of statements
--   Jobs/Claim           claiming; Jobs/Leases: expired leases
--   Jobs/Holding         one job among the statements of all workers; below it Claims
--   Jobs/Broker          internal/jobs/broker.go; below it the proofs: Safety, Delivery, Closing, Runs
--   Jobs/Queue           internal/jobs/queue.go; below it Enqueueing, Cancelling, Purging
--   Jobs/Backoff         ExponentialBackoff of worker.go
--   Jobs/Worker          Pool and Reporter of worker.go; below it Running (execute), Execution,
--                        Outcomes, Cancellation and Crashes; Loops: Run, worker and reclaimLoop as a step
--                        relation, with the proofs Effects, Handing and Exclusion
--   Store                internal/store/store.go but Put, which is Store/Putting; the proofs are
--                        Store/Paths, Integrity, Uploads, Reading and Removing
--   Auth                 sessions of internal/auth/auth.go, over Auth/Tables, the tables and their
--                        statements; the proofs are Auth/Lookups and Auth/Sessions. Auth/Statements:
--                        the other statements, and histories; Auth/Invariant: what these keep
--   Auth/Passwords       internal/auth/password.go; the proofs are Auth/Hashing
--   Auth/Setup, Login    Setup, Login and ChangePassword of internal/auth/auth.go, with the statements
--                        on users (internal/db/gen/users.sql.go); the proofs are Auth/Keeping, Access,
--                        Entry and Renewal
--   Keyring              internal/keyring/keyring.go: the data, the parameters and the wraps; Disk: save
--                        and the file system; Opening: Open and Verify; Changing: Create and the
--                        changes; Sealing: Encrypt, Decrypt, Index. The proofs are Wrapping, Locks (the
--                        abstract view), Growing, Saving, Creation, Totality, Refinement and Recovery
--   Config               internal/config/config.go and secret.go; Config/Checks: Validate and Load; the
--                        proofs are Config/Canonical and Config/Validity
--   Api                  internal/api/middleware.go; Api/Handlers, Capabilities and Streaming:
--                        internal/api/handlers.go; Api/Routes and Serving: internal/api/api.go, the
--                        table of routes and a request on its way to a handler. The proofs are
--                        Api/Addresses and Guards (single handlers) and Access, Safety and Totality
--                        (all routes)
--   Db                   internal/db/db.go; the proofs are Db/Opening and Db/Transactions
--   Extern               internal/extern/extern.go; Extern/Lookups: calls of Require in a row
--   Frontend             internal/frontend/frontend.go, with its proof
--   Tests, Tests/*       sample data and the theorems at concrete inputs
--
-- How state and effects are written. A queue is the table and the broker; an operation takes it
-- and returns it. What comes from outside is an argument: each reading of the clock, the new id,
-- the random numbers, what json.Marshal returns, and for each database call the message of a fault
-- if it fails. SQLite runs a statement whole or not at all, and the server has one writing
-- connection, so a history of the table is a list of statements. The driver is a record: the
-- messages of a uniqueness failure and of a failed check, of which the code recognises the first
-- and not the second. A panic is `none`. Every Go mutex section is one step.
--
-- The blob store acts on a file system that is a function from paths to files. Each system call may
-- fail, by an argument; directories are left out, except that making one may fail. What other
-- processes do while Put runs is a function on the file system between the test for the blob and
-- the rename. SHA-256 gives 32 bytes, and of ULIDs it is known that the strict parser reads what
-- was printed.
--
-- The keyring has one record of parameters for AES-GCM, HKDF, HMAC, argon2, base64 and JSON, with the
-- laws that their documentation states: what was sealed opens under the same key and nonce, an
-- encoding decodes, derived keys have the size asked for, and JSON gives back a file of valid UTF-8.
-- That no wrap opens under a wrong secret is not a law; a theorem that needs it says so. Passwords,
-- configuration and requests have records of their own for argon2 and fmt, net/mail, net/url,
-- x/text/language and the Unicode functions of strings. A request is its method, its header lines,
-- the value of the session cookie, host, address and whether the connection is encrypted; a response
-- is its status, its error code or what the body holds, and what it does to the cookie. Which route
-- takes a path is chi's choice, a parameter: it only takes a route of the table, for its method. The
-- pools of the database are handles in a store, and the PATH and the runs of external programs,
-- path.Clean and path.Ext and the embedded files are parameters too.
--
-- Numbers. A time is nanoseconds since the epoch and a stored time milliseconds; both are natural
-- numbers, so times before 1970 are left out. Counters and limits that are never negative are
-- natural numbers, other int64 values are integers; the sums of RecordJobUsage are checked against
-- the range of int64 as the STRICT table does, while the worker's own copy of them does not wrap.
-- The attempts of a job are a natural number and a claim does not check them against the column; the
-- theorem about claims in any number has the range of int64 as a condition.
-- The shift of ExponentialBackoff wraps at 64 bits. Texts are lists of bytes, lower case is that of
-- ASCII. A float64 is NaN, an infinity, or a multiple of 2 ^ -1074.
--
-- Fuel: none is needed. Every function here recurs on the structure of a list or a number.
--
-- A pool is a step relation: its workers, the reclaimer and the rest of the program act one call on the
-- queue at a time, in any order, and timers fire and the context is cancelled at any time. On a renewal
-- interval of zero the tickers of renewLease and reclaimLoop panic and end the process; execute has
-- that panic, while the step relation leaves it out and so has runs that go on.
--
-- Not modelled: logging, contexts except where execute and worker test them; the decoding of JSON
-- bodies, compression and the timeout of requests; the migrations, which goose applies; start-up and
-- flags.
pub mod Prelude
pub mod Clock
pub mod Db
pub mod Extern
pub mod Frontend
pub mod Id
pub mod Jobs
pub mod Keyring
pub mod Store
pub mod Config
pub mod Api
pub mod Auth
pub mod Tests
