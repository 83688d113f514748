-- ===== src/Lib.antt =====
-- AcmeMux: a control plane for one lego runtime and one native workspace. This library models parts
-- of its Go code and proves what makes them correct.
--
-- Dotenv models internal/dotenv/dotenv.go, the bounded dotenv documents with surgical edits. Its
-- files follow the Go file: Dotenv/Types the data, Dotenv/Lines the cursor helpers (skipWhitespace,
-- consumeLine, currentLineStart, lineCount, detectNewline), Dotenv/Value scanValue,
-- containsExpansion and encodeValue, Dotenv/Scan scanEntries and the validation of keys,
-- Dotenv/Document Parse and the read operations, Dotenv/Apply Apply. The modules below each hold the
-- proofs.
--
-- Jobs models internal/jobs/types.go, errors.go and store.go, the durable latest operation. Jobs/Types
-- holds the data, Jobs/Validate the validate functions of types.go, Jobs/Operation validateOperation,
-- Jobs/Database the tables and the transactions, Jobs/Store loadOperation and what it reads with,
-- Jobs/Changes Enqueue, EnqueueKind, Claim and UpdatePhase, Jobs/Endings Finish, FinishUncertain,
-- InterruptRunning, PendingReconciliation and CompleteReconciliation, Jobs/Service of worker.go what
-- the service answers (Status, Latest) and how it enqueues, Jobs/Worker of worker.go recover, execute,
-- reconcile and the loop of Run, with the executor as a tree of its reports, which need not be the same
-- for two operations, and with the clock and the failing statements given for each call. Jobs/Lifecycle states the life of
-- an operation as a relation between statuses and the calls as commands; its children hold what is
-- proved of them.
--
-- Broker/Output models the collector of internal/broker/output.go. A write is one step, as under its
-- mutex, and the writes of the two streams are a list in their order; the callback is a count.
-- Broker/Sanitize models sanitizeOutput of the same file; its loop passes over the bytes of a rune that
-- was decoded by a count, so it needs no fuel.
--
-- Scheduler models internal/scheduler: Scheduler/Types types.go, Scheduler/Calculate calculate.go,
-- Scheduler/Row the row of the table and loadSchedule, Scheduler/Store the operations of store.go,
-- Scheduler/Service evaluate and delay of service.go. time.LoadLocation is a parameter, a function from
-- names to clocks, and no law of it is assumed. The loops over dates and minutes are counted in the
-- source and run on their count here. The answer of EnqueueScheduled is an argument of an evaluation.
-- A civil date is the number of its days, which the texts order alike up to the year 9999; a window that
-- begins before the zero time begins at it.
--
-- Identity models internal/identity: Identity/Types the rows, the policy and the tokens,
-- Identity/Session the validation, rotation and removal of sessions, Identity/Service createSession and
-- the transactions of service.go. SHA-256 and base64 are parameters, functions of which no law is
-- assumed. A validation is two statements with no transaction; what other requests do between them is
-- any function on the tables. SQLite may pick any row for a LIMIT 1; the model takes the first.
--
-- Runtime/Version models internal/runtime/version.go, the parser of the output of `lego --version`.
-- Compatibility/Classify models internal/compatibility/classify.go over any table of manifests.
--
-- SQLite is not code of the repository. The model takes of it that a statement reads and writes the
-- tables as its text says or fails, and that a transaction that is not committed changes nothing (Prelude/Transaction). Which
-- statements fail is a list of Booleans, an argument of every call; the theorems hold for every such
-- list unless they say that no statement fails. A violated constraint of the schema is such a failure.
-- A stored time is its instant: the text of RFC 3339 is not modelled. Times before the zero time are
-- not represented.
--
-- Conventions. A Go string or byte slice is a list of numbers (Prelude/Bytes). A returned error is a
-- `Result`. A loop over a cursor is a recursion over the bytes from the cursor on. The loop of
-- scanEntries runs on fuel, one round more than there are bytes; each round moves on by a byte at
-- least. sort.Slice is an insertion sort (Prelude/Sort), which Go uses up to twelve elements. A map
-- is a list of pairs; where Go ranges over a map, the model takes the order of insertion.
--
-- godotenv.Parse is code of another project and is a parameter, a function into `Option`; no law of
-- it is assumed.
--
-- Not modelled: the text of error messages, the wiping of buffers before they are dropped, and the
-- packages that PROJECT.json lists as such.
pub mod Prelude
pub mod Dotenv
pub mod Jobs
pub mod Broker
pub mod Scheduler
pub mod Identity
pub mod Runtime
pub mod Compatibility
