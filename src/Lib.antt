-- ===== src/Lib.antt =====
-- LogChain: tamper evidence for logs. A log gets a raw hash at ingest; the integrity service seals logs
-- into batches, stores the Merkle root of each batch in a contract, and checks rows and roots again.
--
-- Prelude and its children hold the shared names, lists, texts, sorting and table rows; Errors the
-- thrown values and results; Json the printer of JSON texts, and JSON values.
--
--   LogHash       src/logs/services/log-hash.ts: the canonical object of a log, its raw hash, the test
--                 whether a row is intact
--   Merkle        src/integrity/service/merkle.service.ts: roots, layers and proofs
--   SealConfig    src/integrity/seal-config.ts: settings from the environment, `decideSeal`
--   Contract      contracts/LogIntegrity.sol: a state, its calls, and the states that calls reach
--   Blockchain    src/blockchain: sending a root (nonces, fees, the wait for the receipt), classes
--                 of errors, reading and comparing roots
--   Entities      the tables: logs, batches, mappings, snapshots, alerts
--   Alerts        src/alerts: what a payload is cut to, the lookup and the unique index, repeats,
--                 links to logs, resolving
--   Kafka         src/kafka: the outbox of events and its replay, the connection, the consumer of
--                 alerts, which hands them to Alerts
--   Decimal       src/common/decimal.ts: amounts for the costs of a batch
--   Ingest        src/logs/logs.service.ts: a log gets its hash, its row and its event
--   Dashboard     cylis-dashboard/src/lib: the Merkle tree that the web interface computes
--   Integrity     src/integrity/integrity.service.ts and integrity.scheduler.ts. State holds the
--                 service's fields, the tables and their queries; Wallet the guard against a low
--                 balance; Seal one seal; Rounds the scheduled and hybrid rounds with the backoff;
--                 Verify the checks and the tamper alerts; Anchoring the anchoring afterwards;
--                 Schedule the jobs; Proof the proof of one log; BatchDiff
--                 and BatchTree batch-diff.service.ts and batch-tree.service.ts
--
-- A function of the source keeps its name in snake case. A method that changes the service or the
-- tables takes them and returns them. What comes from outside (the clock, the chain, the scoring
-- service, the database's new ids, whether the sealing transaction commits) is a record `World`, one
-- for each call, or a function that gives the n-th of a loop. The package merkletreejs, sha256, the
-- printing of dates and URL parsing are parameters.
--
-- Loops over rows are structural recursion. A round of sealing recurses on the number of batches
-- that it may still close, which is the bound of the source, 1000. The only other fuel is that of
-- the printer of decimal numbers, one more than the number, which has no more digits than that, and
-- that of the dashboard's tree, one round for each leaf, since every round but the last makes the
-- layer shorter. Numbers are natural numbers: counts, times in milliseconds, wei and gas are never
-- negative there; only the amounts of Decimal have a sign. Subtraction stops at 0 where the source
-- cannot go below it. Texts are lists of code points. Identifiers are texts in lower case, as Postgres prints a uuid.
--
-- Not modelled: other writers during one call (the queue orders the seals, and a round is a sequence
-- of seals), failures of database calls other than the sealing transaction, the lookup and the save
-- of an alert and the table of the outbox, log messages, the connection to the node, the HTTP
-- controllers, the masking rules, and the views of the dashboard. What the database refuses in an
-- alert, and what the package typeorm makes of an alert that brings its own id, are parameters.
-- In Alerts and Kafka other requests run where the code waits: as functions on the tables, or as
-- lists of publishes. A replay of the outbox runs as far as the answers go that it is given.
pub mod Alerts
pub mod Blockchain
pub mod Contract
pub mod Dashboard
pub mod Decimal
pub mod Entities
pub mod Errors
pub mod Ingest
pub mod Integrity
pub mod Json
pub mod Kafka
pub mod LogHash
pub mod Merkle
pub mod Prelude
pub mod SealConfig
