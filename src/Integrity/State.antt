-- ===== src/Integrity/State.antt =====
-- The state of `IntegrityService`, the queries that it makes on the tables, and what the world
-- outside answers while it works. Calls of the database other than the sealing transaction are
-- taken to return.
pub mod Pending
pub mod Rows
use logchain.Prelude.{
  ℕ, ◌+◌, Bool, true, false, not, ◌&&◌, ◌||◌, Option, none, some, List, [], ◌∷◌, ◌++◌, map, filter,
  any, take, sort, Text, text_eq, text_leb, ltb, leb, ◌==◌, is_empty, if◌then◌else◌,
}
use logchain.Errors.{Thrown, Result}
use logchain.Entities.{
  Log, log_id, Batch, BatchAnomaly, LogBatchMapping, BatchLogSnapshot, Alert, AlertType,
  integrity_tampered, wallet_low_balance, other_type, AlertStatus, open_alert, resolved, Db,
}
use logchain.Blockchain.Send.{StoreRootResult, CostEstimate}
use logchain.LogHash.{Runtime, HashedLog, raw_hash_canonical}

pub record Service : Type 0 where
  pub db : Db
  pub open db use *
  pub drain_in_flight : Bool
  pub consecutive_failures : ℕ
  pub backoff_ticks_left : ℕ
  pub low_balance : Bool
  pub last_low_balance_alert_at : ℕ

-- The answers to one call: the clock, the blockchain service, the Isolation Forest (`none` where
-- the batch was not scored), the id that the database makes for a new batch, and how the first and
-- the second attempt at the sealing transaction end (`none` is a commit).
pub record World : Type 0 where
  pub now : ℕ
  pub ready : Bool
  pub estimate : Result CostEstimate
  pub store_root : Text → Text → Result StoreRootResult
  pub get_root : Text → Result Text
  pub get_tx_gas : Text → Result (Option (ℕ × ℕ))
  pub score : Option BatchAnomaly
  pub new_id : Text
  pub commit : Option Thrown
  pub commit_again : Option Thrown

-- `ORDER BY created_at ASC, id ASC`
unfoldable pub log_leb : Log → Log → Bool
log_leb a b =
    ltb a.content.created_at b.content.created_at
    || (a.content.created_at == b.content.created_at && text_leb a.content.id b.content.id)

abbrev pub mapping_log : LogBatchMapping → Text
mapping_log m = m.log_id

abbrev pub batch_key : Batch → Text
batch_key b = b.id

-- `log_id` is in the list of mappings.
unfoldable pub is_mapped : List LogBatchMapping → Text → Bool
is_mapped mappings i = any (λ m. text_eq i m.log_id) mappings

abbrev within : Option ℕ → ℕ → Bool
within none t = true
within (some cutoff) t = leb t cutoff

-- The `where` of a seal: not mapped, and not newer than the cutoff.
unfoldable pub is_pending : List LogBatchMapping → Option ℕ → Log → Bool
unfolding is_mapped
is_pending mappings cutoff l =
    not (is_mapped mappings l.content.id) && within cutoff l.content.created_at

unfoldable pub pending_logs : ℕ → Option ℕ → Db → List Log
unfolding is_pending log_leb
pending_logs batch_size cutoff db =
    take batch_size (sort log_leb (filter (is_pending db.mappings cutoff) db.logs))

unfoldable pub mapped_to : Text → List LogBatchMapping → List LogBatchMapping
mapped_to batch_id mappings = filter (λ m. text_eq m.batch_id batch_id) mappings

-- `getLogsForBatch`
unfoldable pub logs_for_batch : Text → Db → List Log
unfolding mapped_to is_mapped log_leb
logs_for_batch batch_id db =
    let mine = mapped_to batch_id db.mappings in
    if is_empty mine then [] else sort log_leb (filter (λ l. is_mapped mine l.content.id) db.logs)

-- `repository.save` of a batch: an update of the row with its id, or an insert.
unfoldable pub save_batch : Batch → List Batch → List Batch
save_batch b [] = b ∷ []
save_batch b (c ∷ bs) = let rest = save_batch b bs in if text_eq c.id b.id then b ∷ bs else c ∷ rest

unfoldable pub save_mapping : LogBatchMapping → List LogBatchMapping → List LogBatchMapping
save_mapping m [] = m ∷ []
save_mapping m (n ∷ ms) =
    let rest = save_mapping m ms in if text_eq n.log_id m.log_id then m ∷ ms else n ∷ rest

unfoldable pub save_mappings : Text → List Log → List LogBatchMapping → List LogBatchMapping
unfolding save_mapping
save_mappings batch_id [] ms = ms
save_mappings batch_id (l ∷ ls) ms =
    save_mappings batch_id ls
      (save_mapping (record { log_id = l.content.id; batch_id = batch_id }) ms)

unfoldable pub snapshots_from : Runtime → Text → ℕ → List Log → List BatchLogSnapshot
snapshots_from rt batch_id position [] = []
snapshots_from rt batch_id position (l ∷ ls) =
    record {
      batch_id = batch_id;
      log_id = l.content.id;
      position = position;
      snapshot = raw_hash_canonical rt l.content;
      raw_hash = l.raw_hash;
    }
    ∷ snapshots_from rt batch_id (position + 1) ls

-- The tables after `writeMappingAndSnapshot` committed.
unfoldable pub committed : Runtime → Batch → List Log → Db → Db
unfolding save_batch save_mappings snapshots_from
committed rt batch logs db = record db {
  batches = save_batch batch db.batches;
  mappings = save_mappings batch.id logs db.mappings;
  snapshots = db.snapshots ++ snapshots_from rt batch.id 0 logs;
}

unfoldable pub with_batch : Batch → Db → Db
unfolding save_batch
with_batch batch db = record db { batches = save_batch batch db.batches }

-- Alerts are looked up by their type, their batch and `status: 'OPEN'`.
unfoldable pub same_type : AlertType → AlertType → Bool
same_type integrity_tampered integrity_tampered = true
same_type wallet_low_balance wallet_low_balance = true
same_type (other_type s) (other_type t) = text_eq s t
same_type _ _ = false

unfoldable pub is_open : AlertStatus → Bool
is_open open_alert = true
is_open resolved = false

abbrev pub id_is : Option Text → Text → Bool
id_is none i = false
id_is (some j) i = text_eq j i
