-- ===== src/Integrity/Seal.antt =====
-- One seal: `sealBatchNow` with `scoreBatchAnomaly`, `sealWithoutAnchor`, `confirmBatch`,
-- `deferConfirmation`, `writeMappingAndSnapshot` and `adoptExistingRoot`.
pub mod Settled
pub mod Mapped
pub mod Covers
pub mod Batches
pub mod Counts
pub mod Evidence
pub mod Row
use logchain.Prelude.{
  ℕ, Bool, true, false, Option, none, some, List, [], ◌∷◌, ◌++◌, map, Text, codes, is_empty, length,
  starts_with, drop, if◌then◌else◌,
}
use logchain.Errors.{Thrown, Result, ok, err}
use logchain.Entities.{
  Log, Batch, BatchStatus, BatchAnomaly, SealReason, pending, sealed, unverified, confirmed, failed,
  Db,
}
use logchain.LogHash.{Runtime, HashedLog}
use logchain.Merkle.{MerkleTree, build_root}
use logchain.SealConfig.{SealConfig}
use logchain.Blockchain.Errors.{ChainWriteError, root_exists, classify_chain_error}
use logchain.Blockchain.Send.{StoreRootResult}
use logchain.Blockchain.Check.{CheckResult, matched, RootCheck, check_root}
use logchain.Integrity.State.{Service, World, pending_logs, committed, with_batch}
use logchain.Integrity.Wallet.{WalletCheck, proceed, too_low, check_wallet_balance}

-- What the call returns: `null`, a batch, or a thrown value (`SealSkippedError` is `skipped`).
pub data SealOutcome : Type 0 where
  nothing skipped : SealOutcome
  closed : Batch → SealOutcome
  threw : Thrown → SealOutcome

-- `root.replace('0x', '')`: the first occurrence goes.
unfoldable pub remove_prefix : Text → Text
remove_prefix [] = []
remove_prefix (c ∷ s) =
    let rest = remove_prefix s in
    if starts_with (codes "0x") (c ∷ s) then drop 2 (c ∷ s) else c ∷ rest

new_batch : World → SealReason → Text → List Log → Batch
unfolding remove_prefix
new_batch w reason root logs = record {
  id = w.new_id;
  merkle_root = remove_prefix root;
  log_count = length logs;
  tx_hash = none;
  block_number = none;
  status = pending;
  confirmed_at = none;
  seal_reason = reason;
  gas_used = none;
  effective_gas_price = none;
  scored = none;
}

scored_batch : ℕ → Option BatchAnomaly → Batch → Batch
scored_batch now none b = b
scored_batch now (some a) b = record b { scored = some (record { anomaly = a; scored_at = now }) }

with_receipt : StoreRootResult → Batch → Batch
with_receipt r b = record b {
  tx_hash = some r.tx_hash;
  block_number = r.block_number;
  gas_used = r.gas_used;
  effective_gas_price = r.effective_gas_price;
}

confirmed_batch : World → Batch → Batch
confirmed_batch w b = record b { status = confirmed; confirmed_at = some w.now }

module _ (rt : Runtime) (w : World) (logs : List Log) (root : Text) where
  fail_batch : Batch → Db → SealOutcome × Db
  fail_batch b db = let b' = record b { status = failed } in (closed b', with_batch b' db)

  -- `confirmBatch` in the `try` of `adoptExistingRoot`.
  adopt_matching : Option Thrown → Batch → Db → SealOutcome × Db
  unfolding confirmed_batch fail_batch
  adopt_matching none b db =
      (closed (confirmed_batch w b), committed rt (confirmed_batch w b) logs db)
  adopt_matching (some e) b db = fail_batch (confirmed_batch w b) db

  adopt : Option Thrown → Result RootCheck → Batch → Db → SealOutcome × Db
  unfolding adopt_matching
  adopt commit (ok c) b db = elim c.result [
    | matched ↦ adopt_matching commit b db
    | _ ↦ fail_batch b db
  ]
  adopt commit (err e) b db = fail_batch b db

  adopt_existing_root : Option Thrown → Batch → Db → SealOutcome × Db
  unfolding adopt
  adopt_existing_root commit b db = adopt commit (check_root w.ready (w.get_root b.id) root) b db

  -- The `catch` of `sealBatchNow`; `commit` is how the next transaction ends.
  on_seal_error : Option Thrown → Thrown → Batch → Db → SealOutcome × Db
  unfolding adopt_existing_root
  on_seal_error commit e b db = elim (classify_chain_error e) [
    | root_exists ↦ adopt_existing_root commit b db
    | _ ↦ fail_batch b db
  ]

  -- The transaction that ends the `try` block.
  finish : Option Thrown → Batch → Db → SealOutcome × Db
  unfolding on_seal_error
  finish none b db = (closed b, committed rt b logs db)
  finish (some e) b db = on_seal_error w.commit_again e b db

  after_store : Result StoreRootResult → Batch → Db → SealOutcome × Db
  unfolding finish with_receipt
  after_store (ok r) b db =
      finish w.commit
        (if r.confirmed
          then confirmed_batch w (with_receipt r b)
          else record (with_receipt r b) { status = unverified })
        db
  after_store (err e) b db = on_seal_error w.commit e b db

  without_anchor : Option Thrown → Batch → Db → SealOutcome × Db
  without_anchor none b db = (closed b, committed rt b logs db)
  without_anchor (some e) b db = (threw e, db)

  -- From the new batch on, whose row is in the table.
  pub anchor : Batch → Db → SealOutcome × Db
  unfolding after_store without_anchor
  anchor b db =
      if w.ready
      then after_store (w.store_root b.id root) b db
      else without_anchor w.commit (record b { status = sealed }) db

module _ (rt : Runtime) (lib : MerkleTree) (reason : SealReason) (w : World) where
  -- Steps 3 to 6, for logs that are not empty.
  seal_logs : List Log → Db → SealOutcome × Db
  unfolding anchor new_batch scored_batch
  seal_logs logs db =
      let root = build_root lib (map (λ (l : Log). l.raw_hash) logs) in
      let b = new_batch w reason root logs in
      let scored = scored_batch w.now w.score b in
      anchor rt w logs root scored (with_batch scored (with_batch b db))

  with_db : Service → SealOutcome × Db → SealOutcome × Service
  with_db s r = (r.0, record s { db = r.1 })

  guarded : List Log → WalletCheck × Service → SealOutcome × Service
  unfolding seal_logs with_db
  guarded logs (too_low, s) = (skipped, s)
  guarded logs (proceed, s) = with_db s (seal_logs logs s.db)

  unfoldable pub seal_batch_now : SealConfig → Option ℕ → Service → SealOutcome × Service
  unfolding guarded
  seal_batch_now cfg cutoff s =
      let logs = pending_logs cfg.batch_size cutoff s.db in
      if is_empty logs then (nothing, s) else guarded logs (check_wallet_balance cfg w s)
