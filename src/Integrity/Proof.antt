-- ===== src/Integrity/Proof.antt =====
-- `getProofForLog` of src/integrity/integrity.service.ts: the proof of one log, and what the page is
-- told about its integrity.
pub mod Backed
mod Examples
use logchain.Prelude.{
  ℕ, suc, Bool, true, false, not, ◌&&◌, Option, none, some, List, [], ◌∷◌, map, filter, find, all,
  Text, text_eq, option_eq, is_some, is_empty, if◌then◌else◌,
}
use logchain.Entities.{Log, log_id, Batch, LogBatchMapping, BatchLogSnapshot, Db}
use logchain.LogHash.{Runtime, compute_raw_hash, is_raw_hash_intact, recompute_content_leaf}
use logchain.Merkle.{MerkleTree, MerkleProofItem, get_proof, verify_proof, leaf_hash}
use logchain.Blockchain.Check.{read_chain_root}
use logchain.Integrity.State.{World, logs_for_batch}
use logchain.Integrity.BatchDiff.{
  Baseline, snapshot, raw_hash, none_known, hex, root_of, anchored_on_chain, snapshot_intact,
  chain_root_of, chain_error_of,
}

pub data LogIntegrity : Type 0 where
  intact_log content_modified_log hash_modified_log unknown_log : LogIntegrity

pub record LogProof : Type 0 where
  pub log : Log
  pub batch : Batch
  pub proof : List MerkleProofItem
  pub verified : Option Bool
  pub chain_verifiable : Bool
  pub chain_root : Option Text
  pub chain_error : Option Text
  pub baseline : Baseline
  pub leaf_index : Option ℕ
  pub leaf_hash : Text
  pub stored_raw_hash : Text
  pub content_hash : Text
  pub integrity : LogIntegrity
  pub has_snapshot : Bool

-- `leaves.indexOf(leaf)`, where `none` is -1
unfoldable pub index_of : Text → ℕ → List Text → Option ℕ
index_of leaf i [] = none
index_of leaf i (l ∷ leaves) =
    let rest = index_of leaf (suc i) leaves in if text_eq l leaf then some i else rest

-- A root is the one that the chain holds.
unfoldable pub is_on_chain : Option Text → Option Text → Bool
unfolding hex
is_on_chain root none = false
is_on_chain root (some chain) = option_eq root (some (hex chain))

module _ (rt : Runtime) (lib : MerkleTree) where
  -- The snapshots of a batch are read without an order, so in the table's.
  unfoldable pub all_snapshots : Text → Db → List BatchLogSnapshot
  all_snapshots batch_id tables =
      filter (λ (s : BatchLogSnapshot). text_eq s.batch_id batch_id) tables.snapshots

  unfoldable pub is_snapshot_trusted : Option Text → List BatchLogSnapshot → Bool
  unfolding is_on_chain root_of anchored_on_chain snapshot_intact
  is_snapshot_trusted chain snaps =
      anchored_on_chain chain
      && not (is_empty snaps)
      && is_on_chain (root_of lib (map (λ (s : BatchLogSnapshot). s.raw_hash) snaps)) chain
      && all (snapshot_intact rt) snaps

  unfoldable pub are_hashes_anchored : Option Text → List Log → Bool
  unfolding is_on_chain root_of anchored_on_chain
  are_hashes_anchored chain logs =
      anchored_on_chain chain
      && is_on_chain (root_of lib (map (λ (l : Log). l.raw_hash) logs)) chain

  unfoldable pub baseline_of : Option Text → List BatchLogSnapshot → List Log → Baseline
  unfolding is_snapshot_trusted are_hashes_anchored
  baseline_of chain snaps logs =
      if is_snapshot_trusted chain snaps
      then snapshot
      else if are_hashes_anchored chain logs
      then raw_hash
      else none_known

  unfoldable pub integrity_of : Baseline → Option BatchLogSnapshot → Log → LogIntegrity
  unfolding is_raw_hash_intact recompute_content_leaf
  integrity_of snapshot none log = unknown_log
  integrity_of snapshot (some snap) log =
      if is_raw_hash_intact rt (record log.hashed { raw_hash = snap.raw_hash })
      then if text_eq log.raw_hash snap.raw_hash then intact_log else hash_modified_log
      else content_modified_log
  integrity_of raw_hash snap log =
      if text_eq (recompute_content_leaf rt log.hashed) log.raw_hash
      then intact_log
      else content_modified_log
  integrity_of none_known snap log = unknown_log

  verified_by : Option Text → Text → List MerkleProofItem → Option Bool
  unfolding anchored_on_chain verify_proof
  verified_by none leaf proof = none
  verified_by (some chain) leaf proof =
      if anchored_on_chain (some chain) then some (verify_proof lib leaf proof chain) else none

  unfoldable pub proof_of : World → Db → Log → Batch → LogProof
  unfolding all_snapshots baseline_of integrity_of verified_by anchored_on_chain index_of
      recompute_content_leaf compute_raw_hash logs_for_batch get_proof leaf_hash read_chain_root
      chain_root_of chain_error_of
  proof_of w tables log batch =
      let logs = logs_for_batch batch.id tables in
      let leaves = map (λ (l : Log). recompute_content_leaf rt l.hashed) logs in
      let target = recompute_content_leaf rt log.hashed in
      let proof = get_proof lib leaves target in
      let chain = read_chain_root w.ready (w.get_root batch.id) in
      let snaps = all_snapshots batch.id tables in
      let snap = find (λ (s : BatchLogSnapshot). text_eq s.log_id (log_id log)) snaps in
      let baseline = baseline_of (chain_root_of chain) snaps logs in
      record {
        log = log;
        batch = batch;
        proof = proof;
        verified = verified_by (chain_root_of chain) target proof;
        chain_verifiable = anchored_on_chain (chain_root_of chain);
        chain_root = chain_root_of chain;
        chain_error = chain_error_of chain;
        baseline = baseline;
        leaf_index = index_of target 0 leaves;
        leaf_hash = leaf_hash lib target;
        stored_raw_hash = log.raw_hash;
        content_hash = compute_raw_hash rt log.content;
        integrity = integrity_of baseline snap log;
        has_snapshot = is_some snap;
      }

  unfoldable pub proof_found : World → Db → Option Log → Option Batch → Option LogProof
  unfolding proof_of
  proof_found w tables none batch = none
  proof_found w tables (some log) none = none
  proof_found w tables (some log) (some batch) = some (proof_of w tables log batch)

  unfoldable pub proof_by : World → Db → Option LogBatchMapping → Option LogProof
  unfolding proof_found
  proof_by w tables none = none
  proof_by w tables (some m) =
      proof_found w tables (find (λ (l : Log). text_eq (log_id l) m.log_id) tables.logs)
        (find (λ (b : Batch). text_eq b.id m.batch_id) tables.batches)

  -- `none` is null: the log is not sealed yet.
  unfoldable pub get_proof_for_log : World → Text → Db → Option LogProof
  unfolding proof_by
  get_proof_for_log w id tables =
      proof_by w tables (find (λ (m : LogBatchMapping). text_eq m.log_id id) tables.mappings)
