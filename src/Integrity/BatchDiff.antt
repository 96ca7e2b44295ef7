-- ===== src/Integrity/BatchDiff.antt =====
-- src/integrity/batch-diff.service.ts: which log of a batch was changed, deleted or put in. The
-- records it answers with, and what it reads before it compares.
pub mod Rows
pub mod Compare
pub mod Unchanged
pub mod Sound
pub mod Tally
pub mod Counting
mod Examples
use logchain.Prelude.{
  ℕ, Bool, true, false, not, ◌&&◌, ◌||◌, drop, starts_with, Option, none, some, List, [], ◌∷◌, ◌++◌,
  map, filter, find, sort, Text, codes, text_eq, leb, ◌==◌, is_empty, is_some, all, if◌then◌else◌,
}
use logchain.Errors.{Result}
use logchain.Entities.{
  Log, Batch, BatchStatus, pending, sealed, unverified, confirmed, tampered, failed,
  BatchLogSnapshot, Db,
}
use logchain.LogHash.{
  Runtime, RawHashCanonical, HashedLog, raw_hash_version, is_raw_hash_intact,
  recompute_content_leaf, to_lower,
}
use logchain.Merkle.{MerkleTree, build_root}
use logchain.Blockchain.Check.{
  ChainRead, root, error, read_chain_root, is_zero_root, explorer_tx_url,
}
use logchain.Integrity.State.{World, logs_for_batch}
use logchain.Integrity.Verify.{is_truthy}

pub data ChangeType : Type 0 where
  content_modified hash_modified deleted unmapped_or_inserted : ChangeType

pub record LogContent : Type 0 where
  pub canonical : RawHashCanonical
  pub raw_hash : Text

pub data FieldName : Type 0 where
  source_field source_ip_field event_type_field severity_field message_field : FieldName
  classification_field cde_scope_field created_at_field raw_hash_field content_hash_field :
      FieldName

pub data FieldValue : Type 0 where
  text : Option Text → FieldValue
  flag : Bool → FieldValue

pub record FieldChange : Type 0 where
  pub field : FieldName
  pub before : FieldValue
  pub after : FieldValue

pub data DeletedReason : Type 0 where
  row_missing mapping_missing : DeletedReason

pub data ChangeDetail : Type 0 where
  fields : List FieldChange → ChangeDetail
  deleted_row : DeletedReason → LogContent → ChangeDetail
  current_row : LogContent → ChangeDetail

pub record BatchChange : Type 0 where
  pub position : ℕ
  pub log_id : Text
  pub change_type : ChangeType
  pub detail : ChangeDetail

pub data Verdict : Type 0 where
  intact tampered_verdict unverifiable : Verdict

pub data UntrustedReason : Type 0 where
  snapshot_root_mismatch snapshot_content_mismatch not_anchored : UntrustedReason

pub data Baseline : Type 0 where
  snapshot raw_hash none_known : Baseline

pub data TrustBasis : Type 0 where
  chain_basis db_basis : TrustBasis

-- The counts of a summary; a batch that cannot be compared log by log has none.
pub record Counts : Type 0 where
  pub unchanged : ℕ
  pub content_modified : ℕ
  pub hash_modified : ℕ
  pub deleted : ℕ
  pub unmapped_or_inserted : ℕ

pub record Summary : Type 0 where
  pub verdict : Verdict
  pub snapshot_logs : ℕ
  pub mapped_logs : ℕ
  pub counts : Option Counts

-- What is read before anything is compared: `base`, and the values that the branches share.
pub record Base : Type 0 where
  pub batch : Batch
  pub polygonscan_url : Option Text
  pub chain_root : Option Text
  pub chain_error : Option Text
  pub db_root : Text
  pub stored_hash_root : Option Text
  pub content_root : Option Text
  pub checked_at : ℕ
  pub current : List Log
  pub snapshots : List BatchLogSnapshot

pub record BatchDiff : Type 0 where
  pub base : Base
  pub snapshot_root : Option Text
  pub snapshot_trusted : Option Bool
  pub trust_basis : Option TrustBasis
  pub untrusted_reasons : List UntrustedReason
  pub legacy : Bool
  pub baseline : Baseline
  pub summary : Summary
  pub changes : List BatchChange

-- `root.replace(/^0x/, '')`
unfoldable pub strip_prefix : Text → Text
unfolding starts_with
strip_prefix r = if starts_with (codes "0x") r then drop 2 r else r

-- `hex`
unfoldable pub hex : Text → Text
unfolding strip_prefix to_lower
hex r = to_lower (codes "0x" ++ strip_prefix r)

unfoldable pub chain_root_of : ChainRead → Option Text
chain_root_of (root r) = some r
chain_root_of (error e) = none

unfoldable pub chain_error_of : ChainRead → Option Text
chain_error_of (root r) = none
chain_error_of (error e) = some e

-- The root of a list of leaves, which an empty batch does not have.
unfoldable pub root_of : MerkleTree → List Text → Option Text
unfolding hex build_root
root_of lib [] = none
root_of lib (l ∷ leaves) = some (hex (build_root lib (l ∷ leaves)))

unfoldable pub snapshots_of : Text → Db → List BatchLogSnapshot
unfolding sort
snapshots_of batch_id db =
    sort (λ (a b : BatchLogSnapshot). leb a.position b.position)
      (filter (λ (s : BatchLogSnapshot). text_eq s.batch_id batch_id) db.snapshots)

-- The chain was read and its root is not zero.
unfoldable pub anchored_on_chain : Option Text → Bool
unfolding is_zero_root
anchored_on_chain none = false
anchored_on_chain (some r) = not (is_zero_root r)

-- The root that the others are compared with.
unfoldable pub reference : Option Text → Text → Text
unfolding anchored_on_chain
reference none db_root = db_root
reference (some r) db_root = if anchored_on_chain (some r) then r else db_root

-- PRE_ANCHOR_STATUSES
unfoldable pub is_pre_anchor : BatchStatus → Bool
is_pre_anchor failed = true
is_pre_anchor sealed = true
is_pre_anchor pending = true
is_pre_anchor unverified = false
is_pre_anchor confirmed = false
is_pre_anchor tampered = false

module _ (b : Base) where
  unfoldable pub is_unverifiable : Bool
  is_unverifiable = is_some b.chain_error && is_truthy b.batch.tx_hash

  unfoldable pub is_not_anchored : Bool
  unfolding is_pre_anchor anchored_on_chain
  is_not_anchored =
      not (is_truthy b.batch.tx_hash)
      && is_pre_anchor b.batch.status
      && not (anchored_on_chain b.chain_root)

  unfoldable pub base_reference : Text
  unfolding reference
  base_reference = reference b.chain_root b.db_root

-- `explorer` is the variable BLOCKCHAIN_EXPLORER_TX_URL.
unfoldable pub base_of : Runtime → MerkleTree → Option Text → World → Db → Batch → Base
unfolding hex root_of chain_root_of chain_error_of snapshots_of logs_for_batch
    recompute_content_leaf read_chain_root explorer_tx_url
base_of rt lib explorer w tables b =
    let current = logs_for_batch b.id tables in
    let chain_read = read_chain_root w.ready (w.get_root b.id) in
    record {
      batch = b;
      polygonscan_url = explorer_tx_url b.tx_hash explorer;
      chain_root = chain_root_of chain_read;
      chain_error = chain_error_of chain_read;
      db_root = hex b.merkle_root;
      stored_hash_root = root_of lib (map (λ (l : Log). l.raw_hash) current);
      content_root = root_of lib (map (λ (l : Log). recompute_content_leaf rt l.hashed) current);
      checked_at = w.now;
      current = current;
      snapshots = snapshots_of b.id tables;
    }

-- `snapshotIntact`, which is `snapshotSelfIntact` of integrity.service.ts too.
module _ (rt : Runtime) where
  intact_at : BatchLogSnapshot → Option ℕ → Bool
  unfolding is_raw_hash_intact
  intact_at s none = false
  intact_at s (some created_at) = is_raw_hash_intact rt (record {
    content = record {
      id = s.snapshot.id;
      source = s.snapshot.source;
      source_ip = s.snapshot.source_ip;
      event_type = s.snapshot.event_type;
      severity = s.snapshot.severity;
      message = s.snapshot.message;
      classification = s.snapshot.classification;
      cde_scope = s.snapshot.cde_scope;
      created_at = created_at;
    };
    raw_hash = s.raw_hash;
  })

  unfoldable pub snapshot_intact : BatchLogSnapshot → Bool
  unfolding intact_at
  snapshot_intact s =
      if not (s.snapshot.v == raw_hash_version) || not (text_eq s.snapshot.id s.log_id)
      then false
      else intact_at s (rt.parse_date s.snapshot.created_at)
