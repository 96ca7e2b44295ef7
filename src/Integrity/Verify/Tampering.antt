-- ===== src/Integrity/Verify/Tampering.antt =====
-- From the hash of a log to the report: `rawHash` bound at ingest, and a round of verification.
use logchain.Prelude.{
  ℕ, ◌≡◌, ap, true, false, not, Text, List, is_empty, In, In-filter, In-find, filter-nonempty,
  IsKeyed, filter-IsKeyed,
}
use logchain.Entities.{Log, Batch, Db}
use logchain.LogHash.{Runtime, RawHashInput, compute_raw_hash, is_raw_hash_intact}
use logchain.LogHash.Laws.{SameEvidence, is_raw_hash_intact_changed}
use logchain.Merkle.{MerkleTree}
use logchain.Integrity.State.{World, batch_key, logs_for_batch}
use logchain.Integrity.Verify.{modified_logs, is_verified, verify_all_batches}
use logchain.Integrity.Verify.Detects.{IsReported, verify_each-reports}

module _ (rt : Runtime) (no_collision : (s t : Text) → rt.sha256 s ≡ rt.sha256 t → s ≡ t)
    (iso_injective : (m n : ℕ) → rt.iso m ≡ rt.iso n → m ≡ n) where
  changed-modified :
      (original : RawHashInput) (row : Log) (logs : List Log)
      → In row logs
      → row.raw_hash ≡ compute_raw_hash rt original
      → ¬ SameEvidence rt original row.content
      → is_empty (modified_logs rt logs) ≡ false
  unfolding modified_logs
  changed-modified original row logs m bound changed =
      filter-nonempty (λ (l : Log). not (is_raw_hash_intact rt l.hashed)) row logs m
        (ap not (
          is_raw_hash_intact_changed rt no_collision iso_injective original row.hashed bound
            changed))

  -- Where sha256 has no collision, dates print apart and batch ids are unique: if a row of a batch
  -- that is CONFIRMED, UNVERIFIED, TAMPERED or SEALED still has the raw hash bound at ingest and any
  -- field of its evidence was changed, a round of verification marks the batch as tampered and
  -- leaves an open alert for it, with a chain or without one, whatever the chain answers for this
  -- batch and for the others, and whatever the other batches hold.
  pub verify_all_batches-reports_change :
      (lib : MerkleTree) (ws : ℕ → World) (db : Db) (b : Batch) (original : RawHashInput)
      (row : Log)
      → IsKeyed batch_key db.batches
      → In b db.batches
      → is_verified rt lib b ≡ true
      → In row (logs_for_batch b.id db)
      → row.raw_hash ≡ compute_raw_hash rt original
      → ¬ SameEvidence rt original row.content
      → IsReported b.id (verify_all_batches rt lib ws db)
  unfolding verify_all_batches
  verify_all_batches-reports_change lib ws db b original row keyed m v mine bound changed =
      verify_each-reports rt lib ws b _ db (In-filter (is_verified rt lib) b db.batches m v)
        (filter-IsKeyed batch_key (is_verified rt lib) db.batches keyed)
        (In-find batch_key b db.batches m keyed)
        (changed-modified original row (logs_for_batch b.id db) mine bound changed)
