-- ===== src/Integrity/BatchDiff/Sound.antt =====
-- What holds of a batch whose diff is INTACT.
use logchain.Prelude.{
  find, text_eq, ◌≡◌, refl, sym, ap, ◌∙◌, false, ◌⊎◌, Option, none, some, [], map, Text, option_eq,
  All, if_both, is_empty,
}
use logchain.Entities.{Batch, Log, BatchLogSnapshot, Db}
use logchain.LogHash.{Runtime, recompute_content_leaf}
use logchain.Merkle.{MerkleTree}
use logchain.Blockchain.Check.{read_chain_root}
use logchain.Integrity.State.{World, logs_for_batch}
use logchain.Integrity.BatchDiff.{
  hex, snapshots_of, chain_root_of, chain_error_of, intact, Base, BatchDiff, is_not_anchored,
  is_unverifiable, root_of, base_of, base_reference,
}
use logchain.Integrity.BatchDiff.Counting.{diff_found-batch}
use logchain.Integrity.BatchDiff.Compare.{
  legacy_diff, trusted_diff, untrusted_diff, untrusted, snapshot_diff, snapshot_doubts, diff_by,
  settle, diff_batch, diff,
}
use logchain.Integrity.BatchDiff.Unchanged.{IsUnchanged, IsInSnapshot}

-- The roots are one root: the one on the chain, where the chain holds one.
pub record RootsAgree (b : Base) : Type 0 where
  pub stored : b.stored_hash_root ≡ some (base_reference b)
  pub content : b.content_root ≡ some (base_reference b)
  pub db : b.db_root ≡ base_reference b

-- What an INTACT batch has: agreeing roots, an answer of the chain where it has a transaction, a
-- place on the chain where it is in a state before that, and, with a snapshot, the same logs.
pub record IsIntact (rt : Runtime) (b : Base) : Type 0 where
  pub roots : RootsAgree b
  pub readable : is_unverifiable b ≡ false
  pub anchored : is_not_anchored b ≡ false
  pub logs :
      (b.snapshots ≡ [])
      ⊎ (All (IsUnchanged rt b.current) b.snapshots × All (IsInSnapshot b.snapshots) b.current)

abbrev LogsAgree : Runtime → Base → Type 0
LogsAgree rt b =
    (b.snapshots ≡ [])
    ⊎ (All (IsUnchanged rt b.current) b.snapshots × All (IsInSnapshot b.snapshots) b.current)

-- Before `settle`.
Agrees : Runtime → Base → BatchDiff → Type 0
Agrees rt b d =
    d.summary.verdict ≡ intact → RootsAgree b × (is_unverifiable b ≡ false) × LogsAgree rt b

module _ (rt : Runtime) (tables : Db) (b : Base) where
  diff_by-base : (root : Option Text) → (diff_by b rt tables root).base ≡ b
  unfolding diff_by legacy_diff snapshot_diff trusted_diff untrusted_diff untrusted
  diff_by-base none = refl
  diff_by-base (some root) =
      if_both (λ (d : BatchDiff). d.base ≡ b) (is_empty (snapshot_doubts b rt root)) _ _ (λ y. refl)
        (λ n.
          if_both (λ (d : BatchDiff). d.base ≡ b)
            (option_eq b.stored_hash_root (some (base_reference b))) _ _ (λ y. refl) (λ k. refl))

  settle-base : (d : BatchDiff) → (settle b d).base ≡ d.base
  unfolding settle
  settle-base d =
      if_both (λ (e : BatchDiff). e.base ≡ d.base) (is_not_anchored b) _ d (λ y. refl) (λ n. refl)

-- What a diff was made from.
pub diff-base :
    (rt : Runtime) (lib : MerkleTree) (explorer : Option Text) (w : World) (id : Text) (tables : Db)
    (d : BatchDiff)
    → diff rt lib explorer w id tables ≡ some d
    → (b : Batch) × (find (λ (x : Batch). text_eq x.id id) tables.batches ≡ some b)
      × (d.base ≡ base_of rt lib explorer w tables b)
unfolding diff diff_batch
diff-base rt lib explorer w id tables d h =
    let (b, found, same) = diff_found-batch rt lib explorer w tables _ d h in
    let base = base_of rt lib explorer w tables b in
    let root = root_of lib (map (λ (s : BatchLogSnapshot). s.raw_hash) base.snapshots) in
    (
      b,
      found,
      ap (λ (e : BatchDiff). e.base) (sym same)
          ∙ settle-base rt tables base (diff_by base rt tables root)
          ∙ diff_by-base rt tables base root,
    )

-- What the diff compared is what the tables and the chain hold: the row of the batch and its stored
-- root, the mapped logs and the snapshot, the roots of the raw hashes and of the contents of these
-- logs, and the answer that the chain gives for the batch.
pub record IsReadFrom (rt : Runtime) (lib : MerkleTree) (w : World) (id : Text) (tables : Db)
    (b : Base) : Type 0 where
  pub found : find (λ (x : Batch). text_eq x.id id) tables.batches ≡ some b.batch
  pub current : b.current ≡ logs_for_batch b.batch.id tables
  pub snapshots : b.snapshots ≡ snapshots_of b.batch.id tables
  pub db_root : b.db_root ≡ hex b.batch.merkle_root
  pub stored_hash_root :
      b.stored_hash_root
      ≡ root_of lib (map (λ (l : Log). l.raw_hash) (logs_for_batch b.batch.id tables))
  pub content_root :
      b.content_root
      ≡ root_of lib
          (map (λ (l : Log). recompute_content_leaf rt l.hashed) (logs_for_batch b.batch.id tables))
  pub chain_root : b.chain_root ≡ chain_root_of (read_chain_root w.ready (w.get_root b.batch.id))
  pub chain_error : b.chain_error ≡ chain_error_of (read_chain_root w.ready (w.get_root b.batch.id))
