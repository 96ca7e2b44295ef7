-- ===== src/Integrity/BatchTree/Agrees.antt =====
-- The tree of a batch and its diff tell the same roots.
use logchain.Prelude.{
  sym, subst, ◌≡◌, refl, some, List, [], ◌∷◌, ◌++◌, map, Text, codes, starts_with, some-inj,
}
use logchain.Entities.{Batch, Db}
use logchain.LogHash.{Runtime, to_lower}
use logchain.Merkle.{MerkleTree, IsHexRoot, build_root}
use logchain.Integrity.State.{World}
use logchain.Integrity.BatchDiff.{BatchDiff, Base, hex, strip_prefix, root_of, base_of}
use logchain.Integrity.BatchDiff.Compare.{diff}
use logchain.Integrity.BatchDiff.Sound.{diff-base}
use logchain.Integrity.BatchTree.{BatchTree, Variables, lower_root, tree_of, found_tree, tree}

-- What the two pages say of one batch.
pub record SaysTheSame (t : BatchTree) (b : Base) : Type 0 where
  pub db_root : t.db_root ≡ b.db_root
  pub stored_hash_root : t.stored_hash_root ≡ b.stored_hash_root
  pub content_root : t.content_root ≡ b.content_root
  pub chain_root : t.chain_root ≡ b.chain_root
  pub chain_error : t.chain_error ≡ b.chain_error
  pub polygonscan_url : t.polygonscan_url ≡ b.polygonscan_url

hex-prefixed : (digits : Text) → hex (codes "0x" ++ digits) ≡ to_lower (codes "0x" ++ digits)
unfolding hex strip_prefix starts_with
hex-prefixed digits = refl

lower_root-eq-root_of :
    (lib : MerkleTree)
    → IsHexRoot lib
    → (leaves : List Text) → lower_root lib leaves ≡ root_of lib leaves
unfolding lower_root root_of build_root
lower_root-eq-root_of lib h [] = refl
lower_root-eq-root_of lib h (l ∷ leaves) =
    rw
      (
        h.prefixed (map lib.digest (l ∷ leaves)),
        hex-prefixed (h.digits (map lib.digest (l ∷ leaves))),
      )
      refl

module _ (rt : Runtime) (lib : MerkleTree) (env : Variables) (w : World) (tables : Db) where
  -- Made from one row.
  tree_of-SaysTheSame :
      (h : IsHexRoot lib) (b : Batch)
      → SaysTheSame (tree_of rt lib env w tables b) (base_of rt lib env.explorer w tables b)
  unfolding tree_of base_of
  tree_of-SaysTheSame h b = record {
    db_root = refl;
    stored_hash_root = lower_root-eq-root_of lib h _;
    content_root = lower_root-eq-root_of lib h _;
    chain_root = refl;
    chain_error = refl;
    polygonscan_url = refl;
  }

-- Where `getHexRoot` gives a text with the prefix 0x: the tree and the diff of one batch, made from
-- the same tables and answers, tell the same roots of the database, of the stored hashes, of the
-- contents and of the chain, the same error of the chain and the same link to the transaction.
pub tree-SaysTheSame :
    (rt : Runtime) (lib : MerkleTree) (hex : IsHexRoot lib) (env : Variables) (w : World)
    (tables : Db) (id : Text) (t : BatchTree) (d : BatchDiff)
    → tree rt lib env w tables id ≡ some t
    → diff rt lib env.explorer w id tables ≡ some d
    → SaysTheSame t d.base
unfolding tree found_tree
tree-SaysTheSame rt lib hex env w tables id t d made compared =
    let (b, found, base) = diff-base rt lib env.explorer w id tables d compared in
    let same = some-inj (rw found at made) in
    subst (λ (x : BatchTree). SaysTheSame x d.base) same
      (subst (SaysTheSame (tree_of rt lib env w tables b)) (sym base)
        (tree_of-SaysTheSame rt lib env w tables hex b))
