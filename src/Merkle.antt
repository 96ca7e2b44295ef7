-- ===== src/Merkle.antt =====
-- src/integrity/service/merkle.service.ts. The tree is built by the package merkletreejs, which is
-- a parameter here; a digest is its hexadecimal text.
use logchain.Prelude.{
  ℕ, ◌+◌, ◌-◌, ◌%◌, ◌≡◌, Bool, List, [], ◌∷◌, ◌++◌, map, Text, codes, length, drop, starts_with,
  ◌==◌, if◌then◌else◌,
}

pub data Side : Type 0 where
  left right : Side

pub record MerkleProofItem : Type 0 where
  pub position : Side
  pub data' : Text

-- `digest` is the helper `sha256` of a text; the others are what `new MerkleTree(leaves, sha256,
-- { sortPairs: true })` gives for hashed leaves, and `MerkleTree.verify`.
pub record MerkleTree : Type 0 where
  pub digest : Text → Text
  pub hex_root : List Text → Text
  pub layers : List Text → List (List Text)
  pub proof : List Text → Text → List MerkleProofItem
  pub verify : List MerkleProofItem → Text → Text → Bool

-- What `getHexRoot` is documented to return: `0x` and hexadecimal digits.
pub record IsHexRoot (lib : MerkleTree) : Type 0 where
  pub digits : List Text → Text
  pub prefixed : (leaves : List Text) → lib.hex_root leaves ≡ codes "0x" ++ digits leaves

module _ (lib : MerkleTree) where
  -- The root that `buildTree` returns with the tree.
  unfoldable pub build_root : List Text → Text
  build_root leaves = lib.hex_root (map lib.digest leaves)

  unfoldable pub leaf_hash : Text → Text
  leaf_hash raw_hash = codes "0x" ++ lib.digest raw_hash

-- A node that moved up a layer without being hashed.
pub record Promoted : Type 0 where
  pub layer : ℕ
  pub index : ℕ

-- The loop over all layers but the last: a layer of odd size promotes its last node.
unfoldable pub promoted_from : ℕ → List (List Text) → List Promoted
promoted_from l [] = []
promoted_from l (layer ∷ []) = []
promoted_from l (layer ∷ next ∷ more) =
    let rest = promoted_from (l + 1) (next ∷ more) in
    if length layer % 2 == 1 then record { layer = l; index = length layer - 1 } ∷ rest else rest

pub record Layers : Type 0 where
  pub layers : List (List Text)
  pub promoted : List Promoted
  pub root : Text

module _ (lib : MerkleTree) where
  unfoldable pub get_layers : List Text → Layers
  unfolding build_root promoted_from
  get_layers leaves =
      let layers = map (map (◌++◌ (codes "0x"))) (lib.layers (map lib.digest leaves)) in
      record { layers = layers; promoted = promoted_from 0 layers; root = build_root lib leaves }

  prefix_item : MerkleProofItem → MerkleProofItem
  prefix_item p = record { position = p.position; data' = codes "0x" ++ p.data' }

  unfoldable pub get_proof : List Text → Text → List MerkleProofItem
  unfolding prefix_item
  get_proof leaves target = map prefix_item (lib.proof (map lib.digest leaves) (lib.digest target))

-- `data.replace('0x', '')`: the first occurrence goes.
without_prefix : Text → Text
unfolding starts_with
without_prefix [] = []
without_prefix (c ∷ s) =
    let rest = without_prefix s in
    if starts_with (codes "0x") (c ∷ s) then drop 2 (c ∷ s) else c ∷ rest

bare_item : MerkleProofItem → MerkleProofItem
unfolding without_prefix
bare_item p = record { position = p.position; data' = without_prefix p.data' }

module _ (lib : MerkleTree) where
  unfoldable pub verify_proof : Text → List MerkleProofItem → Text → Bool
  unfolding bare_item
  verify_proof leaf proof root = lib.verify (map bare_item proof) (lib.digest leaf) root
