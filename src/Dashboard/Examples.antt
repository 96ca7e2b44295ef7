-- ===== src/Dashboard/Examples.antt =====
-- A tree over three raw hashes, where the last leaf moves up a layer.
use logchain.Prelude.{◌≡◌, refl, some, List, [], ◌∷◌, map, length, Text, codes}
use logchain.Dashboard.Merkle.{Bytes, leaf_hash, build_layers, proof_path}
use logchain.Dashboard.Merkle.Tree.{Built, build_layers-Built}
use logchain.Dashboard.Merkle.Path.{tree_root, climb, proof_path-climb}

-- A digest that keeps the first two bytes.
abbrev short : Bytes → Bytes
short [] = []
short (a ∷ []) = a ∷ []
short (a ∷ b ∷ bytes) = a ∷ b ∷ []

abbrev raw_hashes : List Text
raw_hashes = codes "bb" ∷ codes "cc" ∷ []

abbrev ascii : Text → Bytes
ascii t = t

build_layers-Built_example :
    Built short
      (map (leaf_hash short ascii) (codes "aa" ∷ raw_hashes))
      (build_layers short ascii (codes "aa" ∷ raw_hashes))
build_layers-Built_example = build_layers-Built short ascii (codes "aa") raw_hashes

proof_path-climb_example :
    (layers : List (List Text)) × (build_layers short ascii (codes "aa" ∷ raw_hashes) ≡ some layers)
    × (tree_root short layers
        ≡ some (climb short (leaf_hash short ascii (codes "cc")) (proof_path layers 2)))
    × (length (proof_path layers 2) ≡ length layers)
proof_path-climb_example =
    proof_path-climb short ascii (codes "aa") raw_hashes 2 (leaf_hash short ascii (codes "cc")) refl
