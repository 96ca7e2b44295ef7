-- ===== src/Dashboard/Merkle.antt =====
-- cylis-dashboard/src/lib/merkle.ts and mock/merkleMock.ts: the tree, the path from a leaf to the
-- root, and the check of a proof against it. A byte is a number; SHA-256 of bytes is a parameter.
pub mod Pair
pub mod Tree
pub mod Path
use logchain.Prelude.{
  ℕ, zero, suc, ◌+◌, ◌-◌, ◌*◌, ◌/◌, ◌%◌, Bool, true, false, ◌&&◌, ◌||◌, not, Option, none, some,
  List, [], ◌∷◌, ◌++◌, map, filter, length, get_elem?, Text, codes, text_eq, ltb, leb, ◌==◌,
  is_some, is_empty, drop, if◌then◌else◌,
}
use logchain.Json.{hex_digit}
use logchain.LogHash.{to_lower}
use logchain.Merkle.{Side, left, right, MerkleProofItem, Promoted, promoted_from}

abbrev pub Bytes : Type 0
Bytes = List ℕ

-- `hex.replace(/^0x/i, '')`
pub strip_prefix : Text → Text
strip_prefix [] = []
strip_prefix (a ∷ []) = a ∷ []
strip_prefix (a ∷ b ∷ s) = if (a == b'0') && (b == b'x' || b == b'X') then s else a ∷ b ∷ s

-- The value of a hexadecimal digit; what is none makes `parseInt` give NaN, which is stored as 0.
digit_value : ℕ → Option ℕ
digit_value c =
    if leb 48 c && leb c 57
    then some (c - 48)
    else if leb 97 c && leb c 102
    then some (c - 87)
    else if leb 65 c && leb c 70
    then some (c - 55)
    else none

-- `parseInt` of two characters: it stops at the first that is no digit. (Signs and blanks, which it
-- takes too, do not stand in hashes.)
byte_value : Option ℕ → Option ℕ → ℕ
byte_value none l = 0
byte_value (some h) none = h
byte_value (some h) (some l) = h * 16 + l

-- Pairs of characters; a last one alone is left out.
bytes_from : Text → Bytes
unfolding digit_value byte_value
bytes_from [] = []
bytes_from (a ∷ []) = []
bytes_from (a ∷ b ∷ s) = byte_value (digit_value a) (digit_value b) ∷ bytes_from s

unfoldable pub hex_to_bytes : Text → Bytes
unfolding strip_prefix bytes_from
hex_to_bytes hex = bytes_from (strip_prefix hex)

hex_from : Bytes → Text
hex_from [] = []
hex_from (b ∷ bytes) = hex_digit (b / 16) ∷ hex_digit (b % 16) ∷ hex_from bytes

unfoldable pub bytes_to_hex : Bytes → Text
unfolding hex_from
bytes_to_hex bytes = codes "0x" ++ hex_from bytes

-- `compareBytes(a, b) <= 0`
unfoldable pub bytes_leb : Bytes → Bytes → Bool
bytes_leb [] b = true
bytes_leb (x ∷ a) [] = false
bytes_leb (x ∷ a) (y ∷ b) = let rest = bytes_leb a b in if x == y then rest else ltb x y

unfoldable pub sorted_pair : Bytes → Bytes → Bytes
unfolding bytes_leb
sorted_pair a b = if bytes_leb a b then a ++ b else b ++ a

-- `!!a && !!b && ...`
unfoldable pub same_hash : Option Text → Text → Bool
unfolding strip_prefix to_lower
same_hash none b = false
same_hash (some a) b =
    not (is_empty a)
    && not (is_empty b)
    && text_eq (to_lower (strip_prefix a)) (to_lower (strip_prefix b))

-- `i ^ 1`
unfoldable pub sibling : ℕ → ℕ
sibling i = if i % 2 == 0 then i + 1 else i - 1

pub record PathStep : Type 0 where
  pub layer : ℕ
  pub index : ℕ
  pub hash : Text
  pub sibling_index : Option ℕ
  pub sibling_hash : Option Text
  pub sibling_side : Option Side

-- The step at a layer that is not the last: with a sibling, or moved up.
inner_step : ℕ → List Text → ℕ → Text → Option Text → PathStep
unfolding sibling
inner_step l nodes i h none = record {
  layer = l;
  index = i;
  hash = h;
  sibling_index = none;
  sibling_hash = none;
  sibling_side = none;
}
inner_step l nodes i h (some s) = record {
  layer = l;
  index = i;
  hash = h;
  sibling_index = some (sibling i);
  sibling_hash = some s;
  sibling_side = some (if ltb (sibling i) i then left else right);
}

-- The step at a node, with the steps above it; `none` where an index is out of range, which gives up
-- all steps.
add_step : ℕ → List Text → ℕ → Option Text → Option (List PathStep) → Option (List PathStep)
unfolding inner_step
add_step l nodes i none rest = none
add_step l nodes i (some h) none = none
add_step l nodes i (some h) (some steps) =
    some (inner_step l nodes i h (get_elem? nodes (sibling i)) ∷ steps)

-- The step at the last layer.
last_step : ℕ → List Text → ℕ → Option Text → Option (List PathStep)
unfolding inner_step
last_step l nodes i none = none
last_step l nodes i (some h) = some (inner_step l nodes i h none ∷ [])

-- The loop over the layers.
unfoldable pub path_from : ℕ → List (List Text) → ℕ → Option (List PathStep)
unfolding add_step last_step
path_from l [] i = some []
path_from l (nodes ∷ []) i = last_step l nodes i (get_elem? nodes i)
path_from l (nodes ∷ next ∷ more) i =
    add_step l nodes i (get_elem? nodes i) (path_from (suc l) (next ∷ more) (i / 2))

or_none : Option (List PathStep) → List PathStep
or_none none = []
or_none (some steps) = steps

unfoldable pub proof_path : List (List Text) → ℕ → List PathStep
unfolding path_from or_none
proof_path layers i = or_none (path_from 0 layers i)

same_side : Option Side → Side → Bool
same_side none s = false
same_side (some left) left = true
same_side (some left) right = false
same_side (some right) left = false
same_side (some right) right = true

matches : List PathStep → List MerkleProofItem → Bool
unfolding same_hash same_side
matches [] [] = true
matches [] (p ∷ proof) = false
matches (s ∷ steps) [] = false
matches (s ∷ steps) (p ∷ proof) =
    same_hash s.sibling_hash p.data' && same_side s.sibling_side p.position && matches steps proof

-- `checkProofAgainstPath(path, proof).ok`
unfoldable pub check_proof_against_path : List PathStep → List MerkleProofItem → Bool
unfolding matches
check_proof_against_path path proof =
    matches (filter (λ (s : PathStep). is_some s.sibling_index) path) proof

module _ (sha256 : Bytes → Bytes) where
  -- `leafHash` and `browserLeafHash`: `utf8` is the text's encoding.
  pub leaf_hash : (Text → Bytes) → Text → Text
  unfolding bytes_to_hex
  leaf_hash utf8 raw_hash = bytes_to_hex (sha256 (utf8 raw_hash))

  -- `parentHash` and `browserParentHash`
  unfoldable pub parent_hash : Text → Text → Text
  unfolding bytes_to_hex sorted_pair hex_to_bytes
  parent_hash a b = bytes_to_hex (sha256 (sorted_pair (hex_to_bytes a) (hex_to_bytes b)))

  -- One round of the loop of `buildLayers`.
  unfoldable pub next_layer : List Text → List Text
  unfolding parent_hash
  next_layer [] = []
  next_layer (a ∷ []) = a ∷ []
  next_layer (a ∷ b ∷ nodes) = parent_hash a b ∷ next_layer nodes

  -- The loop, on as many rounds as there may be; `none` is one that did not end.
  unfoldable pub layers_from : ℕ → List Text → Option (List (List Text))
  unfolding next_layer
  layers_from zero nodes = if leb (length nodes) 1 then some (nodes ∷ []) else none
  layers_from (suc n) nodes =
      let rest = layers_from n (next_layer nodes) in
      if leb (length nodes) 1
      then some (nodes ∷ [])
      else elim rest [ none ↦ none | some layers ↦ some (nodes ∷ layers) ]

  -- `buildLayers(rawHashes).layers`
  unfoldable pub build_layers : (Text → Bytes) → List Text → Option (List (List Text))
  unfolding leaf_hash layers_from
  build_layers utf8 [] = some []
  build_layers utf8 (r ∷ raw_hashes) =
      layers_from (length (r ∷ raw_hashes)) (map (leaf_hash utf8) (r ∷ raw_hashes))
