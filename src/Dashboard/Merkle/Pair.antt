-- ===== src/Dashboard/Merkle/Pair.antt =====
-- The order of the two children of a node.
use logchain.Prelude.{
  ◌≡◌, refl, sym, ap, ap₂, true, false, [], ◌∷◌, ◌++◌, Bool-cases, inl, inr, ◌==◌, arith, Text,
}
use logchain.Dashboard.Merkle.{
  Bytes, bytes_leb, sorted_pair, parent_hash, bytes_to_hex, hex_to_bytes,
}

bytes_leb_total : (a b : Bytes) → bytes_leb a b ≡ false → bytes_leb b a ≡ true
unfolding bytes_leb
bytes_leb_total [] b h = cc
bytes_leb_total (x ∷ a) [] h = refl
bytes_leb_total (x ∷ a) (y ∷ b) h = ground (arith, bytes_leb_total a b)

bytes_leb_antisym : (a b : Bytes) → bytes_leb a b ≡ true → bytes_leb b a ≡ true → a ≡ b
unfolding bytes_leb
bytes_leb_antisym [] [] h k = refl
bytes_leb_antisym [] (y ∷ b) h k = cc
bytes_leb_antisym (x ∷ a) [] h k = cc
bytes_leb_antisym (x ∷ a) (y ∷ b) h k = elim (Bool-cases (x == y)) [
  | inl e ↦ ap₂ ◌∷◌ (same e) (bytes_leb_antisym a b (left e) (right e))
  | inr n ↦ absurd (apart n)
]
  where
    same : (x == y) ≡ true → x ≡ y
    same e = ground arith

    left : (x == y) ≡ true → bytes_leb a b ≡ true
    left e = grind (arith, e, h)

    right : (x == y) ≡ true → bytes_leb b a ≡ true
    right e = ground arith

    apart : (x == y) ≡ false → ⊥
    apart n = ground arith

sorted_pair_comm : (a b : Bytes) → sorted_pair a b ≡ sorted_pair b a
unfolding sorted_pair
sorted_pair_comm a b = elim (Bool-cases (bytes_leb a b)) [
  | inl h ↦ elim (Bool-cases (bytes_leb b a)) [
    | inl k ↦ rw (h, k) (ap₂ ◌++◌ (bytes_leb_antisym a b h k) (sym (bytes_leb_antisym a b h k)))
    | inr k ↦ rw (h, k)
  ]
  | inr n ↦ rw (n, bytes_leb_total a b n)
]

-- A node's hash does not depend on which of its children comes first.
pub parent_hash_comm :
    (sha256 : Bytes → Bytes) (a b : Text) → parent_hash sha256 a b ≡ parent_hash sha256 b a
unfolding parent_hash
parent_hash_comm sha256 a b =
    ap (λ p. bytes_to_hex (sha256 p)) (sorted_pair_comm (hex_to_bytes a) (hex_to_bytes b))
