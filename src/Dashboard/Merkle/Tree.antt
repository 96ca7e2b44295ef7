-- ===== src/Dashboard/Merkle/Tree.antt =====
-- The layers that `buildLayers` builds.
use logchain.Prelude.{
  ℕ, zero, suc, ◌+◌, ◌≤◌, ◌≡◌, refl, Option, some, List, [], ◌∷◌, map, length, length-map, leb,
  leb→le, le→leb, Text, Bool-cases, inl, inr, arith,
}
use logchain.Dashboard.Merkle.{Bytes, next_layer, layers_from, build_layers, leaf_hash}

module _ (sha256 : Bytes → Bytes) where
  -- Each layer but the first is made of the one before, and the last is the root alone.
  abbrev pub IsTree : List (List Text) → Type 0
  IsTree [] = ⊥
  IsTree (nodes ∷ []) = (root : Text) × (nodes ≡ root ∷ [])
  IsTree (nodes ∷ next ∷ more) = (next ≡ next_layer sha256 nodes) × IsTree (next ∷ more)

  length-next_layer :
      (nodes : List Text)
      → length (next_layer sha256 nodes) + length (next_layer sha256 nodes) ≤ length nodes + 1
  unfolding next_layer
  length-next_layer [] = omega arith
  length-next_layer (a ∷ []) = omega arith
  length-next_layer (a ∷ b ∷ nodes) = omega (arith, length-next_layer nodes)

  next_layer-nonempty : (a : Text) (nodes : List Text) → 1 ≤ length (next_layer sha256 (a ∷ nodes))
  unfolding next_layer
  next_layer-nonempty a [] = omega arith
  next_layer-nonempty a (b ∷ nodes) = omega arith

  only : (a : Text) (nodes : List Text) → length (a ∷ nodes) ≤ 1 → a ∷ nodes ≡ a ∷ []
  only a [] h = refl
  only a (b ∷ nodes) h = absurd (omega (arith, h))

  -- What the loop gives on enough rounds: a tree above the layer it starts with.
  abbrev pub Built : List Text → Option (List (List Text)) → Type 0
  Built nodes result =
      (more : List (List Text)) × (result ≡ some (nodes ∷ more)) × IsTree (nodes ∷ more)

  layers_from-Built :
      (n : ℕ) (nodes : List Text)
      → 1 ≤ length nodes
      → length nodes ≤ suc n
      → Built nodes (layers_from sha256 n nodes)
  unfolding layers_from
  layers_from-Built n [] pos le = absurd (omega (arith, pos))
  layers_from-Built zero (a ∷ nodes) pos le =
      ([], rw (le→leb (length (a ∷ nodes)) 1 le) refl, (a, only a nodes le))
  layers_from-Built (suc n) (a ∷ nodes) pos le = elim (Bool-cases (leb (length (a ∷ nodes)) 1)) [
    | inl y ↦ ([], rw y refl, (a, only a nodes (leb→le (length (a ∷ nodes)) 1 y)))
    | inr k ↦
        let (more, found, tree) =
          layers_from-Built n (next_layer sha256 (a ∷ nodes)) (next_layer-nonempty a nodes)
            (omega (arith, le, length-next_layer (a ∷ nodes))) in
        (next_layer sha256 (a ∷ nodes) ∷ more, rw (k, found) refl, (refl, tree))
  ]

  -- The loop of buildLayers ends within as many rounds as there are leaves, for every list of raw
  -- hashes that is not empty: it gives a tree whose first layer is the leaf hashes, whose other
  -- layers are each made of the one below, and whose last layer is one node, the root.
  pub build_layers-Built :
      (utf8 : Text → Bytes) (r : Text) (raw_hashes : List Text)
      → Built
          (map (leaf_hash sha256 utf8) (r ∷ raw_hashes))
          (build_layers sha256 utf8 (r ∷ raw_hashes))
  unfolding build_layers
  build_layers-Built utf8 r raw_hashes =
      layers_from-Built (length (r ∷ raw_hashes)) (map (leaf_hash sha256 utf8) (r ∷ raw_hashes))
        (omega arith) (omega (arith, length-map (leaf_hash sha256 utf8) (r ∷ raw_hashes)))
