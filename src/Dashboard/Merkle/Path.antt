-- ===== src/Dashboard/Merkle/Path.antt =====
-- The path from a leaf, and the root that its hashes lead to.
use logchain.Prelude.{
  ℕ, zero, suc, ◌/◌, ◌≡◌, refl, sym, ap, ap₂, ◌∙◌, subst, some-inj, Option, none, some, List, [],
  ◌∷◌, map, length, get_elem?, Text, arith,
}
use logchain.Dashboard.Merkle.{
  Bytes, next_layer, parent_hash, sibling, PathStep, inner_step, add_step, last_step, or_none,
  path_from, proof_path, build_layers, leaf_hash,
}
use logchain.Dashboard.Merkle.Pair.{parent_hash_comm}
use logchain.Dashboard.Merkle.Tree.{IsTree, build_layers-Built}

half-suc : (i : ℕ) → suc (suc i) / 2 ≡ suc (i / 2)
half-suc i = omega arith

sibling-suc : (i : ℕ) → sibling (suc (suc i)) ≡ suc (suc (sibling i))
unfolding sibling
sibling-suc i = ground arith

module _ (sha256 : Bytes → Bytes) where
  -- The hash of the node above, from the sibling's hash, where there is one.
  abbrev pub above : Text → Option Text → Text
  above h none = h
  above h (some s) = parent_hash sha256 h s

  -- What the hashes of a path lead to, from the hash of the leaf.
  abbrev pub climb : Text → List PathStep → Text
  climb h [] = h
  climb h (s ∷ steps) = climb (above h s.sibling_hash) steps

  get_elem?-next_layer :
      (nodes : List Text) (i : ℕ) (h : Text)
      → get_elem? nodes i ≡ some h
      → get_elem? (next_layer sha256 nodes) (i / 2) ≡ some (above h (get_elem? nodes (sibling i)))
  unfolding next_layer sibling
  get_elem?-next_layer [] i h e = cc
  get_elem?-next_layer (a ∷ []) zero h e = e
  get_elem?-next_layer (a ∷ []) (suc i) h e = cc
  get_elem?-next_layer (a ∷ b ∷ nodes) zero h e =
      ap (λ x. some (parent_hash sha256 x b)) (some-inj e)
  get_elem?-next_layer (a ∷ b ∷ nodes) (suc zero) h e =
      ap some (parent_hash_comm sha256 a b ∙ ap (λ x. parent_hash sha256 x a) (some-inj e))
  get_elem?-next_layer (a ∷ b ∷ nodes) (suc (suc i)) h e =
      rw (half-suc i, sibling-suc i) (get_elem?-next_layer nodes i h e)

  -- `layers[layers.length - 1][0]`
  abbrev pub tree_root : List (List Text) → Option Text
  tree_root [] = none
  tree_root (nodes ∷ []) = get_elem? nodes 0
  tree_root (nodes ∷ next ∷ more) = tree_root (next ∷ more)

  -- From node `i` with hash `h` of the first layer, the path is there, has one step in each layer,
  -- and leads to the root.
  abbrev Reaches : List (List Text) → ℕ → Text → Option (List PathStep) → Type 0
  Reaches layers i h path =
      (steps : List PathStep) × (path ≡ some steps)
      × (tree_root layers ≡ some (climb h steps))
      × (length steps ≡ length layers)

  path_from-last :
      (l : ℕ) (root : Text) (i : ℕ) (h : Text)
      → get_elem? (root ∷ []) i ≡ some h
      → Reaches ((root ∷ []) ∷ []) i h (path_from l ((root ∷ []) ∷ []) i)
  unfolding path_from inner_step last_step
  path_from-last l root zero h e = (_, refl, e, refl)
  path_from-last l root (suc i) h e = cc

  inner_step-hash :
      (l : ℕ) (nodes : List Text) (i : ℕ) (h : Text) (s : Option Text)
      → (inner_step l nodes i h s).sibling_hash ≡ s
  unfolding inner_step
  inner_step-hash l nodes i h none = refl
  inner_step-hash l nodes i h (some s) = refl

  path_from-step :
      (l : ℕ) (nodes next : List Text) (more : List (List Text)) (i : ℕ) (h : Text)
      (steps : List PathStep)
      → get_elem? nodes i ≡ some h
      → path_from (suc l) (next ∷ more) (i / 2) ≡ some steps
      → path_from l (nodes ∷ next ∷ more) i
        ≡ some (inner_step l nodes i h (get_elem? nodes (sibling i)) ∷ steps)
  unfolding path_from add_step
  path_from-step l nodes next more i h steps e rest = ap₂ (add_step l nodes i) e rest

  path_from-Reaches :
      (l : ℕ) (layers : List (List Text)) (i : ℕ) (nodes : List Text) (more : List (List Text))
      (h : Text)
      → layers ≡ nodes ∷ more
      → IsTree sha256 (nodes ∷ more)
      → get_elem? nodes i ≡ some h
      → Reaches (nodes ∷ more) i h (path_from l (nodes ∷ more) i)
  path_from-Reaches l [] i nodes more h same tree e = cc
  path_from-Reaches l (n ∷ rest) i nodes [] h same tree e =
      let (root, single) = tree in
      subst (λ ns. Reaches (ns ∷ []) i h (path_from l (ns ∷ []) i)) (sym single)
        (path_from-last l root i h (ap (λ ns. get_elem? ns i) (sym single) ∙ e))
  path_from-Reaches l (n ∷ rest) i nodes (next ∷ more) h same tree e =
      let (made, upper) = tree in
      let s = get_elem? nodes (sibling i) in
      let (steps, found, root, count) =
        path_from-Reaches (suc l) rest (i / 2) next more (above h s) (tail same) upper
          (ap (λ ns. get_elem? ns (i / 2)) made ∙ get_elem?-next_layer nodes i h e) in
      (
        inner_step l nodes i h s ∷ steps,
        path_from-step l nodes next more i h steps e found,
        root ∙ ap (λ o. some (climb (above h o) steps)) (sym (inner_step-hash l nodes i h s)),
        ap suc count,
      )
    where
      tail : n ∷ rest ≡ nodes ∷ next ∷ more → rest ≡ next ∷ more
      tail k = cc

  proof_path-found :
      (layers : List (List Text)) (i : ℕ) (steps : List PathStep)
      → path_from 0 layers i ≡ some steps
      → proof_path layers i ≡ steps
  unfolding proof_path or_none
  proof_path-found layers i steps e = ap or_none e

  -- In the tree that buildLayers builds over raw hashes, of which there is one at least, the path
  -- from any leaf has one step in each layer, and the hashes of its siblings lead from the leaf's
  -- hash to the root.
  pub proof_path-climb :
      (utf8 : Text → Bytes) (r : Text) (raw_hashes : List Text) (i : ℕ) (h : Text)
      → get_elem? (map (leaf_hash sha256 utf8) (r ∷ raw_hashes)) i ≡ some h
      → (layers : List (List Text)) × (build_layers sha256 utf8 (r ∷ raw_hashes) ≡ some layers)
        × (tree_root layers ≡ some (climb h (proof_path layers i)))
        × (length (proof_path layers i) ≡ length layers)
  proof_path-climb utf8 r raw_hashes i h e =
      let leaves = map (leaf_hash sha256 utf8) (r ∷ raw_hashes) in
      let (more, built, tree) = build_layers-Built sha256 utf8 r raw_hashes in
      let (steps, found, root, count) =
        path_from-Reaches 0 (leaves ∷ more) i leaves more h refl tree e in
      (
        leaves ∷ more,
        built,
        rw (proof_path-found (leaves ∷ more) i steps found) root,
        rw (proof_path-found (leaves ∷ more) i steps found) count,
      )
