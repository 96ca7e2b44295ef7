-- ===== src/Integrity/Proof/Backed.antt =====
-- What holds of a log that its proof calls INTACT.
use logchain.Prelude.{
  ◌∙◌, some-inj, subst, ◌≡◌, refl, sym, true, ◌⊎◌, inl, inr, Bool-cases, Option, none, some, List,
  map, find, find-In, In, In-map, Text, text_eq, text_eq-eq, option_eq-eq, if_both, and-true,
}
use logchain.Entities.{Log, log_id, Batch, LogBatchMapping, BatchLogSnapshot, Db}
use logchain.LogHash.{Runtime, is_raw_hash_intact, recompute_content_leaf}
use logchain.LogHash.Laws.{recompute_content_leaf-eq-raw_hash}
use logchain.Merkle.{MerkleTree}
use logchain.Blockchain.Check.{read_chain_root}
use logchain.Integrity.State.{World, logs_for_batch}
use logchain.Integrity.BatchDiff.{
  Baseline, snapshot, raw_hash, none_known, hex, root_of, anchored_on_chain, chain_root_of,
}
use logchain.Integrity.Proof.{
  intact_log, content_modified_log, hash_modified_log, unknown_log, LogProof, is_on_chain,
  all_snapshots, is_snapshot_trusted, are_hashes_anchored, baseline_of, integrity_of, proof_of,
  proof_found, proof_by, get_proof_for_log,
}

-- A chain that was read, and a root of the database that is the chain's.
pub IsRootOnChain : Option Text → Option Text → Type 0
IsRootOnChain root none = ⊥
IsRootOnChain root (some chain) = root ≡ some (hex chain)

is_on_chain-IsRootOnChain :
    (root chain : Option Text) → is_on_chain root chain ≡ true → IsRootOnChain root chain
unfolding is_on_chain IsRootOnChain
is_on_chain-IsRootOnChain root none h = cc
is_on_chain-IsRootOnChain root (some c) h = option_eq-eq _ _ h

abbrev snapshot_hashes : List BatchLogSnapshot → List Text
snapshot_hashes snaps = map (λ (s : BatchLogSnapshot). s.raw_hash) snaps

abbrev log_hashes : List Log → List Text
log_hashes logs = map (λ (l : Log). l.raw_hash) logs

-- What an INTACT log has: a root on the chain that is not zero, its content's own hash, and that
-- hash among the snapshots with the chain's root, or a batch whose stored hashes have that root.
pub record IsBacked (rt : Runtime) (lib : MerkleTree) (chain : Option Text)
    (snaps : List BatchLogSnapshot) (logs : List Log) (log : Log) : Type 0 where
  pub verifiable : anchored_on_chain chain ≡ true
  pub hash_intact : is_raw_hash_intact rt log.hashed ≡ true
  pub root_on_chain :
      (IsRootOnChain (root_of lib (snapshot_hashes snaps)) chain
        × In log.raw_hash (snapshot_hashes snaps))
      ⊎ IsRootOnChain (root_of lib (log_hashes logs)) chain

module _ (rt : Runtime) (lib : MerkleTree) (chain : Option Text) (snaps : List BatchLogSnapshot)
    (logs : List Log) (log : Log) where
  abbrev the_snapshot : Option BatchLogSnapshot
  the_snapshot = find (λ (s : BatchLogSnapshot). text_eq s.log_id (log_id log)) snaps

  -- What a baseline proves of a log that it calls INTACT.
  Backs : Baseline → Type 0
  Backs b =
      integrity_of rt lib b the_snapshot log ≡ intact_log → IsBacked rt lib chain snaps logs log

  snapshot-matches :
      (s : Option BatchLogSnapshot)
      → the_snapshot ≡ s
      → integrity_of rt lib snapshot s log ≡ intact_log
      → (is_raw_hash_intact rt log.hashed ≡ true) × In log.raw_hash (snapshot_hashes snaps)
  unfolding integrity_of
  snapshot-matches none e h = cc
  snapshot-matches (some s) e h =
      elim (Bool-cases (is_raw_hash_intact rt (record log.hashed { raw_hash = s.raw_hash }))) [
        | inr n ↦ absurd (differ (rw n at h))
        | inl y ↦ elim (Bool-cases (text_eq log.raw_hash s.raw_hash)) [
          | inr n ↦ absurd (differ_hash (rw (y, n) at h))
          | inl k ↦ (
            subst (λ r. is_raw_hash_intact rt (record log.hashed { raw_hash = r }) ≡ true)
                (sym (text_eq-eq _ _ k)) y,
            subst (λ r. In r (snapshot_hashes snaps)) (sym (text_eq-eq _ _ k))
                (In-map (λ (x : BatchLogSnapshot). x.raw_hash) s snaps (find-In _ s snaps e).0),
          )
        ]
      ]
    where
      differ : content_modified_log ≡ intact_log → ⊥
      differ h = cc

      differ_hash : hash_modified_log ≡ intact_log → ⊥
      differ_hash h = cc

  snapshot-Backs : is_snapshot_trusted rt lib chain snaps ≡ true → Backs snapshot
  unfolding is_snapshot_trusted Backs
  snapshot-Backs h i =
      let (three, selves) = and-true _ _ h in
      let (two, on_chain) = and-true _ _ three in
      let (intact, member) = snapshot-matches the_snapshot refl i in
      record {
        verifiable = (and-true _ _ two).0;
        hash_intact = intact;
        root_on_chain = inl (is_on_chain-IsRootOnChain _ _ on_chain, member);
      }

  raw_hash-Backs : are_hashes_anchored rt lib chain logs ≡ true → Backs raw_hash
  unfolding are_hashes_anchored Backs integrity_of
  raw_hash-Backs h i =
      let (read, on_chain) = and-true _ _ h in
      elim (Bool-cases (text_eq (recompute_content_leaf rt log.hashed) log.raw_hash)) [
        | inl y ↦ record {
          verifiable = read;
          hash_intact = sym (recompute_content_leaf-eq-raw_hash rt log.hashed) ∙ y;
          root_on_chain = inr (is_on_chain-IsRootOnChain _ _ on_chain);
        }
        | inr n ↦ absurd (differ (rw n at i))
      ]
    where
      differ : content_modified_log ≡ intact_log → ⊥
      differ h = cc

  baseline_of-Backs : Backs (baseline_of rt lib chain snaps logs)
  unfolding baseline_of Backs integrity_of
  baseline_of-Backs =
      if_both Backs (is_snapshot_trusted rt lib chain snaps) _ _ snapshot-Backs (λ n.
        if_both Backs (are_hashes_anchored rt lib chain logs) _ _ raw_hash-Backs (λ m. unknown))
    where
      differ : unknown_log ≡ intact_log → ⊥
      differ h = cc

      unknown : Backs none_known
      unknown h = absurd (differ h)

absent : {A B : Type 0} {a : A} → none ≡ some a → B
absent h = cc

module _ (rt : Runtime) (lib : MerkleTree) (w : World) (tables : Db) where
  -- The answer of the contract for the batch of the proof.
  abbrev pub chain_of : LogProof → Option Text
  chain_of p = chain_root_of (read_chain_root w.ready (w.get_root p.batch.id))

  abbrev pub BackedProof : LogProof → Type 0
  BackedProof p =
      (p.chain_root ≡ chain_of p)
      × IsBacked rt lib (chain_of p) (all_snapshots rt lib p.batch.id tables)
          (logs_for_batch p.batch.id tables) p.log

  proof_of-IsBacked :
      (log : Log) (b : Batch)
      → (proof_of rt lib w tables log b).integrity ≡ intact_log
      → BackedProof (proof_of rt lib w tables log b)
  unfolding proof_of Backs
  proof_of-IsBacked log b h = (
    refl,
    baseline_of-Backs rt lib (chain_root_of (read_chain_root w.ready (w.get_root b.id)))
        (all_snapshots rt lib b.id tables) (logs_for_batch b.id tables) log h,
  )

  proof_found-IsBacked :
      (log : Option Log) (b : Option Batch) (p : LogProof)
      → proof_found rt lib w tables log b ≡ some p
      → p.integrity ≡ intact_log
      → BackedProof p
  unfolding proof_found
  proof_found-IsBacked none b p h = absent h
  proof_found-IsBacked (some log) none p h = absent h
  proof_found-IsBacked (some log) (some b) p h =
      subst (λ (q : LogProof). q.integrity ≡ intact_log → BackedProof q) (some-inj h)
        (proof_of-IsBacked log b)

  proof_by-IsBacked :
      (m : Option LogBatchMapping) (p : LogProof)
      → proof_by rt lib w tables m ≡ some p
      → p.integrity ≡ intact_log
      → BackedProof p
  unfolding proof_by
  proof_by-IsBacked none p h = absent h
  proof_by-IsBacked (some m) p h = proof_found-IsBacked _ _ p h

-- The proof of a log says INTACT: the contract answered for the batch with a root that is not zero,
-- the root that the proof shows, the stored hash of the log is the hash of its content, and the
-- contract's root is the root either of snapshots of the batch that hold this hash, or of the hashes
-- that the batch's logs have in the database.
pub get_proof_for_log-IsBacked :
    (rt : Runtime) (lib : MerkleTree) (w : World) (id : Text) (tables : Db) (p : LogProof)
    → get_proof_for_log rt lib w id tables ≡ some p
    → p.integrity ≡ intact_log
    → BackedProof rt lib w tables p
unfolding get_proof_for_log
get_proof_for_log-IsBacked rt lib w id tables p found h =
    proof_by-IsBacked rt lib w tables _ p found h
