-- ===== src/Integrity/BatchTree.antt =====
-- src/integrity/batch-tree.service.ts: the Merkle tree of a batch as the page shows it, and what the
-- batch cost.
pub mod Agrees
mod Examples
use logchain.Prelude.{
  ℕ, suc, ◌*◌, max, Bool, Option, none, some, List, [], ◌∷◌, ◌++◌, map, find, Text, codes, text_eq,
  option_eq, is_empty, trim,
}
use logchain.Entities.{Log, log_id, Batch, BatchStatus, BatchLogSnapshot, Db}
use logchain.LogHash.{Runtime, recompute_content_leaf, to_lower}
use logchain.Merkle.{MerkleTree, Layers, Promoted, build_root, get_layers, leaf_hash}
use logchain.Json.{decimal}
use logchain.Decimal.{
  ℤ, pos, Amount, parse_dec, from_units, mul, mul_int, div_int, format_dec, extra_digits,
}
use logchain.Blockchain.Check.{read_chain_root, explorer_tx_url}
use logchain.Integrity.State.{World, logs_for_batch}
use logchain.Integrity.BatchDiff.{hex, chain_root_of, chain_error_of, snapshots_of}

pub record CostTriple : Type 0 where
  pub batch : Text
  pub per_log : Text
  pub one_tx_per_log : Text

pub record BatchCost : Type 0 where
  pub gas_used : Text
  pub effective_gas_price_gwei : Text
  pub batch_cost_pol : Text
  pub per_log_cost_pol : Text
  pub one_tx_per_log_cost_pol : Text
  pub saving_factor : Text
  pub eth : Option CostTriple
  pub thb : Option CostTriple
  pub pol_eth : Option Text
  pub pol_thb : Option Text
  pub as_of : Option Text

pub record Leaf : Type 0 where
  pub index : ℕ
  pub log_id : Text
  pub raw_hash : Text
  pub leaf_hash : Text
  pub content_hash : Text

pub record BatchTree : Type 0 where
  pub batch_id : Text
  pub status : BatchStatus
  pub log_count : ℕ
  pub tx_hash : Option Text
  pub block_number : Option ℕ
  pub polygonscan_url : Option Text
  pub db_root : Text
  pub snapshot_root : Option Text
  pub stored_hash_root : Option Text
  pub stored_hash_root_matches_db : Bool
  pub content_root : Option Text
  pub content_root_matches_db : Bool
  pub chain_root : Option Text
  pub chain_error : Option Text
  pub checked_at : ℕ
  pub leaves : List Leaf
  pub layers : List (List Text)
  pub promoted : List Promoted
  pub cost : Option BatchCost

-- BLOCKCHAIN_EXPLORER_TX_URL, PRICE_POL_ETH, PRICE_POL_THB and PRICE_AS_OF.
pub record Variables : Type 0 where
  pub explorer : Option Text
  pub price_pol_eth : Option Text
  pub price_pol_thb : Option Text
  pub price_as_of : Option Text

abbrev pol_decimals : ℕ
pol_decimals = 18

abbrev gwei_decimals : ℕ
gwei_decimals = 9

-- `triple`
triple : Amount → Amount → Amount → Option Amount → Option CostTriple
unfolding mul format_dec
triple pol per_log one_tx none = none
triple pol per_log one_tx (some rate) = some (record {
  batch = format_dec (mul pol rate);
  per_log = format_dec (mul per_log rate);
  one_tx_per_log = format_dec (mul one_tx rate);
})

format_rate : Option Amount → Option Text
unfolding format_dec
format_rate none = none
format_rate (some rate) = some (format_dec rate)

-- `x || null`
non_empty : Text → Option Text
non_empty [] = none
non_empty (c ∷ s) = some (c ∷ s)

trimmed : Option Text → Option Text
unfolding non_empty trim
trimmed none = none
trimmed (some raw) = non_empty (trim raw)

module _ (env : Variables) where
  cost_of : Batch → ℕ → ℕ → BatchCost
  unfolding triple format_rate trimmed parse_dec from_units mul_int div_int format_dec decimal
  cost_of b gas price =
      let log_count = max b.log_count 1 in
      let pol = from_units (pos (gas * price)) pol_decimals in
      let per_log = div_int pol log_count extra_digits in
      let one_tx = mul_int pol (pos log_count) in
      let pol_eth = parse_dec env.price_pol_eth in
      let pol_thb = parse_dec env.price_pol_thb in
      record {
        gas_used = decimal gas;
        effective_gas_price_gwei = format_dec (from_units (pos price) gwei_decimals);
        batch_cost_pol = format_dec pol;
        per_log_cost_pol = format_dec per_log;
        one_tx_per_log_cost_pol = format_dec one_tx;
        saving_factor = decimal log_count;
        eth = triple pol per_log one_tx pol_eth;
        thb = triple pol per_log one_tx pol_thb;
        pol_eth = format_rate pol_eth;
        pol_thb = format_rate pol_thb;
        as_of = trimmed env.price_as_of;
      }

  cost_by : Batch → Option ℕ → Option ℕ → Option BatchCost
  unfolding cost_of
  cost_by b none price = none
  cost_by b (some gas) none = none
  cost_by b (some gas) (some price) = some (cost_of b gas price)

  unfoldable pub cost : Batch → Option BatchCost
  unfolding cost_by
  cost b = cost_by b b.gas_used b.effective_gas_price

-- The root of the leaves in lower case, which an empty list does not have.
unfoldable pub lower_root : MerkleTree → List Text → Option Text
unfolding to_lower build_root
lower_root lib [] = none
lower_root lib (l ∷ leaves) = some (to_lower (build_root lib (l ∷ leaves)))

built_layers : MerkleTree → List Text → List (List Text)
unfolding get_layers
built_layers lib [] = []
built_layers lib (l ∷ leaves) = (get_layers lib (l ∷ leaves)).layers

built_promoted : MerkleTree → List Text → List Promoted
unfolding get_layers
built_promoted lib [] = []
built_promoted lib (l ∷ leaves) = (get_layers lib (l ∷ leaves)).promoted

module _ (rt : Runtime) (lib : MerkleTree) where
  leaves_from : ℕ → List Log → List Leaf
  unfolding leaf_hash recompute_content_leaf
  leaves_from i [] = []
  leaves_from i (l ∷ logs) =
      record {
        index = i;
        log_id = log_id l;
        raw_hash = l.raw_hash;
        leaf_hash = leaf_hash lib l.raw_hash;
        content_hash = recompute_content_leaf rt l.hashed;
      }
      ∷ leaves_from (suc i) logs

module _ (rt : Runtime) (lib : MerkleTree) (env : Variables) (w : World) (tables : Db) where
  unfoldable pub tree_of : Batch → BatchTree
  unfolding hex lower_root built_layers built_promoted leaves_from cost chain_root_of chain_error_of
      snapshots_of logs_for_batch recompute_content_leaf read_chain_root explorer_tx_url
  tree_of b =
      let logs = logs_for_batch b.id tables in
      let chain = read_chain_root w.ready (w.get_root b.id) in
      let snapshots = snapshots_of b.id tables in
      let hashes = map (λ (l : Log). l.raw_hash) logs in
      let db_root = hex b.merkle_root in
      let stored = lower_root lib hashes in
      let content = lower_root lib (map (λ (l : Log). recompute_content_leaf rt l.hashed) logs) in
      record {
        batch_id = b.id;
        status = b.status;
        log_count = b.log_count;
        tx_hash = b.tx_hash;
        block_number = b.block_number;
        polygonscan_url = explorer_tx_url b.tx_hash env.explorer;
        db_root = db_root;
        snapshot_root = lower_root lib (map (λ (s : BatchLogSnapshot). s.raw_hash) snapshots);
        stored_hash_root = stored;
        stored_hash_root_matches_db = option_eq stored (some db_root);
        content_root = content;
        content_root_matches_db = option_eq content (some db_root);
        chain_root = chain_root_of chain;
        chain_error = chain_error_of chain;
        checked_at = w.now;
        leaves = leaves_from rt lib 0 logs;
        layers = built_layers lib hashes;
        promoted = built_promoted lib hashes;
        cost = cost env b;
      }

  unfoldable pub found_tree : Option Batch → Option BatchTree
  unfolding tree_of
  found_tree none = none
  found_tree (some b) = some (tree_of b)

  -- `none` is the error `Batch not found`.
  unfoldable pub tree : Text → Option BatchTree
  unfolding found_tree
  tree id = found_tree (find (λ (b : Batch). text_eq b.id id) tables.batches)
