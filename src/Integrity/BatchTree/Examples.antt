-- ===== src/Integrity/BatchTree/Examples.antt =====
-- The tree of a batch of two logs and its costs.
use logchain.Prelude.{◌≡◌, refl, Option, none, some, Text, codes, text_eq, trim}
use logchain.Entities.{Batch}
use logchain.Json.{decimal}
use logchain.Decimal.{parse_dec, from_units, mul_int, mul, div_int, format_dec}
use logchain.Integrity.BatchDiff.{BatchDiff, base_of}
use logchain.Integrity.BatchDiff.Compare.{diff, diff_batch}
use logchain.Integrity.BatchTree.{BatchTree, BatchCost, Variables, cost, tree, tree_of}
use logchain.Integrity.BatchTree.Agrees.{SaysTheSame, tree-SaysTheSame}
use logchain.Integrity.Fixture.{flat, flat_IsHexRoot, online, dated, anchored_batch, tampered_db}

abbrev priced : Variables
priced = record {
  explorer = none;
  price_pol_eth = some (codes "0.5");
  price_pol_thb = some (codes " ");
  price_as_of = none;
}

abbrev tree_in : BatchTree
tree_in = tree_of dated flat priced online tampered_db anchored_batch

abbrev diff_in : BatchDiff
diff_in =
    diff_batch dated flat tampered_db (base_of dated flat none online tampered_db anchored_batch)

tree_found : tree dated flat priced online tampered_db (codes "b1") ≡ some tree_in
unfolding tree text_eq
tree_found = refl

diff_made : diff dated flat none online (codes "b1") tampered_db ≡ some diff_in
unfolding diff text_eq
diff_made = refl

-- 50000 gas at 30 gwei.
abbrev paid_batch : Batch
paid_batch = record anchored_batch {
  log_count = 3;
  gas_used = some 50000;
  effective_gas_price = some 30000000000;
}

abbrev told : Option BatchCost → Option (Text × Text × Option Text)
told none = none
told (some c) = some (c.batch_cost_pol, c.per_log_cost_pol, c.pol_thb)

cost_run : told (cost priced paid_batch) ≡ some (codes "0.0015", codes "0.0005", none)
unfolding cost parse_dec trim from_units mul_int mul div_int format_dec decimal
cost_run = refl

tree-SaysTheSame_example : SaysTheSame tree_in diff_in.base
tree-SaysTheSame_example =
    tree-SaysTheSame dated flat flat_IsHexRoot priced online tampered_db (codes "b1") tree_in
      diff_in tree_found diff_made
