-- ===== src/Integrity/Anchoring.antt =====
-- Anchoring afterwards: `anchorSealedBatches` and `reanchorUnverified`.
pub mod Safe
use logchain.Prelude.{
  ℕ, suc, Bool, true, false, Option, none, some, List, [], ◌∷◌, ◌++◌, filter, Text, codes,
  if◌then◌else◌,
}
use logchain.Errors.{Thrown, Result, ok, err}
use logchain.Entities.{Batch, BatchStatus, sealed, unverified, confirmed, Db}
use logchain.Blockchain.Errors.{ChainWriteError, root_exists, classify_chain_error}
use logchain.Blockchain.Send.{StoreRootResult}
use logchain.Blockchain.Check.{CheckResult, matched, missing, RootCheck, check_root}
use logchain.Integrity.State.{World, with_batch}
use logchain.Integrity.Verify.{is_status}

abbrev pub stored_root : Batch → Text
stored_root b = codes "0x" ++ b.merkle_root

with_transaction : StoreRootResult → Batch → Batch
with_transaction r b = record b {
  tx_hash = some r.tx_hash;
  block_number = r.block_number;
  gas_used = r.gas_used;
  effective_gas_price = r.effective_gas_price;
}

anchored : World → StoreRootResult → Batch → Batch
unfolding with_transaction
anchored w r b =
    if r.confirmed
    then record (with_transaction r b) { status = confirmed; confirmed_at = some w.now }
    else record (with_transaction r b) { status = unverified }

-- The root was on the chain already. An error of the check leaves the loop.
adopt_anchored : World → Batch → Db → Result RootCheck → Result Db
adopt_anchored w b db (err e) = err e
adopt_anchored w b db (ok c) = elim c.result [
  | matched ↦ ok (with_batch (record b { status = confirmed; confirmed_at = some w.now }) db)
  | _ ↦ ok db
]

anchor_stored : World → Batch → Db → Result StoreRootResult → Result Db
unfolding anchored adopt_anchored
anchor_stored w b db (ok r) = ok (with_batch (anchored w r b) db)
anchor_stored w b db (err e) = elim (classify_chain_error e) [
  | root_exists ↦ adopt_anchored w b db (check_root w.ready (w.get_root b.id) (stored_root b))
  | _ ↦ ok db
]

-- The body of the loop, for one batch.
unfoldable pub anchor_sealed : World → Batch → Db → Result Db
unfolding anchor_stored
anchor_sealed w b db = anchor_stored w b db (w.store_root b.id (stored_root b))

-- The tables where the loop ended, and whether it threw.
anchor_each : (ℕ → World) → List Batch → Db → Db × Result Bool
anchor_each ws [] db = (db, ok true)
anchor_each ws (b ∷ bs) db =
    anchor_next db (anchor_sealed (ws 0) b db) (λ db'. anchor_each (λ i. ws (suc i)) bs db')
  where
    anchor_next : Db → Result Db → (Db → Db × Result Bool) → Db × Result Bool
    anchor_next db (err e) rest = (db, err e)
    anchor_next db (ok db') rest = rest db'

-- `ready` is read once, before the loop.
unfoldable pub anchor_sealed_batches : Bool → (ℕ → World) → Db → Db × Result Bool
unfolding anchor_each anchor_sealed
anchor_sealed_batches false ws db = (db, ok true)
anchor_sealed_batches true ws db =
    anchor_each ws (filter (λ b. is_status b.status sealed) db.batches) db

reanchor_stored : Batch → Db → Result StoreRootResult → Db
unfolding with_transaction
reanchor_stored b db (ok r) = with_batch (with_transaction r b) db
reanchor_stored b db (err e) = db

-- Every error is caught for its batch alone.
reanchor_checked : World → Batch → Db → Result RootCheck → Db
unfolding reanchor_stored
reanchor_checked w b db (err e) = db
reanchor_checked w b db (ok c) = elim c.result [
  | missing ↦ reanchor_stored b db (w.store_root b.id (stored_root b))
  | _ ↦ db
]

unfoldable pub reanchor : World → Batch → Db → Db
unfolding reanchor_checked
reanchor w b db = reanchor_checked w b db (check_root w.ready (w.get_root b.id) (stored_root b))

reanchor_each : (ℕ → World) → List Batch → Db → Db
unfolding reanchor
reanchor_each ws [] db = db
reanchor_each ws (b ∷ bs) db = reanchor_each (λ i. ws (suc i)) bs (reanchor (ws 0) b db)

-- `auto` is whether INTEGRITY_AUTO_REANCHOR is `true`.
unfoldable pub reanchor_unverified : Bool → Bool → (ℕ → World) → Db → Db
unfolding reanchor_each
reanchor_unverified ready auto ws db =
    if ready
    then (if auto
        then reanchor_each ws (filter (λ b. is_status b.status unverified) db.batches) db
        else db)
    else db
