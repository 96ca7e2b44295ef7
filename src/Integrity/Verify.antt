-- ===== src/Integrity/Verify.antt =====
-- Verification: `verifyAllBatches`, `verifyLocally`, `raiseTamperAlert`, `resolveTamperAlerts` and
-- `fillGasFromReceipt`.
pub mod Frame
pub mod Detects
pub mod Verdict
pub mod Tampering
pub mod Quiet
mod Examples
use logchain.Prelude.{
  ℕ, suc, Bool, true, false, not, ◌&&◌, ◌||◌, Option, none, some, List, [], ◌∷◌, ◌++◌, map, filter,
  any, Text, codes, text_eq, is_some, is_empty, if◌then◌else◌,
}
use logchain.Errors.{Result, ok, err}
use logchain.Entities.{
  Log, Batch, BatchStatus, pending, sealed, unverified, confirmed, tampered, failed, Alert,
  integrity_tampered, critical, open_alert, resolved, tamper, Db,
}
use logchain.LogHash.{Runtime, is_raw_hash_intact}
use logchain.Merkle.{MerkleTree, build_root}
use logchain.Blockchain.Check.{CheckResult, matched, missing, mismatch, RootCheck, check_root}
use logchain.Integrity.State.{World, logs_for_batch, with_batch, same_type, is_open, id_is}

-- An alert that the check of a batch raised and that is not resolved.
unfoldable pub is_tamper_alert : Text → Alert → Bool
unfolding same_type is_open
is_tamper_alert i a =
    id_is a.batch_id i && same_type a.alert_type integrity_tampered && is_open a.status

unfoldable pub has_tamper_alert : Text → Db → Bool
unfolding is_tamper_alert
has_tamper_alert i db = any (is_tamper_alert i) db.alerts

tamper_alert : Batch → Text → Option Text → List Log → Alert
tamper_alert b recomputed on_chain modified = record {
  batch_id = some b.id;
  alert_type = integrity_tampered;
  severity = critical;
  source = codes "INTEGRITY";
  detail = tamper b.merkle_root recomputed on_chain (map (λ (l : Log). l.content.id) modified);
  status = open_alert;
}

unfoldable pub raise_tamper_alert : Batch → Text → Option Text → List Log → Db → Db
unfolding has_tamper_alert tamper_alert
raise_tamper_alert b recomputed on_chain modified db =
    if has_tamper_alert b.id db
    then db
    else record db { alerts = db.alerts ++ tamper_alert b recomputed on_chain modified ∷ [] }

resolve_if : Text → Alert → Alert
unfolding is_tamper_alert
resolve_if i a = if is_tamper_alert i a then record a { status = resolved } else a

unfoldable pub resolve_tamper_alerts : Batch → Db → Db
unfolding resolve_if
resolve_tamper_alerts b db = record db { alerts = map (resolve_if b.id) db.alerts }

abbrev pub is_status : BatchStatus → BatchStatus → Bool
is_status pending pending = true
is_status sealed sealed = true
is_status unverified unverified = true
is_status confirmed confirmed = true
is_status tampered tampered = true
is_status failed failed = true
is_status _ _ = false

-- A column that is a text with a character in it.
abbrev pub is_truthy : Option Text → Bool
is_truthy none = false
is_truthy (some []) = false
is_truthy (some (c ∷ s)) = true

with_gas : Batch → Result (Option (ℕ × ℕ)) → Batch
with_gas b (err e) = b
with_gas b (ok none) = b
with_gas b (ok (some (used, price))) = record b {
  gas_used = some used;
  effective_gas_price = some price;
}

fill_gas_from_receipt : World → Option Text → Batch → Batch
unfolding with_gas
fill_gas_from_receipt w none b = b
fill_gas_from_receipt w (some hash) b =
    if not (is_truthy (some hash)) || is_some b.gas_used then b else with_gas b (w.get_tx_gas hash)

unfoldable pub verify_locally : Batch → Text → List Log → Db → Db
unfolding raise_tamper_alert resolve_tamper_alerts with_batch
verify_locally b recomputed modified db =
    if not (text_eq recomputed (codes "0x" ++ b.merkle_root)) || not (is_empty modified)
    then (let db' = raise_tamper_alert b recomputed none modified db in
        if is_status b.status tampered
        then db'
        else with_batch (record b { status = tampered }) db')
    else if is_truthy b.tx_hash
    then db
    else resolve_tamper_alerts b
        (if is_status b.status tampered then with_batch (record b { status = sealed }) db else db)

verify_mismatch : Batch → Text → Text → List Log → Db → Db
unfolding raise_tamper_alert with_batch
verify_mismatch b recomputed on_chain modified db =
    with_batch (record b { status = tampered })
      (raise_tamper_alert b recomputed (some on_chain) modified db)

verify_missing : Batch → Db → Db
unfolding with_batch
verify_missing b db =
    if is_status b.status unverified then db else with_batch (record b { status = unverified }) db

pub reverified : World → Batch → Batch
unfolding fill_gas_from_receipt
reverified w b =
    let b' = record b { status = confirmed } in
    if is_status b.status unverified then fill_gas_from_receipt w b.tx_hash b' else b'

pub verify_matched : World → Batch → Db → Db
unfolding reverified with_batch resolve_tamper_alerts
verify_matched w b db =
    resolve_tamper_alerts b
      (if is_status b.status confirmed then db else with_batch (reverified w b) db)

-- What the chain says decides, unless a row does not match its own raw hash.
on_result : World → Batch → Text → List Log → Text → CheckResult → Db → Db
unfolding verify_mismatch verify_missing verify_matched
on_result w b recomputed modified on_chain mismatch db =
    verify_mismatch b recomputed on_chain modified db
on_result w b recomputed modified on_chain missing db =
    if is_empty modified
    then verify_missing b db
    else verify_mismatch b recomputed on_chain modified db
on_result w b recomputed modified on_chain matched db =
    if is_empty modified
    then verify_matched w b db
    else verify_mismatch b recomputed on_chain modified db

on_check : World → Batch → Text → List Log → Result RootCheck → Db → Db
unfolding on_result verify_locally
on_check w b recomputed modified (err e) db = verify_locally b recomputed modified db
on_check w b recomputed modified (ok c) db =
    on_result w b recomputed modified c.on_chain_root c.result db

-- Rows that no longer match their own raw hash.
unfoldable pub modified_logs : Runtime → List Log → List Log
modified_logs rt logs = filter (λ (l : Log). not (is_raw_hash_intact rt l.hashed)) logs

abbrev pub recomputed_root : MerkleTree → List Log → Text
recomputed_root lib logs = build_root lib (map (λ (l : Log). l.raw_hash) logs)

module _ (rt : Runtime) (lib : MerkleTree) where
  -- The body of the loop, for one batch.
  unfoldable pub verify_batch : World → Batch → Db → Db
  unfolding on_check verify_locally modified_logs
  verify_batch w b db =
      let logs = logs_for_batch b.id db in
      let root = recomputed_root lib logs in
      let modified = modified_logs rt logs in
      if is_status b.status sealed || not w.ready
      then verify_locally b root modified db
      else on_check w b root modified (check_root w.ready (w.get_root b.id) root) db

  unfoldable pub verify_each : (ℕ → World) → List Batch → Db → Db
  unfolding verify_batch
  verify_each ws [] db = db
  verify_each ws (b ∷ bs) db = verify_each (λ i. ws (suc i)) bs (verify_batch (ws 0) b db)

  abbrev pub is_verified : Batch → Bool
  is_verified b =
      is_status b.status confirmed
      || is_status b.status unverified
      || is_status b.status tampered
      || is_status b.status sealed

  -- The batches are read once, before the loop.
  unfoldable pub verify_all_batches : (ℕ → World) → Db → Db
  unfolding verify_each
  verify_all_batches ws db = verify_each ws (filter is_verified db.batches) db
